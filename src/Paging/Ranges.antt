-- ===== src/Paging/Ranges.antt =====
-- The operations on ranges, and `paging_init`, keep the memory manager in order.
use risky.Base.{
  ℕ, zero, suc, ◌+◌, ◌%◌, Bool, true, false, not, ◌||◌, Option, List, [], ◌∷◌, leb, ◌==◌, arith,
  u64, Bool-cases, Option-cases, inl, inr,
}
use risky.Page.{page_size, page_align_down, page_align_up}
use risky.Pfndb.{Entry}
use risky.Pmm.Invariant.{View}
use risky.Pmm.Ready.{IsReady}
use risky.Paging.{
  Paging, Layout, Responses, Segment, and_then, is_there, prot_rwg, paging_setup_root,
  paging_map_one, paging_map_page, map_pages, paging_map_range, paging_map_mmio, map_hhdm_entries,
  paging_map_hhdm, map_segment_pages, paging_map_kernel_segment, paging_map_kernel_segments,
  paging_init,
}
use risky.Paging.Kept.{IsMapping, Kept, here-Kept, then-Kept, map_walk-Kept}

-- What keeps the memory manager in order from any state in which it is.
abbrev Keeper : ℕ → (Paging → Option (Bool × Paging)) → Type 0
Keeper max_pfn f = (v : View) (p : Paging) → IsMapping max_pfn v p → Kept max_pfn v p (f p)

module _ {max_pfn : ℕ} where
  and_then-Kept :
      {v : View} {p : Paging} {r : Option (Bool × Paging)} (rest : Paging → Option (Bool × Paging))
      → Kept max_pfn v p r
      → Keeper max_pfn rest
      → Kept max_pfn v p (and_then r rest)
  and_then-Kept rest k next = elim (Bool-cases k.value) [
    | inl on ↦ rw (k.returns, on) (then-Kept k (next k.view k.state k.is_mapping))
    | inr off ↦ rw (k.returns, off) (then-Kept k (here-Kept false k.is_mapping))
  ]

module _ (max_pfn : ℕ) (l : Layout) where
  -- With the memory manager between two calls, mapping one page never faults. The memory manager
  -- is then again between two calls, every used and reserved block of memory stays, no more
  -- tables are taken from the pool than it has, and the root and the number of levels are as
  -- before.
  pub map_page-Kept :
      (virt phys flags : ℕ) (v : View) (p : Paging)
      → IsMapping max_pfn v p
      → Kept max_pfn v p (paging_map_page l virt phys flags p)
  unfolding paging_map_page paging_map_one
  map_page-Kept virt phys flags v p h =
      elim (Bool-cases
        (not (virt % page_size == 0) || (not (phys % page_size == 0) || (p.root_phys == 0)))) [
          | inl bad ↦ rw bad (here-Kept false h)
          | inr good ↦ rw good (map_walk-Kept l _ _ virt phys flags p h)
        ]

  pub map_pages-Kept :
      (count virt phys flags : ℕ) → Keeper max_pfn (map_pages l count virt phys flags)
  unfolding map_pages
  map_pages-Kept zero virt phys flags v p h = here-Kept true h
  map_pages-Kept (suc count) virt phys flags v p h =
      and_then-Kept _ (map_page-Kept virt phys flags _ p h)
        (map_pages-Kept count (u64 (virt + page_size)) (u64 (phys + page_size)) flags)

  -- With the memory manager between two calls, mapping a range returns without a fault, whether
  -- it succeeds or not. The memory manager is then again between two calls, every used and
  -- reserved block of memory stays, no more tables are taken from the pool than it has, and the
  -- root and the number of levels are as before.
  pub map_range-Kept :
      (virt phys size flags : ℕ) (v : View) (p : Paging)
      → IsMapping max_pfn v p
      → Kept max_pfn v p (paging_map_range l virt phys size flags p)
  unfolding paging_map_range
  map_range-Kept virt phys size flags v p h = elim (Bool-cases (size == 0)) [
    | inl nothing ↦ rw nothing (here-Kept true h)
    | inr something ↦ rw something (map_pages-Kept _ virt phys flags _ p h)
  ]

  -- Mapping a device never faults, and leaves the memory manager as mapping one page does.
  pub map_mmio-Kept :
      (phys size : ℕ) (v : View) (p : Paging)
      → IsMapping max_pfn v p
      → Kept max_pfn v p (paging_map_mmio l phys size p)
  unfolding paging_map_mmio
  map_mmio-Kept phys size v p h = elim (Bool-cases (size == 0)) [
    | inl nothing ↦ rw nothing (here-Kept false h)
    | inr something ↦ rw something (map_range-Kept _ _ _ prot_rwg _ p h)
  ]

  map_entries-Kept : (es : List Entry) → Keeper max_pfn (map_hhdm_entries l es)
  unfolding map_hhdm_entries
  map_entries-Kept [] v p h = here-Kept true h
  map_entries-Kept (e ∷ es) v p h =
      elim (Bool-cases (page_align_down e.base == page_align_up (u64 (e.base + e.length)))) [
        | inl empty ↦ rw empty (map_entries-Kept es _ p h)
        | inr some_pages ↦
            rw some_pages
              (and_then-Kept _ (map_range-Kept _ _ _ prot_rwg _ p h) (map_entries-Kept es))
      ]

  map_hhdm-Kept : (r : Responses) → Keeper max_pfn (paging_map_hhdm l r)
  unfolding paging_map_hhdm
  map_hhdm-Kept r v p h = elim (Option-cases r.memmap) [
    | inl missing ↦ rw missing (here-Kept false h)
    | inr (memmap, given) ↦ elim (Bool-cases r.hhdm) [
      | inl offset ↦ rw (given, offset) (map_entries-Kept memmap _ p h)
      | inr missing ↦ rw (given, missing) (here-Kept false h)
    ]
  ]

  segment_pages-Kept :
      (phys_base virt_base count virt flags : ℕ)
      → Keeper max_pfn (map_segment_pages l phys_base virt_base count virt flags)
  unfolding map_segment_pages
  segment_pages-Kept phys_base virt_base zero virt flags v p h = here-Kept true h
  segment_pages-Kept phys_base virt_base (suc count) virt flags v p h =
      and_then-Kept _ (map_page-Kept virt _ flags _ p h)
        (segment_pages-Kept phys_base virt_base count (u64 (virt + page_size)) flags)

  segment-Kept : (r : Responses) (g : Segment) → Keeper max_pfn (paging_map_kernel_segment l r g)
  unfolding paging_map_kernel_segment
  segment-Kept r g v p h = elim (Bool-cases (leb (page_align_up g.end) (page_align_down g.start))) [
    | inl empty ↦ rw empty (here-Kept true h)
    | inr some_pages ↦ elim (Option-cases r.executable) [
      | inl missing ↦ rw (some_pages, missing) (here-Kept true h)
      | inr (bases, given) ↦
          rw (some_pages, given) (segment_pages-Kept (bases.0) (bases.1) _ _ g.flags _ p h)
    ]
  ]

  segments-Kept :
      (r : Responses) (gs : List Segment) → Keeper max_pfn (paging_map_kernel_segments l r gs)
  unfolding paging_map_kernel_segments
  segments-Kept r [] v p h = here-Kept true h
  segments-Kept r (g ∷ gs) v p h = and_then-Kept _ (segment-Kept r g _ p h) (segments-Kept r gs)

  -- With the memory manager between two calls, `paging_init` returns without a fault, whether it
  -- succeeds or not. The memory manager is then again between two calls, every used and reserved
  -- block of memory stays, no more tables are taken from the pool than it has, and the root and
  -- the number of levels are those that `paging_setup_root` reads off `satp`.
  pub paging_init-Kept :
      (satp : ℕ) (r : Responses) (segments : List Segment) (v : View) (p : Paging)
      → IsReady max_pfn v p.pmm
      → Kept max_pfn v
          (paging_setup_root satp (record p { pool_used = 0 })).1
          (paging_init satp l r segments p)
  unfolding paging_init paging_setup_root
  paging_init-Kept satp r segments v p h =
      let ok = (paging_setup_root satp (record p { pool_used = 0 })).0 in
      let p' = (paging_setup_root satp (record p { pool_used = 0 })).1 in
      let is : IsMapping max_pfn v p' = record { is_ready = h; pool = omega arith } in
      elim (Bool-cases
        (not ok || (not r.hhdm || (not (is_there r.memmap) || not (is_there r.executable))))) [
          | inl bad ↦ rw bad (here-Kept false is)
          | inr good ↦
              rw good (and_then-Kept _ (map_hhdm-Kept r v p' is) (segments-Kept r segments))
        ]
