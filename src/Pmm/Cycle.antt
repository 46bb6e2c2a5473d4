-- ===== src/Pmm/Cycle.antt =====
-- `pmm_alloc`, and `pmm_free` of what it returned.
use risky.Base.{
  ℕ, ◌+◌, ◌*◌, ◌^◌, ◌≤◌, ◌<◌, ◌≡◌, ◌≢◌, ◌⊎◌, sym, ap, Option, some, arith, inl, inr, ◌∙◌,
}
use risky.Page.{Ptr, page_size, phys_to_virt}
use risky.Pfndb.{pfndb_page_to_phys}
use risky.Pfndb.Lookup.{get_page_in, pfn_round_trips}
use risky.Pmm.{Pmm, page_alloc, pmm_alloc, pmm_free, pmm_max_order}
use risky.Pmm.Buddy.{two-pow-pos}
use risky.Pmm.Invariant.{Keeps, View}
use risky.Pmm.Ready.{IsReady}
use risky.Pmm.Return.{pmm_free-IsReturned}
use risky.Pmm.Alloc.{IsAllocated, IsExhausted, page_alloc_lem, address_of, pmm_alloc-page_alloc}

module _ {max_pfn : ℕ} {v : View} {s : Pmm} (h : IsReady max_pfn v s) (offset order : ℕ)
    (lt : order < pmm_max_order) where
  -- The address of a block.
  block_address :
      (p o : ℕ)
      → v.order p ≡ some o
      → phys_to_virt offset (pfndb_page_to_phys s.db (some p)) ≡ phys_to_virt offset (p * page_size)
  block_address p o e =
      let inside : p ≤ max_pfn = omega (arith, h.sound.tiling.fits p o e, two-pow-pos o) in
      let same : s.db.max_pfn ≡ max_pfn = h.sound.same_max in
      let small : max_pfn < 2 ^ 52 = h.sound.small in
      let there = get_page_in s.db p h.sound.present (omega arith) in
      let trips =
        pfn_round_trips s.db p 0 h.sound.present (omega arith) (omega arith) (omega arith) in
      ap (λ (a : ℕ). phys_to_virt offset a)
        (ap (λ (q : Ptr). pfndb_page_to_phys s.db q) (sym there) ∙ trips.1)

-- What `pmm_alloc` returns: the address of the first frame of a used block, or 0.
pub record IsAddressed (max_pfn : ℕ) (v : View) (offset order : ℕ) (s : Pmm)
    (result : Option (ℕ × Pmm)) : Type 0 where
  pub block : IsAllocated max_pfn v order s (page_alloc order s)
  pub returns : result ≡ some (phys_to_virt offset (block.page * page_size), block.state)

module _ {max_pfn : ℕ} {v : View} {s : Pmm} (h : IsReady max_pfn v s) (offset order : ℕ)
    (lt : order < pmm_max_order) where
  -- Between two calls, `pmm_alloc` of an order below the maximum does not fault. It returns the
  -- address of the first frame of the block that `page_alloc` takes, or it returns 0, changes
  -- nothing, and no free block was large enough.
  pub pmm_alloc_lem :
      IsAddressed max_pfn v offset order s (pmm_alloc offset order s)
      ⊎ ((pmm_alloc offset order s ≡ some (0, s)) × IsExhausted v order s (page_alloc order s))
  pmm_alloc_lem = elim (page_alloc_lem h order lt) [
    | inl a ↦ inl (record {
      block = a;
      returns =
          pmm_alloc-page_alloc offset order s
          ∙ ap (address_of offset) a.returns
          ∙ ap (λ (x : ℕ). some (x, a.state))
              (block_address a.is_ready offset order lt a.page order a.begins);
    })
    | inr x ↦ inr (pmm_alloc-page_alloc offset order s ∙ ap (address_of offset) x.returns, x)
  ]

  -- Between two calls, for an order below the maximum and an offset of 64 bits: when `pmm_alloc`
  -- has returned an address that is not 0, freeing it brings `g_free_pages` back to where it was,
  -- keeps the blocks that were used or reserved before, and leaves a state between two calls.
  pub pmm_free-pmm_alloc :
      (ptr : ℕ) (t : Pmm)
      → offset < 2 ^ 64
      → ptr ≢ 0
      → pmm_alloc offset order s ≡ some (ptr, t)
      → (w : View) × IsReady max_pfn w (pmm_free offset ptr t)
        × ((pmm_free offset ptr t).free_pages ≡ s.free_pages)
        × Keeps v w
  pmm_free-pmm_alloc ptr t small ne e = elim pmm_alloc_lem [
    | inr (f, x) ↦ absurd (ne cc)
    | inl a ↦
        let b = a.block in
        let first : phys_to_virt offset (b.page * page_size)
            ≡ phys_to_virt offset (b.page * page_size + 0) =
          omega arith in
        let at : ptr ≡ phys_to_virt offset (b.page * page_size + 0) = ground (arith, a.returns) in
        let state : t ≡ b.state = cc (a.returns) in
        let back =
          pmm_free-IsReturned b.is_ready b.page order b.begins offset 0 small (omega arith)
            (rw at at ne) b.is_used in
        rw (at, state)
          (
            back.view,
            back.is_ready,
            omega (arith, back.grown, b.shrunk),
            λ q r f g.
                let mid = b.keeps q r f g in
                let other : q ≢ b.page = ground (arith, b.was_free) in
                let end = back.keeps q r mid.0 (rw (mid.1) g) other in (end.0, end.1 ∙ mid.1),
          )
  ]
