-- ===== src/Pmm/Return.antt =====
-- `pmm_free`: a used block goes back to the free lists; every other call changes nothing.
use risky.Base.{
  ℕ, ◌+◌, ◌*◌, ◌^◌, ◌≤◌, ◌<◌, ◌≡◌, ◌≢◌, ◌⊎◌, ap, Bool, true, false, some, ◌==◌, arith, inl, inr,
  ◌∙◌, u64, eq_self, eq_of_ne,
}
use risky.Page.{page_size, phys_to_virt, virt_to_phys, phys_pfn}
use risky.Page.Align.{virt_to_phys-phys_to_virt}
use risky.Page.Flags.{flags_of_free, flags_of_used, flags_of_reserved}
use risky.Pfndb.{pfndb_phys_to_page}
use risky.Pfndb.Lookup.{get_page_in, pfn_round_trips}
use risky.Pmm.{Pmm, pmm_free_block, free_page, pmm_free}
use risky.Pmm.Buddy.{two-pow-pos}
use risky.Pmm.Invariant.{
  free, used, reserved, held, View, IsSound, is_busy, weigh, weigh-lt, Shows-kind,
}
use risky.Pmm.Steps.{rekind_view, lift-IsSound}
use risky.Pmm.Merge.{IsHolding}
use risky.Pmm.Free.{pmm_free_block-IsFreed}
use risky.Pmm.Pairs.{Lone, Coalesced, rekind-Coalesced}
use risky.Pmm.Ready.{IsReady, two-pow-le}

-- Soundness does not look at the counters.
pub recount-IsSound :
    {max_pfn : ℕ} {v : View} {s : Pmm} (free_pages total_pages : ℕ) (ready : Bool)
    → IsSound max_pfn v s
    → IsSound max_pfn v
        (record s { free_pages = free_pages; total_pages = total_pages; ready = ready })
recount-IsSound free_pages total_pages ready sound = record {
  present = sound.present;
  same_max = sound.same_max;
  small = sound.small;
  tiling = sound.tiling;
  shows = sound.shows;
  lists = λ o. record {
    links = (sound.lists o).links;
    distinct = (sound.lists o).distinct;
    head = (sound.lists o).head;
    count = (sound.lists o).count;
  };
  members = sound.members;
  listed = sound.listed;
}

-- The used block at `p` is free again, as a part of a free block that has no free buddy of its order;
-- the other used and reserved blocks are as before, no pair of free buddies arises, and the free
-- frames grow by those of the block.
pub record IsReturned (max_pfn : ℕ) (v : View) (p o : ℕ) (s s' : Pmm) : Type 0 where
  pub view : View
  pub is_ready : IsReady max_pfn view s'
  pub start : ℕ
  pub size : ℕ
  pub begins : view.order start ≡ some size
  pub is_free : view.kind start ≡ free
  pub contains : (start ≤ p) × (p + 2 ^ o ≤ start + 2 ^ size)
  pub keeps :
      (q r : ℕ)
      → v.order q ≡ some r
      → is_busy (v.kind q) ≡ true
      → q ≢ p
      → (view.order q ≡ some r) × (view.kind q ≡ v.kind q)
  pub lone : Lone view start size
  pub coalesced : Coalesced v → Coalesced view
  pub grown : s'.free_pages ≡ s.free_pages + 2 ^ o

pmm_free_lem :
    (offset ptr page : ℕ) (s : Pmm)
    → s.ready ≡ true
    → (ptr == 0) ≡ false
    → pfndb_phys_to_page s.db (virt_to_phys offset ptr) ≡ some page
    → pmm_free offset ptr s ≡ free_page page s
unfolding pmm_free
pmm_free_lem offset ptr page s a b c = ground arith

module _ {max_pfn : ℕ} {v : View} {s : Pmm} (h : IsReady max_pfn v s) (p o : ℕ)
    (e : v.order p ≡ some o) where
  in_range : p ≤ max_pfn
  in_range = omega (arith, h.sound.tiling.fits p o e, two-pow-pos o)

  lifted :
      v.kind p ≡ used
      → IsHolding max_pfn
          (rekind_view v p held)
          p
          o
          (record s { free_pages = u64 (s.free_pages + 2 ^ o) })
  lifted k = record {
    sound = recount-IsSound _ _ _ (lift-IsSound h.sound p (λ f. cc));
    order = e;
    kind = ground (arith, eq_self p);
    only = λ q r f g. ground (arith, h.settled q r f);
  }

  pub free_page-IsReturned : v.kind p ≡ used → IsReturned max_pfn v p o s (free_page p s)
  free_page-IsReturned k =
      let (flags, order) = Shows-kind h.sound p o used e k in
      let (not_free, is_used, not_reserved) = flags_of_used (s.db.page p) flags in
      let done = pmm_free_block-IsFreed (lifted k) order in
      let before : weigh 10 v.lists < 2 ^ 63 = weigh-lt h.sound in
      let size : 2 ^ o ≤ 512 = two-pow-le o (h.sound.tiling.order_lt p o e) in
      let grown : u64 (s.free_pages + 2 ^ o) ≡ s.free_pages + 2 ^ o = omega (arith, h.counted) in
      rw (free_page_lem flags order) (record {
        view = done.view;
        is_ready = record {
          sound = done.sound;
          settled = done.settled;
          ready = done.rest.2 ∙ h.ready;
          counted = omega (arith, done.rest.0, done.weight, h.counted);
        };
        start = done.start;
        size = done.size;
        begins = done.begins;
        is_free = done.is_free;
        contains = done.contains;
        keeps = λ q r f b ne. ground (arith, done.keeps q r f, eq_of_ne q p ne);
        lone = done.lone;
        coalesced = λ apart. done.coalesced (rekind-Coalesced v p apart);
        grown = done.rest.0 ∙ grown;
      })
    where
      free_page_lem :
          (s.db.page p).flags ≡ 4
          → (s.db.page p).order ≡ o
          → free_page p s ≡ pmm_free_block p (record s { free_pages = u64 (s.free_pages + 2 ^ o) })
      free_page_lem flags order =
          unfold free_page in
          rw ((flags_of_used (s.db.page p) flags).2, (flags_of_used (s.db.page p) flags).0, order)

  module _ (offset within : ℕ) (small : offset < 2 ^ 64) (inside : within < page_size)
      (ptr : phys_to_virt offset (p * page_size + within) ≢ 0) where
    -- The pointer that the code tests leads to the page at `p`.
    reaches : pmm_free offset (phys_to_virt offset (p * page_size + within)) s ≡ free_page p s
    reaches =
        let same : s.db.max_pfn ≡ max_pfn = h.sound.same_max in
        let max : max_pfn < 2 ^ 52 = h.sound.small in
        let phys =
          virt_to_phys-phys_to_virt offset (p * page_size + within) small
            (omega (arith, in_range)) in
        let found =
          (pfn_round_trips s.db p within h.sound.present (omega arith) (omega (arith, in_range))
            inside).2
          ∙ get_page_in s.db p h.sound.present (omega (arith, in_range)) in
        pmm_free_lem offset _ p s h.ready (eq_of_ne _ 0 ptr)
          (ap (λ (a : ℕ). pfndb_phys_to_page s.db a) phys ∙ found)

    -- Between two calls, with an offset of 64 bits, freeing a used block by an address in its first
    -- frame, the sum with the offset not being 0, returns it: the
    -- state is again one between two calls, and a free block contains the frames of the block. It
    -- is merged as far as it goes: it has the greatest order, or no free block of its order begins
    -- at its buddy; and when there was no pair of free buddies of one order, below the greatest,
    -- there is none. The other used and reserved blocks stay, and `g_free_pages` grows by the size of the block.
    pub pmm_free-IsReturned :
        v.kind p ≡ used
        → IsReturned max_pfn v p o s
            (pmm_free offset (phys_to_virt offset (p * page_size + within)) s)
    pmm_free-IsReturned k = rw reaches (free_page-IsReturned k)

    -- Between two calls, with an offset of 64 bits, freeing a reserved or a free block by an address
    -- in its first frame, the sum with the offset not being 0, changes nothing.
    pub pmm_free_refused :
        (v.kind p ≡ reserved) ⊎ (v.kind p ≡ free)
        → pmm_free offset (phys_to_virt offset (p * page_size + within)) s ≡ s
    pmm_free_refused (inl k) =
        let (flags, order) = Shows-kind h.sound p o reserved e k in
        reaches ∙ (unfold free_page in rw ((flags_of_reserved (s.db.page p) flags).2))
    pmm_free_refused (inr k) =
        let (flags, order) = Shows-kind h.sound p o free e k in
        reaches
        ∙ (unfold free_page in
            rw ((flags_of_free (s.db.page p) flags).2, (flags_of_free (s.db.page p) flags).0))

-- Before the allocator is ready, for `NULL`, and for an address past the last frame, `pmm_free`
-- changes nothing.
pmm_free_ignored :
    (offset ptr : ℕ) (s : Pmm)
    → (s.ready ≡ false) ⊎ ((ptr ≡ 0) ⊎ (s.db.max_pfn < phys_pfn (virt_to_phys offset ptr)))
    → pmm_free offset ptr s ≡ s
unfolding pmm_free pfndb_phys_to_page
pmm_free_ignored offset ptr s (inl e) = rw e
pmm_free_ignored offset ptr s (inr (inl e)) = ground arith
pmm_free_ignored offset ptr s (inr (inr lt)) = ground arith
