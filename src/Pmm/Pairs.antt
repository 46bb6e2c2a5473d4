-- ===== src/Pmm/Pairs.antt =====
-- The loop of `pmm_free_block` leaves no pair: two free buddies of one order, below the greatest.
use mathlib.Core.Path.{subst}
use risky.Base.{
  ℕ, ◌+◌, ◌*◌, ◌^◌, ◌<◌, ◌≡◌, ◌≢◌, ◌∙◌, refl, sym, ap, none, some, arith, eq_of_ne, Bool-cases, inl,
  inr, ◌==◌,
}
use risky.Page.Flags.{flags_of_free}
use risky.Pfndb.Lookup.{get_page_in}
use risky.Pmm.{Pmm, pmm_buddy_pfn, free_block_buddy}
use risky.Pmm.Buddy.{other, buddy_pfn_other, buddy_cases, two-pow-pos}
use risky.Pmm.Invariant.{free, held, View, Shows-kind}
use risky.Pmm.Steps.{settle_view, rekind_view}
use risky.Pmm.Merge.{block, merge_view, merge_halves, IsHolding}

-- No free block of the order begins at the buddy of the block at `p`, or the order is the greatest.
abbrev pub Lone : View → (p o : ℕ) → Type 0
Lone v p o =
    o + 1 < 10 → v.order (pmm_buddy_pfn p o) ≡ some o → v.kind (pmm_buddy_pfn p o) ≡ free → ⊥

-- No two free blocks are buddies that could be joined.
abbrev pub Coalesced : View → Type 0
Coalesced v = (q o : ℕ) → v.order q ≡ some o → v.kind q ≡ free → Lone v q o

-- The free blocks of `w` are free blocks of `v`.
abbrev pub FreeFrom : (w v : View) → Type 0
FreeFrom w v =
    (q o : ℕ) → w.order q ≡ some o → w.kind q ≡ free → (v.order q ≡ some o) × (v.kind q ≡ free)

pub FreeFrom-Coalesced : (w v : View) → FreeFrom w v → Coalesced v → Coalesced w
FreeFrom-Coalesced w v from apart q o e k room f l =
    let here = from q o e k in
    let there = from (pmm_buddy_pfn q o) o f l in apart q o here.0 here.1 room there.0 there.1

pub rekind-Coalesced : (v : View) (p : ℕ) → Coalesced v → Coalesced (rekind_view v p held)
rekind-Coalesced v p = FreeFrom-Coalesced (rekind_view v p held) v (λ q o e k. (e, ground (arith)))

module _ {max_pfn : ℕ} {v : View} {p o : ℕ} {s : Pmm} (h : IsHolding max_pfn v p o s) where
  -- The loop goes on with a free buddy of the same order.
  buddy_found :
      (b : ℕ)
      → b ≡ pmm_buddy_pfn p o
      → v.order b ≡ some o
      → v.kind b ≡ free
      → free_block_buddy s (block p o) ≡ some b
  unfolding free_block_buddy
  buddy_found b at f k =
      let shown = Shows-kind h.sound b o free f k in
      let fits = h.sound.tiling.fits b o f in
      let flags = flags_of_free (s.db.page b) shown.0 in
      let page =
        get_page_in s.db b h.sound.present (omega (arith, h.sound.same_max, two-pow-pos o)) in
      rw (← at, page) (ground (arith, flags.0, shown.1, h.sound.same_max, two-pow-pos o))

  -- The block with which it ends has no free buddy of its order.
  pub ended-Lone : ((o + 1 < 10) → free_block_buddy s (block p o) ≡ none) → Lone v p o
  ended-Lone ended room f k =
      let stop = ended room in let go_on = buddy_found (pmm_buddy_pfn p o) refl f k in cc

  pub merge-FreeFrom :
      (b : ℕ)
      → (e : free_block_buddy s (block p o) ≡ some b) → (room : o + 1 < 10)
      → FreeFrom (merge_view v p b o) v
  merge-FreeFrom b e room q r f k = ground (arith, merge_halves h b e room)

  buddy_ne : pmm_buddy_pfn p o ≢ p
  buddy_ne =
      let (j, a) = h.sound.tiling.aligned p o h.order in
      let there : pmm_buddy_pfn p o ≡ other j * 2 ^ o =
        ap (λ (x : ℕ). pmm_buddy_pfn x o) a ∙ buddy_pfn_other j o in
      omega (arith, buddy_cases j o, two-pow-pos o)

  -- The buddy of the buddy is the block.
  buddy_back : (q : ℕ) → v.order q ≡ some o → pmm_buddy_pfn q o ≡ p → q ≡ pmm_buddy_pfn p o
  buddy_back q e at =
      let (i, a) = h.sound.tiling.aligned q o e in
      let there : p ≡ other i * 2 ^ o =
        sym at ∙ ap (λ (x : ℕ). pmm_buddy_pfn x o) a ∙ buddy_pfn_other i o in
      let twice : other (other i) ≡ i = ground arith in
      a
      ∙ sym (ap (λ (x : ℕ). x * 2 ^ o) twice)
      ∙ sym (buddy_pfn_other (other i) o)
      ∙ ap (λ (x : ℕ). pmm_buddy_pfn x o) (sym there)

  pub settle-Lone : Lone v p o → Lone (settle_view v p o) p o
  settle-Lone alone room f k =
      alone room f (ground (arith, eq_of_ne (pmm_buddy_pfn p o) p buddy_ne))

  at_block : (q r : ℕ) → q ≡ p → r ≡ o → Lone v p o → Lone (settle_view v p o) q r
  at_block q r same order alone =
      let after = settle_view v p o in
      subst (λ (x : ℕ). Lone after x r) (sym same)
        (subst (λ (x : ℕ). Lone after p x) (sym order) (settle-Lone alone))

  -- The block goes to the free ones, and no pair comes of it.
  pub settle-Coalesced : Lone v p o → Coalesced v → Coalesced (settle_view v p o)
  settle-Coalesced alone apart q r e k room f l = elim (Bool-cases (q == p)) [
    | inl is ↦
        let same : q ≡ p = ground arith in
        let order : r ≡ o = cc (h.order) in at_block q r same order alone room f l
    | inr isnt ↦ elim (Bool-cases (pmm_buddy_pfn q r == p)) [
      | inl at ↦
          let meets : pmm_buddy_pfn q r ≡ p = ground arith in
          let order : r ≡ o = cc (h.order) in
          let back = buddy_back q (rw (← order) e) (rw (← order) meets) in
          alone (omega arith) (rw (← back, ← order) e) (rw (← back) (ground arith))
      | inr away ↦ apart q r e (ground arith) room f (ground arith)
    ]
  ]
