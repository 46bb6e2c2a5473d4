-- ===== src/Pmm/Merge.antt =====
-- One round of the loop in `pmm_free_block`: the buddy that it finds is a free block of the same
-- order, and the round joins the two.
use mathlib.Core.Path.{subst}
use native.Mathlib.Numerals.{add-one}
use risky.Base.{
  ◌⊎◌, ℕ, suc, ◌+◌, ◌*◌, ◌/◌, ◌^◌, ◌≤◌, ◌<◌, ◌≡◌, ◌≢◌, refl, sym, ap, true, some, has, arith,
  update, inl, inr, if◌then◌else◌, eq_self, ◌∙◌, ltb, pow-two-suc,
}
use risky.Page.{page_free}
use risky.Page.Flags.{flags_of_used, flags_of_reserved}
use risky.Pfndb.{pfndb_get_page}
use risky.Pmm.{
  Pmm, Block, pmm_buddy_pfn, free_block_buddy, free_block_merge, pmm_list_remove, at_page,
}
use risky.Pmm.Links.{erase, length-erase}
use risky.Pmm.Buddy.{other, buddy_pfn_other, buddy_cases, two-pow-pos}
use risky.Pmm.Tiling.{buddy_begins}
use risky.Pmm.Invariant.{
  Kind, free, used, reserved, held, View, IsSound, OnlyHeld, Keeps, weigh, weigh-update, Shows-kind,
}
use risky.Pmm.Steps.{grab_view, grab-IsSound}
use risky.Pmm.Halves.{join_view, join-IsSound, poke-IsSound}

abbrev pub block : ℕ → ℕ → Block
block p o = record { pfn = p; page = p; order = o }

-- The loop works on the block at `p` of order `o`.
pub record IsHolding (max_pfn : ℕ) (v : View) (p o : ℕ) (s : Pmm) : Type 0 where
  pub sound : IsSound max_pfn v s
  pub order : v.order p ≡ some o
  pub kind : v.kind p ≡ held
  pub only : OnlyHeld v p

module _ {max_pfn : ℕ} {v : View} {p o : ℕ} {s : Pmm} (h : IsHolding max_pfn v p o s) where
  -- The page at the buddy is free and of this order only if a free block of this order begins
  -- there.
  free_at :
      (b k : ℕ) (kind : Kind)
      → v.kind b ≡ kind
      → v.order b ≡ some k
      → b ≢ p
      → page_free (s.db.page b) ≡ true
      → (s.db.page b).order ≡ o
      → (v.order b ≡ some o) × (v.kind b ≡ free)
  free_at b k free e f ne is_free same = ground (arith, Shows-kind h.sound b k free f e)
  free_at b k used e f ne is_free same =
      let shown = Shows-kind h.sound b k used f e in cc (flags_of_used (s.db.page b) shown.0).0
  free_at b k reserved e f ne is_free same =
      let shown = Shows-kind h.sound b k reserved f e in
      cc (flags_of_reserved (s.db.page b) shown.0).0
  free_at b k held e f ne is_free same = absurd (ne (h.only b k f e))

  -- A buddy with which the loop goes on.
  pub buddy-eq_some :
      (b : ℕ)
      → free_block_buddy s (block p o) ≡ some b
      → (b ≡ pmm_buddy_pfn p o)
        × (b ≤ max_pfn)
        × (page_free (s.db.page b) ≡ true)
        × ((s.db.page b).order ≡ o)
  unfolding free_block_buddy pfndb_get_page
  buddy-eq_some b e = ground (arith, h.sound.same_max)

  -- It is where the block at the buddy begins, and that block is free and of this order.
  pub buddy_is_free :
      (b : ℕ)
      → free_block_buddy s (block p o) ≡ some b
      → (j : ℕ) × (p ≡ j * 2 ^ o) × (b ≡ other j * 2 ^ o) × (v.order b ≡ some o) × (v.kind b ≡ free)
  buddy_is_free b e =
      let (at, inside, is_free, same) = buddy-eq_some b e in
      let (j, a) = h.sound.tiling.aligned p o h.order in
      let there : b ≡ other j * 2 ^ o =
        at ∙ ap (λ (x : ℕ). pmm_buddy_pfn x o) a ∙ buddy_pfn_other j o in
      let (k, f) = buddy_begins h.sound.tiling p o j h.order a (omega arith) in
      let ne : b ≢ p = omega (arith, buddy_cases j o, two-pow-pos o) in
      let found = free_at b k (v.kind b) refl (rw there f) ne is_free same in
      (j, a, there, found.0, found.1)

-- A block that leaves its list takes its frames from the weight of the lists.
pub grab-weigh :
    {max_pfn : ℕ} {v : View} {s : Pmm}
    → IsSound max_pfn v s
    → (b o : ℕ) → v.order b ≡ some o
    → v.kind b ≡ free
    → weigh 10 (grab_view v b o).lists + 2 ^ o ≡ weigh 10 v.lists
grab-weigh {v} sound b o f k =
    let inside : has b (v.lists o) ≡ true = sound.listed o b f k in
    omega (
      arith,
      weigh-update 10 o v.lists (erase b (v.lists o)) (sound.tiling.order_lt b o f),
      ap (λ (x : ℕ). x * 2 ^ o) (length-erase b (v.lists o) inside),
    )

-- The view after a round that joins the block at `p` with the one at `b`.
abbrev pub lower : ℕ → ℕ → ℕ
lower p b = if ltb b p then b else p

abbrev pub merge_view : View → (p b o : ℕ) → View
merge_view v p b o = join_view (grab_view v b o) (lower p b) o

pub merge_block :
    (p b o : ℕ) (s : Pmm)
    → b ≡ pmm_buddy_pfn p o
    → (free_block_merge b (block p o) s).0 ≡ block (lower p b) (suc o)
unfolding free_block_merge
merge_block p b o s e = ground arith

merge_state :
    (p b o : ℕ) (s : Pmm)
    → b ≡ pmm_buddy_pfn p o
    → (free_block_merge b (block p o) s).1 ≡ record (pmm_list_remove o b s) {
      db = at_page (lower p b) (λ q. record q { order = suc o }) (pmm_list_remove o b s).db;
    }
unfolding free_block_merge
merge_state p b o s e = rw (← e, add-one) refl

module _ {max_pfn : ℕ} {v : View} {p o : ℕ} {s : Pmm} (h : IsHolding max_pfn v p o s) (b : ℕ)
    (e : free_block_buddy s (block p o) ≡ some b) (room : o + 1 < 10) where
  -- The two blocks are the halves of an aligned block.
  pub merge_halves :
      (((lower p b ≡ p) × (lower p b + 2 ^ o ≡ b)) ⊎ ((lower p b ≡ b) × (lower p b + 2 ^ o ≡ p)))
      × ((j : ℕ) × (lower p b ≡ j * 2 ^ suc o))
  merge_halves =
      let (j, a, there, f, k) = buddy_is_free h b e in
      elim (buddy_cases j o) [
        | inl (up, even) ↦
            let low : lower p b ≡ p = ground (arith, two-pow-pos o) in
            (inl (low, omega arith), (j / 2, omega arith))
        | inr (down, even) ↦
            let low : lower p b ≡ b = ground (arith, two-pow-pos o) in
            (inr (low, omega arith), (j / 2, omega arith))
      ]

  both_halves : (Q : ℕ → Type 0) → Q p → Q b → Q (lower p b) × Q (lower p b + 2 ^ o)
  both_halves Q x y = elim (merge_halves.0) [
    | inl (l, u) ↦ (subst Q (sym l) x, subst Q (sym u) y)
    | inr (l, u) ↦ (subst Q (sym l) y, subst Q (sym u) x)
  ]

  merge-IsSound : IsSound max_pfn (merge_view v p b o) (free_block_merge b (block p o) s).1
  merge-IsSound =
      let (j, a, there, f, k) = buddy_is_free h b e in
      let orders = both_halves (λ q. v.order q ≡ some o) h.order f in
      let kinds =
        both_halves (λ q. update v.kind b held q ≡ held) (ground (arith, h.kind))
          (ground (arith, eq_self b)) in
      rw (merge_state p b o s (buddy-eq_some h b e).0) (
        poke-IsSound
          (join-IsSound (grab-IsSound h.sound b o f k) (lower p b) o orders.0 orders.1 kinds.0
            kinds.1 room (merge_halves.1))
          (lower p b) (suc o) kinds.0)

  -- After the round the loop holds the joined block, and nothing else.
  pub merge-IsHolding :
      IsHolding max_pfn
        (merge_view v p b o)
        (lower p b)
        (suc o)
        (free_block_merge b (block p o) s).1
  merge-IsHolding = record {
    sound = merge-IsSound;
    order = ground (arith, eq_self (lower p b));
    kind =
        (both_halves (λ q. update v.kind b held q ≡ held) (ground (arith, h.kind))
          (ground (arith, eq_self b))).0;
    only = λ q r f k. ground (arith, merge_halves.0, h.only q r);
  }

  -- Used and reserved blocks stay, the joined block contains the one before, and the lists lose
  -- the frames of the buddy.
  pub merge-Keeps : Keeps v (merge_view v p b o)
  merge-Keeps q r f k =
      let (j, a, there, g, l) = buddy_is_free h b e in ground (arith, merge_halves.0, h.kind)

  pub merge_stems : Keeps (merge_view v p b o) v
  merge_stems q r f k = ground (
    arith,
    merge_halves.0,
    both_halves (λ q. update v.kind b held q ≡ held) (ground (arith, h.kind))
        (ground (arith, eq_self b)),
  )

  pub merge_contains : (lower p b ≤ p) × (p + 2 ^ o ≤ lower p b + 2 ^ suc o)
  merge_contains = ground (arith, merge_halves.0, pow-two-suc o)

  pub merge-weigh : weigh 10 (merge_view v p b o).lists + 2 ^ o ≡ weigh 10 v.lists
  merge-weigh = let (j, a, there, f, k) = buddy_is_free h b e in grab-weigh h.sound b o f k
