-- ===== src/Pmm/Free.antt =====
-- `pmm_free_block` and `pmm_free`: the held block and its free buddies become one free block.
use risky.Base.{
  ℕ, zero, suc, ◌+◌, ◌^◌, ◌≤◌, ◌<◌, ◌≡◌, ◌≢◌, refl, none, some, ◌∷◌, arith, Bool-cases,
  Option-cases, inl, inr, ltb, eq_self, pow-two-suc,
}
use risky.Pfndb.Lookup.{get_pfn_in}
use risky.Pmm.{
  Pmm, Block, free_block_buddy, free_block_merge, free_block_loop, pmm_free_block, pmm_prepare_page,
  pmm_list_push, pmm_list_remove, pmm_max_order,
}
use risky.Pmm.Buddy.{two-pow-pos}
use risky.Pmm.Invariant.{free, View, IsSound, Settled, Keeps, Keeps-trans, weigh, weigh-update}
use risky.Pmm.Moves.{release}
use risky.Pmm.Steps.{settle_view, settle-IsSound}
use risky.Pmm.Pairs.{
  Lone, Coalesced, FreeFrom, FreeFrom-Coalesced, merge-FreeFrom, ended-Lone, settle-Lone,
  settle-Coalesced,
}
use risky.Pmm.Merge.{
  block, lower, merge_view, merge_block, IsHolding, buddy-eq_some, merge-IsHolding, merge-Keeps,
  merge_stems, merge_contains, merge-weigh,
}

-- The loop ends with a block that it holds, made of the given one and of free blocks.
pub record IsMerged (max_pfn : ℕ) (v : View) (p o : ℕ) (result : Block × Pmm) : Type 0 where
  pub start : ℕ
  pub size : ℕ
  pub view : View
  pub is_block : result.0 ≡ block start size
  pub holding : IsHolding max_pfn view start size result.1
  pub keeps : Keeps v view
  pub stems : Keeps view v
  pub from : FreeFrom view v
  pub contains : (start ≤ p) × (p + 2 ^ o ≤ start + 2 ^ size)
  pub weight : weigh 10 view.lists + 2 ^ size ≡ weigh 10 v.lists + 2 ^ o
  -- the loop has not run out of rounds: it could not have gone on
  pub ended : (size + 1 < 10) → free_block_buddy result.1 result.0 ≡ none

done-IsMerged :
    {max_pfn : ℕ} {v : View} {p o : ℕ} {s : Pmm}
    → IsHolding max_pfn v p o s
    → ((o + 1 < 10) → free_block_buddy s (block p o) ≡ none)
    → IsMerged max_pfn v p o (block p o, s)
done-IsMerged {v} {p} {o} h e = record {
  start = p;
  size = o;
  view = v;
  is_block = refl;
  holding = h;
  keeps = λ q r f b. (f, refl);
  stems = λ q r f b. (f, refl);
  from = λ q r f k. (f, k);
  contains = omega arith;
  weight = refl;
  ended = e;
}

pub free_block_loop-IsMerged :
    {max_pfn : ℕ} (rounds : ℕ) {v : View} (p o : ℕ) (s : Pmm)
    → IsHolding max_pfn v p o s
    → 10 ≤ o + rounds
    → IsMerged max_pfn v p o (free_block_loop rounds (block p o) s)
unfolding free_block_loop
free_block_loop-IsMerged zero p o s h fuel = done-IsMerged h (λ lt. absurd (omega arith))
free_block_loop-IsMerged {max_pfn} (suc rounds) {v} p o s h fuel =
    elim (Bool-cases (ltb (o + 1) pmm_max_order)) [
      | inr last ↦ rw last (done-IsMerged h (λ lt. absurd (ground arith)))
      | inl room ↦ rw room (elim (Option-cases (free_block_buddy s (block p o))) [
        | inl stop ↦ rw stop (done-IsMerged h (λ lt. stop))
        | inr (b, e) ↦ rw e (
            step b e (ground arith) (
              rw (merge_block p b o s (buddy-eq_some h b e).0) (
                free_block_loop-IsMerged rounds (lower p b) (suc o)
                  (free_block_merge b (block p o) s).1 (merge-IsHolding h b e (ground arith))
                  (omega arith))))
      ])
    ]
  where
    step :
        (b : ℕ)
        → (e : free_block_buddy s (block p o) ≡ some b) → (room : o + 1 < 10) → {r : Block × Pmm}
        → IsMerged max_pfn (merge_view v p b o) (lower p b) (suc o) r
        → IsMerged max_pfn v p o r
    step b e room m = record {
      start = m.start;
      size = m.size;
      view = m.view;
      is_block = m.is_block;
      holding = m.holding;
      keeps = Keeps-trans v (merge_view v p b o) m.view (merge-Keeps h b e room) m.keeps;
      stems = Keeps-trans m.view (merge_view v p b o) v m.stems (merge_stems h b e room);
      from = λ q r f k. let x = m.from q r f k in merge-FreeFrom h b e room q r (x.0) (x.1);
      contains = omega (arith, m.contains, merge_contains h b e room);
      weight = omega (arith, m.weight, merge-weigh h b e room, pow-two-suc o);
      ended = m.ended;
    }

-- The counters and the flag of the allocator.
abbrev pub SameRest : Pmm → Pmm → Type 0
SameRest s s' =
    (s'.free_pages ≡ s.free_pages) × (s'.total_pages ≡ s.total_pages) × (s'.ready ≡ s.ready)

merge_rest :
    (buddy : ℕ) (b : Block) (s s' : Pmm)
    → SameRest (free_block_merge buddy b s).1 s'
    → SameRest s s'
unfolding free_block_merge pmm_list_remove
merge_rest buddy b s s' h = h

loop-SameRest : (rounds : ℕ) (b : Block) (s : Pmm) → SameRest s (free_block_loop rounds b s).1
unfolding free_block_loop
loop-SameRest zero b s = (refl, refl, refl)
loop-SameRest (suc rounds) b s = elim (Bool-cases (ltb (b.order + 1) pmm_max_order)) [
  | inr last ↦ rw last (refl, refl, refl)
  | inl room ↦ rw room (elim (Option-cases (free_block_buddy s b)) [
    | inl stop ↦ rw stop (refl, refl, refl)
    | inr (buddy, e) ↦ rw e (
        merge_rest buddy b s
          (free_block_loop rounds (free_block_merge buddy b s).0 (free_block_merge buddy b s).1).1
          (loop-SameRest rounds (free_block_merge buddy b s).0 (free_block_merge buddy b s).1))
  ])
]

-- A free block that contains the given one takes its place, with no free buddy of its order, and no
-- operation is under way. No pair of free buddies arises.
pub record IsFreed (max_pfn : ℕ) (v : View) (p o : ℕ) (s s' : Pmm) : Type 0 where
  pub view : View
  pub sound : IsSound max_pfn view s'
  pub settled : Settled view
  pub start : ℕ
  pub size : ℕ
  pub begins : view.order start ≡ some size
  pub is_free : view.kind start ≡ free
  pub contains : (start ≤ p) × (p + 2 ^ o ≤ start + 2 ^ size)
  pub keeps : Keeps v view
  pub stems : Keeps view v
  pub lone : Lone view start size
  pub coalesced : Coalesced v → Coalesced view
  pub weight : weigh 10 view.lists ≡ weigh 10 v.lists + 2 ^ o
  pub rest : SameRest s s'

module _ {max_pfn : ℕ} {v : View} {p o : ℕ} {s : Pmm} (h : IsHolding max_pfn v p o s)
    (shown : (s.db.page p).order ≡ o) where
  merged : IsMerged max_pfn v p o (free_block_loop pmm_max_order (block p o) s)
  merged = free_block_loop-IsMerged pmm_max_order p o s h (omega arith)

  free_block_lem :
      pmm_free_block p s
      ≡ release merged.size merged.start (free_block_loop pmm_max_order (block p o) s).1
  unfolding pmm_free_block
  free_block_lem = rw (
    get_pfn_in s.db p (h.sound.present)
        (omega (arith, h.sound.same_max, h.sound.tiling.fits p o h.order, two-pow-pos o)),
    shown,
    merged.is_block,
  )

  pub pmm_free_block-IsFreed : IsFreed max_pfn v p o s (pmm_free_block p s)
  pmm_free_block-IsFreed =
      let m = merged in
      let inside = m.holding in
      let not_free : m.view.kind m.start ≢ free = λ e. cc in
      let alone : Lone m.view m.start m.size =
        ended-Lone inside (λ lt. rw m.is_block at m.ended lt) in
      record {
        view = settle_view m.view m.start m.size;
        sound =
            rw free_block_lem (settle-IsSound inside.sound m.start m.size inside.order not_free);
        settled = λ q r e k. ground (arith, inside.only q r, eq_self q);
        start = m.start;
        size = m.size;
        begins = inside.order;
        is_free = ground (arith, eq_self m.start);
        contains = m.contains;
        keeps = λ q r e k. ground (arith, m.keeps q r e k, inside.kind);
        stems = λ q r e k. ground (arith, m.stems q r, inside.kind);
        lone = settle-Lone inside alone;
        coalesced =
            λ apart. settle-Coalesced inside alone (FreeFrom-Coalesced m.view v m.from apart);
        weight = omega (
          arith,
          m.weight,
          weigh-update 10 m.size m.view.lists (m.start ∷ m.view.lists m.size)
              (inside.sound.tiling.order_lt m.start m.size inside.order),
        );
        rest =
            rw free_block_lem
              (unfold pmm_list_push pmm_prepare_page in loop-SameRest pmm_max_order (block p o) s);
      }
