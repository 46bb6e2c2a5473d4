-- ===== src/Pmm/Split.antt =====
-- The inner loop of the allocation: the held block is halved down to the wanted order, and the
-- upper halves become free blocks.
use risky.Base.{
  ℕ, zero, suc, ◌+◌, ◌^◌, ◌≤◌, ◌<◌, ◌≡◌, refl, ap, Option, some, ◌∷◌, arith, u64, eq_self,
  pow-two-suc,
}
use risky.Pfndb.{pfndb_get_page, pfndb_get_pfn}
use risky.Pfndb.Lookup.{get_page_in, get_pfn_in}
use risky.Pmm.{Pmm, alloc_split, pmm_list_push, pmm_prepare_page}
use risky.Pmm.Buddy.{two-pow-pos}
use risky.Pmm.Tiling.{upper_none}
use risky.Pmm.Invariant.{View, Keeps, Keeps-trans, weigh, weigh-update}
use risky.Pmm.Moves.{release}
use risky.Pmm.Steps.{settle_view, settle-IsSound}
use risky.Pmm.Halves.{halves_view, halves-IsSound}
use risky.Pmm.Merge.{IsHolding}
use risky.Pmm.Free.{SameRest}

abbrev pub split_view : View → (p c : ℕ) → View
split_view v p c = settle_view (halves_view v p c) (p + 2 ^ c) c

module _ {max_pfn : ℕ} {v : View} {p c : ℕ} {s : Pmm} (h : IsHolding max_pfn v p (suc c) s) where
  split-IsHolding : IsHolding max_pfn (split_view v p c) p c (release c (p + 2 ^ c) s)
  split-IsHolding = record {
    sound =
        settle-IsSound (halves-IsSound h.sound p c h.order h.kind) (p + 2 ^ c) c
          (ground (arith, eq_self (p + 2 ^ c))) (λ e. ground (arith, eq_self (p + 2 ^ c)));
    order = ground (arith, eq_self p);
    kind = ground (arith, h.kind, two-pow-pos c);
    only = λ q r e k. ground (arith, h.only q r);
  }

  split-Keeps : Keeps v (split_view v p c)
  split-Keeps q r e k = ground (arith, h.kind, upper_none h.sound.tiling p c h.order)

  split-weigh : weigh 10 (split_view v p c).lists ≡ weigh 10 v.lists + 2 ^ c
  split-weigh = omega (
    arith,
    weigh-update 10 c v.lists ((p + 2 ^ c) ∷ v.lists c)
        (omega (arith, h.sound.tiling.order_lt p (suc c) h.order)),
  )

  -- The pointer to the upper half is not null.
  upper_page : pfndb_get_page s.db (u64 (pfndb_get_pfn s.db (some p) + 2 ^ c)) ≡ some (p + 2 ^ c)
  upper_page =
      let fits : p + 2 ^ c + 2 ^ c ≤ max_pfn + 1 =
        omega (arith, h.sound.tiling.fits p (suc c) h.order, pow-two-suc c) in
      let same : s.db.max_pfn ≡ max_pfn = h.sound.same_max in
      let small : max_pfn < 2 ^ 52 = h.sound.small in
      let number : u64 (pfndb_get_pfn s.db (some p) + 2 ^ c) ≡ p + 2 ^ c =
        omega (
          arith,
          get_pfn_in s.db p h.sound.present (omega (arith, two-pow-pos c)),
          two-pow-pos c,
        ) in
      rw number (get_page_in s.db (p + 2 ^ c) h.sound.present (omega (arith, two-pow-pos c)))

-- The loop does not fault, and ends with the lower part of the block at the wanted order.
pub record IsSplit (max_pfn : ℕ) (v : View) (p above order : ℕ) (s : Pmm) (result : Option Pmm)
    : Type 0 where
  pub state : Pmm
  pub view : View
  pub returns : result ≡ some state
  pub holding : IsHolding max_pfn view p order state
  pub keeps : Keeps v view
  pub weight : weigh 10 view.lists + 2 ^ order ≡ weigh 10 v.lists + 2 ^ (order + above)
  pub rest : SameRest s state

push_rest : (c b : ℕ) (s s' : Pmm) → SameRest (release c b s) s' → SameRest s s'
unfolding pmm_list_push pmm_prepare_page
push_rest c b s s' h = h

pub alloc_split-IsSplit :
    {max_pfn : ℕ} (above order p : ℕ) {v : View} (s : Pmm)
    → IsHolding max_pfn v p (order + above) s
    → IsSplit max_pfn v p above order s (alloc_split above order p s)
unfolding alloc_split
alloc_split-IsSplit zero order p {v} s h =
    let same : order + 0 ≡ order = omega arith in
    record {
      state = s;
      view = v;
      returns = refl;
      holding = rw same at h;
      keeps = λ q r e k. (e, refl);
      weight = omega (arith, ap (λ (x : ℕ). 2 ^ x) same);
      rest = (refl, refl, refl);
    }
alloc_split-IsSplit {max_pfn} (suc above) order p {v} s h =
    rw (upper_page above_h, alloc_split)
      (step (
        alloc_split-IsSplit above order p (release (order + above) (p + 2 ^ (order + above)) s)
          (split-IsHolding above_h)))
  where
    next : order + suc above ≡ suc (order + above)
    next = omega arith

    above_h : IsHolding max_pfn v p (suc (order + above)) s
    above_h = rw next at h

    step :
        {r : Option Pmm}
        → IsSplit max_pfn
            (split_view v p (order + above))
            p
            above
            order
            (release (order + above) (p + 2 ^ (order + above)) s)
            r
        → IsSplit max_pfn v p (suc above) order s r
    step m = record {
      state = m.state;
      view = m.view;
      returns = m.returns;
      holding = m.holding;
      keeps = Keeps-trans v (split_view v p (order + above)) m.view (split-Keeps above_h) m.keeps;
      weight = omega (
        arith,
        m.weight,
        split-weigh above_h,
        pow-two-suc (order + above),
        ap (λ (x : ℕ). 2 ^ x) next,
      );
      rest = push_rest (order + above) (p + 2 ^ (order + above)) s m.state m.rest;
    }
