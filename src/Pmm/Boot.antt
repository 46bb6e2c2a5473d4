-- ===== src/Pmm/Boot.antt =====
-- After the first loop of `pmm_init`: every frame is a block of its own, and the lists are empty.
use risky.Base.{
  ℕ, ◌+◌, ◌^◌, ◌≤◌, ◌≡◌, ap, true, none, some, [], ◌==◌, arith, inl, inr, if◌then◌else◌, ◌∙◌, leb,
  Bool-cases,
}
use risky.Page.{flag_free}
use risky.Pfndb.{Pfndb}
use risky.Pmm.{Pmm, empty_list, FreeList}
use risky.Pmm.Tiling.{IsTiling}
use risky.Pmm.Invariant.{Kind, used, reserved, View, Shows, IsSound, is_busy}
use risky.Pmm.Retire.{IsFilled, IsRetired}

-- Every frame a block of its own, used if its page was free.
abbrev pub frame_kind : Pfndb → ℕ → Kind
frame_kind db q = if (db.page q).flags == flag_free then used else reserved

abbrev pub frames_view : ℕ → Pfndb → View
frames_view max_pfn db = record {
  order = λ q. if leb q max_pfn then some 0 else none;
  kind = frame_kind db;
  lists = λ _. [];
}

pub frame_busy : (db : Pfndb) (q : ℕ) → is_busy (frame_kind db q) ≡ true
frame_busy db q = ground arith

frame_order :
    (max_pfn : ℕ) (db : Pfndb) (q o : ℕ)
    → (frames_view max_pfn db).order q ≡ some o
    → (q ≤ max_pfn) × (o ≡ 0) × (2 ^ o ≡ 1)
frame_order max_pfn db q o e =
    let zero_order : o ≡ 0 = ground arith in
    (ground arith, zero_order, ap (λ (x : ℕ). 2 ^ x) zero_order)

frames-IsTiling : (max_pfn : ℕ) (db : Pfndb) → IsTiling max_pfn (frames_view max_pfn db).order
frames-IsTiling max_pfn db = record {
  order_lt = λ q o e. ground arith;
  fits = λ q o e. omega (arith, frame_order max_pfn db q o e);
  aligned = λ q o e. (q, rw ((frame_order max_pfn db q o e).2) (omega arith));
  apart = λ q r o o' e f lt. omega (arith, frame_order max_pfn db q o e);
  covered = λ q le. (q, 0, ground arith, omega arith, omega arith);
}

module _ {max_pfn : ℕ} {s s' : Pmm} (filled : IsFilled max_pfn s.db)
    (retired : IsRetired (max_pfn + 1) 0 s s') (empty : s.lists ≡ (λ _. empty_list)) where
  pub retired-IsSound : IsSound max_pfn (frames_view max_pfn s.db) s'
  retired-IsSound = record {
    present = retired.present ∙ filled.present;
    same_max = retired.same_max ∙ filled.same_max;
    small = filled.small;
    tiling = frames-IsTiling max_pfn s.db;
    shows = shows;
    lists = λ o. record {
      links = tt;
      distinct = tt;
      head = ap (λ (l : ℕ → FreeList). (l o).head) (retired.lists ∙ empty);
      count = ap (λ (l : ℕ → FreeList). (l o).count) (retired.lists ∙ empty);
    };
    members = λ o p h. absurd (cc);
    listed = λ o p e k. ground arith;
  }
    where
      shows :
          (q o : ℕ)
          → (if leb q max_pfn then some 0 else none) ≡ some o
          → Shows (frame_kind s.db q) o (s'.db.page q)
      shows q o e = elim (Bool-cases ((s.db.page q).flags == flag_free)) [
        | inl f ↦ rw f (ground (arith, retired.inside q))
        | inr f ↦ rw f (ground (arith, retired.inside q, filled.marked q))
      ]
