-- ===== src/Pmm/Sample.antt =====
-- A small state of the allocator: a used frame, its free buddy, and a free block of two frames.
use risky.Base.{
  ℕ, zero, suc, ◌^◌, ◌≤◌, ◌≡◌, ◌⊎◌, inl, inr, refl, true, false, none, some, List, [], ◌∷◌, ◌==◌,
  arith, if◌then◌else◌, Bool-cases, ap,
}
use risky.Page.{Page, flag_free, flag_used}
use risky.Pfndb.{Pfndb}
use risky.Pmm.{Pmm, FreeList, empty_list}
use risky.Pmm.Links.{IsList}
use risky.Pmm.Tiling.{Orders, IsTiling}
use risky.Pmm.Invariant.{free, used, View, Shows, IsSound, weigh}
use risky.Pmm.Ready.{IsReady}

abbrev pub one_page : (flags order : ℕ) → Page
one_page flags order = record { flags = flags; order = order; next = none; prev = none }

abbrev pub sample_db : Pfndb
sample_db = record {
  present = true;
  phys = 4096;
  max_pfn = 3;
  page = λ q.
      if q == 0
      then one_page flag_used 0
      else if q == 1
      then one_page flag_free 0
      else if q == 2
      then one_page flag_free 1
      else one_page 0 0;
}

abbrev pub sample_list : ℕ → FreeList
sample_list o =
    if o == 0
    then record { head = some 1; count = 1 }
    else if o == 1
    then record { head = some 2; count = 1 }
    else empty_list

abbrev pub sample : Pmm
sample = record {
  db = sample_db;
  lists = sample_list;
  free_pages = 3;
  total_pages = 4;
  ready = true;
}

abbrev pub sample_order : Orders
sample_order q =
    if q == 0 then some 0 else if q == 1 then some 0 else if q == 2 then some 1 else none

abbrev pub sample_lists : ℕ → List ℕ
sample_lists o = if o == 0 then 1 ∷ [] else if o == 1 then 2 ∷ [] else []

abbrev pub sample_view : View
sample_view = record {
  order = sample_order;
  kind = λ q. if q == 0 then used else free;
  lists = sample_lists;
}

order_cases :
    (q o : ℕ) → sample_order q ≡ some o → (((q ≡ 0) ⊎ (q ≡ 1)) × (o ≡ 0)) ⊎ ((q ≡ 2) × (o ≡ 1))
order_cases q o e = ground arith

size_cases : (q o : ℕ) → sample_order q ≡ some o → ((2 ^ o ≡ 1) × (q ≤ 1)) ⊎ ((2 ^ o ≡ 2) × (q ≡ 2))
size_cases q o e = elim (order_cases q o e) [
  | inl (a, z) ↦ inl (ap (λ (x : ℕ). 2 ^ x) z, omega arith)
  | inr (a, z) ↦ inr (ap (λ (x : ℕ). 2 ^ x) z, a)
]

pub sample-IsTiling : IsTiling 3 sample_order
sample-IsTiling = record {
  order_lt = λ q o e. omega (arith, order_cases q o e);
  fits = λ q o e. omega (arith, size_cases q o e);
  aligned = λ q o e. elim (size_cases q o e) [
    | inl (a, b) ↦ (q, rw a (omega arith))
    | inr (a, b) ↦ (1, rw a (omega arith))
  ];
  apart = λ q r o o' e f lt. omega (arith, size_cases q o e, size_cases r o' f);
  covered = λ q le. elim (Bool-cases (q == 0)) [
    | inl a ↦ (0, 0, refl, ground arith, ground arith)
    | inr a ↦ elim (Bool-cases (q == 1)) [
      | inl b ↦ (1, 0, refl, ground arith, ground arith)
      | inr b ↦ (2, 1, refl, ground arith, ground arith)
    ]
  ];
}

pub sample-IsList : (o : ℕ) → IsList sample o (sample_lists o)
sample-IsList zero = record {
  links = (refl, refl, tt);
  distinct = (refl, tt);
  head = refl;
  count = refl;
}
sample-IsList (suc zero) = record {
  links = (refl, refl, tt);
  distinct = (refl, tt);
  head = refl;
  count = refl;
}
sample-IsList (suc (suc o)) =
    rw (past_zero, past_one)
      (record { links = tt; distinct = tt; head = ground arith; count = ground arith })
  where
    past_zero : (suc (suc o) == 0) ≡ false
    past_zero = ground arith

    past_one : (suc (suc o) == 1) ≡ false
    past_one = ground arith

sample-Shows : (q o : ℕ) → sample_order q ≡ some o → Shows (sample_view.kind q) o (sample_db.page q)
sample-Shows zero o e = (refl, ground arith)
sample-Shows (suc zero) o e = (refl, ground arith)
sample-Shows (suc (suc zero)) o e = (refl, ground arith)
sample-Shows (suc (suc (suc q))) o e = absurd (omega (arith, order_cases (suc (suc (suc q))) o e))

pub sample-IsSound : IsSound 3 sample_view sample
sample-IsSound = record {
  present = refl;
  same_max = refl;
  small = omega arith;
  tiling = sample-IsTiling;
  shows = sample-Shows;
  lists = sample-IsList;
  members = λ o p h. ground arith;
  listed = λ o p e k. ground arith;
}

pub sample-IsReady : IsReady 3 sample_view sample
sample-IsReady = record {
  sound = sample-IsSound;
  settled = λ q o e k. ground arith;
  ready = refl;
  counted = unfold weigh in refl;
}
