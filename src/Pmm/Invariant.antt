-- ===== src/Pmm/Invariant.antt =====
-- What a state of the allocator stands for, and when it is sound.
use native.Mathlib.Nat.{mul-le-mul_right}
use risky.Base.{
  ap, pow-two-suc, ℕ, zero, suc, ◌+◌, ◌*◌, ◌^◌, ◌≤◌, ◌<◌, ◌≡◌, Bool, true, false, some, List, [],
  ◌∷◌, length, has, ◌==◌, arith, update, Distinct, Bool-cases, inl, inr,
}
use risky.Page.{Page, flag_free, flag_reserved, flag_used}
use risky.Pmm.{Pmm}
use risky.Pmm.Links.{IsList, erase, has-erase, Distinct-erase, length-erase}
use risky.Pmm.Buddy.{two-pow-pos}
use risky.Pmm.Tiling.{Orders, IsTiling}

-- `held` is the block that an operation works on: its page need not show its state.
pub data Kind : Type 0 where
  free used reserved held : Kind

-- The blocks by the frame at which they begin, and the free lists.
pub record View : Type 0 where
  pub order : Orders
  pub kind : ℕ → Kind
  pub lists : ℕ → List ℕ

abbrev pub Shows : Kind → ℕ → Page → Type 0
Shows free o page = (page.flags ≡ flag_free) × (page.order ≡ o)
Shows used o page = (page.flags ≡ flag_used) × (page.order ≡ o)
Shows reserved o page = (page.flags ≡ flag_reserved) × (page.order ≡ o)
Shows held o page = Unit {0}

-- The blocks tile the frames, the first page of each block shows its kind and order, and the
-- list of each order holds exactly the free blocks of that order.
pub record IsSound (max_pfn : ℕ) (v : View) (s : Pmm) : Type 0 where
  pub present : s.db.present ≡ true
  pub same_max : s.db.max_pfn ≡ max_pfn
  pub small : max_pfn < 2 ^ 52
  pub tiling : IsTiling max_pfn v.order
  pub shows : (p o : ℕ) → v.order p ≡ some o → Shows (v.kind p) o (s.db.page p)
  pub lists : (o : ℕ) → IsList s o (v.lists o)
  pub members : (o p : ℕ) → has p (v.lists o) ≡ true → (v.order p ≡ some o) × (v.kind p ≡ free)
  pub listed : (o p : ℕ) → v.order p ≡ some o → v.kind p ≡ free → has p (v.lists o) ≡ true

-- No operation is under way.
abbrev pub Settled : View → Type 0
Settled v = (q o : ℕ) → v.order q ≡ some o → v.kind q ≡ held → ⊥

-- At most the block at `p` is held.
abbrev pub OnlyHeld : View → ℕ → Type 0
OnlyHeld v p = (q o : ℕ) → v.order q ≡ some o → v.kind q ≡ held → q ≡ p

abbrev pub is_busy : Kind → Bool
is_busy free = false
is_busy used = true
is_busy reserved = true
is_busy held = false

-- The used and reserved blocks of `v` are such blocks of `v'`.
abbrev pub Keeps : View → View → Type 0
Keeps v v' =
    (q o : ℕ)
    → v.order q ≡ some o
    → is_busy (v.kind q) ≡ true
    → (v'.order q ≡ some o) × (v'.kind q ≡ v.kind q)

pub Keeps-trans : (u v w : View) → Keeps u v → Keeps v w → Keeps u w
Keeps-trans u v w h k q o e b =
    let a = h q o e b in
    let c = k q o (a.0) (ground (arith, a.1)) in (c.0, ground (arith, c.1, a.1))

-- The frames in the lists of the orders below `n`.
unfoldable pub weigh : ℕ → (ℕ → List ℕ) → ℕ
weigh zero ls = 0
weigh (suc n) ls = weigh n ls + length (ls n) * 2 ^ n

weigh-update_ge :
    (n o : ℕ) (ls : ℕ → List ℕ) (xs : List ℕ) → n ≤ o → weigh n (update ls o xs) ≡ weigh n ls
unfolding weigh
weigh-update_ge zero o ls xs h = omega arith
weigh-update_ge (suc n) o ls xs h = ground (arith, weigh-update_ge n o ls xs)

pub weigh-update :
    (n o : ℕ) (ls : ℕ → List ℕ) (xs : List ℕ)
    → o < n
    → weigh n (update ls o xs) + length (ls o) * 2 ^ o ≡ weigh n ls + length xs * 2 ^ o
unfolding weigh
weigh-update zero o ls xs h = absurd (omega arith)
weigh-update (suc n) o ls xs h = elim (Bool-cases (n == o)) [
  | inl e ↦
      let same : n ≡ o = ground arith in
      rw (e, same) (omega (arith, weigh-update_ge o o ls xs (omega arith)))
  | inr e ↦ rw e (omega (arith, weigh-update n o ls xs (ground arith)))
]

-- Distinct numbers below `n` are at most `n`.
pub Distinct-length :
    (n : ℕ) (xs : List ℕ) → Distinct xs → ((q : ℕ) → has q xs ≡ true → q < n) → length xs ≤ n
Distinct-length zero [] d h = omega arith
Distinct-length zero (x ∷ xs) d h = absurd (omega (arith, h x (ground arith)))
Distinct-length (suc n) xs d h = elim (Bool-cases (has n xs)) [
  | inl i ↦ omega (
    arith,
    length-erase n xs i,
    Distinct-length n (erase n xs) (Distinct-erase n xs d)
        (λ q j. ground (arith, h q, has-erase q n xs d)),
  )
  | inr o ↦ omega (arith, Distinct-length n xs d (λ q j. ground (arith, h q)))
]

module _ {max_pfn : ℕ} {v : View} {s : Pmm} (sound : IsSound max_pfn v s) where
  pub lists_length : (o : ℕ) → length (v.lists o) ≤ max_pfn + 1
  lists_length o = Distinct-length (max_pfn + 1) (v.lists o) (sound.lists o).distinct (below o)
    where
      below : (o q : ℕ) → has q (v.lists o) ≡ true → q < max_pfn + 1
      below o q h = omega (arith, sound.tiling.fits q o ((sound.members o q h).0), two-pow-pos o)

  pub lists_short : (o : ℕ) → length (v.lists o) + 1 < 2 ^ 64
  lists_short o = omega (arith, lists_length o, sound.small)

  pub Shows-kind :
      (p o : ℕ) (k : Kind) → v.order p ≡ some o → v.kind p ≡ k → Shows k o (s.db.page p)
  Shows-kind p o k e f = rw f at (sound.shows p o e)

-- No list is longer than there are frames, so the weight of all of them is far from wrapping.
weigh_le :
    (bound n : ℕ) (ls : ℕ → List ℕ)
    → ((o : ℕ) → length (ls o) ≤ bound)
    → weigh n ls + bound ≤ bound * 2 ^ n
unfolding weigh
weigh_le bound zero ls h = omega arith
weigh_le bound (suc n) ls h = omega (
  arith,
  weigh_le bound n ls h,
  mul-le-mul_right (2 ^ n) (h n),
  ap (λ (x : ℕ). bound * x) (pow-two-suc n),
)

pub weigh-lt : {max_pfn : ℕ} {v : View} {s : Pmm} → IsSound max_pfn v s → weigh 10 v.lists < 2 ^ 63
weigh-lt {max_pfn} {v} sound =
    omega (arith, weigh_le (max_pfn + 1) 10 v.lists (lists_length sound), sound.small)
