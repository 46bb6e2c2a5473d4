-- ===== src/Pmm/Links.antt =====
-- The doubly linked lists of pmm.c: what `pmm_list_push` and `pmm_list_remove` do to the list that
-- the links spell.
use risky.Base.{
  ℕ, suc, ◌≡◌, Bool, true, false, none, some, List, [], ◌∷◌, length, head?, is_some, has, Distinct,
  arith, Bool-cases, inl, inr, ◌==◌, eq_self, if◌then◌else◌,
}
use risky.Page.{Ptr, Page}
use risky.Pmm.{Pmm, pmm_list_push, pmm_list_remove}

-- From `prev` on, the links of the pages `xs` lead forth and back through them.
abbrev pub Links : (ℕ → Page) → Ptr → List ℕ → Type 0
Links pg prev [] = Unit {0}
Links pg prev (x ∷ xs) = ((pg x).prev ≡ prev) × ((pg x).next ≡ head? xs) × Links pg (some x) xs

-- The list of order `order` holds the pages `xs`, each once, in this order.
pub record IsList (s : Pmm) (order : ℕ) (xs : List ℕ) : Type 0 where
  pub links : Links s.db.page none xs
  pub distinct : Distinct xs
  pub head : (s.lists order).head ≡ head? xs
  pub count : (s.lists order).count ≡ length xs

abbrev pub SameLinks : (ℕ → Page) → (ℕ → Page) → ℕ → Type 0
SameLinks pg pg' q = ((pg' q).next ≡ (pg q).next) × ((pg' q).prev ≡ (pg q).prev)

-- Links depend only on the pages of their list.
pub Links-frame :
    (pg pg' : ℕ → Page) (prev : Ptr) (xs : List ℕ)
    → ((q : ℕ) → has q xs ≡ true → SameLinks pg pg' q)
    → Links pg prev xs
    → Links pg' prev xs
Links-frame pg pg' prev [] same l = tt
Links-frame pg pg' prev (x ∷ xs) same l = (
  ground (arith, same x, eq_self x),
  ground (arith, same x, eq_self x),
  Links-frame pg pg' (some x) xs (λ q h. same q (ground arith)) l.2,
)

abbrev pub points : Ptr → ℕ → Bool
points none q = false
points (some x) q = q == x

-- Every page keeps its flags and its order under the list operations.
abbrev pub SameState : (ℕ → Page) → (ℕ → Page) → Type 0
SameState pg pg' = (q : ℕ) → ((pg' q).flags ≡ (pg q).flags) × ((pg' q).order ≡ (pg q).order)

module _ (s : Pmm) (order page : ℕ) where
  pub push_prev :
      (q : ℕ)
      → ((pmm_list_push order page s).db.page q).prev ≡ (
          if points (s.lists order).head q
          then some page
          else if q == page
          then none
          else (s.db.page q).prev)
  unfolding pmm_list_push
  push_prev q = ground arith

  pub push_next :
      (q : ℕ)
      → ((pmm_list_push order page s).db.page q).next
        ≡ (if q == page then (s.lists order).head else (s.db.page q).next)
  unfolding pmm_list_push
  push_next q = ground arith

  pub push-SameState : SameState s.db.page (pmm_list_push order page s).db.page
  unfolding pmm_list_push
  push-SameState q = ground arith

  pub remove_prev :
      (q : ℕ)
      → ((pmm_list_remove order page s).db.page q).prev ≡ (
          if q == page
          then none
          else if points (s.db.page page).next q
          then (s.db.page page).prev
          else (s.db.page q).prev)
  unfolding pmm_list_remove
  remove_prev q = ground arith

  pub remove_next :
      (q : ℕ)
      → ((pmm_list_remove order page s).db.page q).next ≡ (
          if q == page
          then none
          else if points (s.db.page page).prev q
          then (s.db.page page).next
          else (s.db.page q).next)
  unfolding pmm_list_remove
  remove_next q = ground arith

  pub remove-SameState : SameState s.db.page (pmm_list_remove order page s).db.page
  unfolding pmm_list_remove
  remove-SameState q = ground arith

-- The list without one of its pages.
abbrev pub erase : ℕ → List ℕ → List ℕ
erase p [] = []
erase p (x ∷ xs) = if x == p then xs else x ∷ erase p xs

pub has-erase :
    (q p : ℕ) (xs : List ℕ)
    → Distinct xs
    → has q (erase p xs) ≡ (if q == p then false else has q xs)
has-erase q p [] d = ground arith
has-erase q p (x ∷ xs) d = ground (arith, has-erase q p xs d.1)

pub Distinct-erase : (p : ℕ) (xs : List ℕ) → Distinct xs → Distinct (erase p xs)
Distinct-erase p [] d = tt
Distinct-erase p (x ∷ xs) d = elim (Bool-cases (x == p)) [
  | inl e ↦ rw e (d.1)
  | inr e ↦ rw e (rw (has-erase x p xs d.1) (ground arith), Distinct-erase p xs d.1)
]

pub length-erase : (p : ℕ) (xs : List ℕ) → has p xs ≡ true → suc (length (erase p xs)) ≡ length xs
length-erase p [] h = cc
length-erase p (x ∷ xs) h = ground (arith, length-erase p xs)

-- The neighbours of a page of a list are in the list.
pub next_out :
    (pg : ℕ → Page) (prev : Ptr) (p q : ℕ) (xs : List ℕ)
    → Links pg prev xs
    → has p xs ≡ true
    → has q xs ≡ false
    → points (pg p).next q ≡ false
next_out pg prev p q [] l h o = cc
next_out pg prev p q (x ∷ []) l h o = ground arith
next_out pg prev p q (x ∷ y ∷ ys) l h o = ground (arith, next_out pg (some x) p q (y ∷ ys) l.2)

pub prev_out :
    (pg : ℕ → Page) (prev : Ptr) (p q : ℕ) (xs : List ℕ)
    → Links pg prev xs
    → has p xs ≡ true
    → has q xs ≡ false
    → points prev q ≡ false
    → points (pg p).prev q ≡ false
prev_out pg prev p q [] l h o e = cc
prev_out pg prev p q (x ∷ xs) l h o e = ground (arith, prev_out pg (some x) p q xs l.2)

pub prev_is_some :
    (pg : ℕ → Page) (before p : ℕ) (xs : List ℕ)
    → Links pg (some before) xs
    → has p xs ≡ true
    → is_some (pg p).prev ≡ true
prev_is_some pg before p [] l h = cc
prev_is_some pg before p (x ∷ xs) l h = ground (arith, prev_is_some pg x p xs l.2)

module _ (pg pg' : ℕ → Page) (p : ℕ)
    (nexts : (q : ℕ)
      → (pg' q).next
        ≡ (if q == p then none else if points (pg p).prev q then (pg p).next else (pg q).next))
    (prevs : (q : ℕ)
      → (pg' q).prev ≡ (
          if q == p then none else if points (pg p).next q then (pg p).prev else (pg q).prev)) where
  -- Pages that neither are `p` nor its neighbours are as before.
  spared :
      (q : ℕ)
      → (q == p) ≡ false
      → points (pg p).prev q ≡ false
      → points (pg p).next q ≡ false
      → SameLinks pg pg' q
  spared q a b c = (rw (nexts q, a, b), rw (prevs q, a, c))

  erase_front :
      (prev : Ptr) (rest : List ℕ)
      → Links pg prev (p ∷ rest)
      → Distinct (p ∷ rest)
      → ((q : ℕ) → has q rest ≡ true → points prev q ≡ false)
      → Links pg' prev rest
  erase_front prev [] l d out = tt
  erase_front prev (y ∷ ys) l d out = (
    ground (arith, prevs y),
    ground (arith, nexts y, out y),
    Links-frame pg pg' (some y) ys (λ q h. ground (arith, spared q, out q)) l.2.2,
  )

  pub Links-erase :
      (prev : Ptr) (xs : List ℕ)
      → Links pg prev xs
      → Distinct xs
      → has p xs ≡ true
      → ((q : ℕ) → has q xs ≡ true → points prev q ≡ false)
      → Links pg' prev (erase p xs)
  Links-erase prev [] l d h out = cc
  Links-erase prev (x ∷ rest) l d h out = elim (Bool-cases (x == p)) [
    | inl e ↦
        let same : x ≡ p = ground arith in
        rw e (erase_front prev rest (rw same at l) (rw same at d) (λ q i. out q (ground arith)))
    | inr e ↦
        let inside : has p rest ≡ true = ground arith in
        rw e (
          ground (arith, prevs x, next_out pg (some x) p x rest l.2),
          erase_next prev x rest l d e inside,
          Links-erase (some x) rest l.2 d.1 inside (λ q i. ground arith),
        )
  ]
    where
      erase_next :
          (prev : Ptr) (x : ℕ) (rest : List ℕ)
          → Links pg prev (x ∷ rest)
          → Distinct (x ∷ rest)
          → (x == p) ≡ false
          → has p rest ≡ true
          → (pg' x).next ≡ head? (erase p rest)
      erase_next prev x [] l d e i = cc
      erase_next prev x (y ∷ ys) l d e i = elim (Bool-cases (y == p)) [
        | inl f ↦ ground (arith, nexts x)
        | inr f ↦ ground (arith, nexts x, prev_out pg (some y) p x ys l.2.2)
      ]
