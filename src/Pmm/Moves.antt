-- ===== src/Pmm/Moves.antt =====
-- The moves that the operations are made of, each with what it does to the view.
use risky.Base.{
  ℕ, ◌+◌, ◌^◌, ◌<◌, ◌≡◌, ◌≢◌, true, false, none, some, List, ◌∷◌, length, has, ◌==◌, arith, update,
  Bool-cases, inl, inr,
}
use risky.Page.{Page, flag_free, page_set_state}
use risky.Pmm.{Pmm, pmm_prepare_page, pmm_list_push, pmm_list_remove}
use risky.Pmm.Links.{IsList, Links-frame, erase}
use risky.Pmm.Lists.{push-IsList, push_other, remove-IsList, remove_other}
use risky.Pmm.Invariant.{Kind, free, used, reserved, held, View, Shows, IsSound}

-- Database fields that no operation of the allocator writes.
abbrev pub SameDb : Pmm → Pmm → Type 0
SameDb s s' = (s'.db.present ≡ s.db.present) × (s'.db.max_pfn ≡ s.db.max_pfn)

pub push-SameDb : (o p : ℕ) (s : Pmm) → SameDb s (pmm_list_push o p s)
unfolding pmm_list_push
push-SameDb o p s = ground arith

pub remove-SameDb : (o p : ℕ) (s : Pmm) → SameDb s (pmm_list_remove o p s)
unfolding pmm_list_remove
remove-SameDb o p s = ground arith

pub prepare-SameDb : (p flags o : ℕ) (s : Pmm) → SameDb s (pmm_prepare_page p flags o s)
unfolding pmm_prepare_page
prepare-SameDb p flags o s = ground arith

-- A block to the list of its order, as a free one.
abbrev pub release : (o p : ℕ) → Pmm → Pmm
release o p s = pmm_list_push o p (pmm_prepare_page p flag_free o s)

abbrev pub IsLists : Pmm → (ℕ → List ℕ) → Type 0
IsLists s ls = (o : ℕ) → IsList s o (ls o)

-- No page is in two lists.
abbrev pub IsApart : (ℕ → List ℕ) → Type 0
IsApart ls = (o o' q : ℕ) → has q (ls o) ≡ true → has q (ls o') ≡ true → o ≡ o'

module _ (s : Pmm) (ls : ℕ → List ℕ) (p : ℕ) where
  pub prepare-IsLists :
      (flags o : ℕ)
      → IsLists s ls
      → ((k : ℕ) → has p (ls k) ≡ false)
      → IsLists (pmm_prepare_page p flags o s) ls
  unfolding pmm_prepare_page
  prepare-IsLists flags o is out k = record {
    links =
        Links-frame s.db.page (update s.db.page p (page_set_state (s.db.page p) flags o)) none
          (ls k) (λ q i. (ground (arith, out k), ground (arith, out k))) (is k).links;
    distinct = (is k).distinct;
    head = (is k).head;
    count = (is k).count;
  }

  pub push-IsLists :
      (o : ℕ)
      → IsLists s ls
      → IsApart ls
      → ((k : ℕ) → has p (ls k) ≡ false)
      → length (ls o) + 1 < 2 ^ 64
      → IsLists (pmm_list_push o p s) (update ls o (p ∷ ls o))
  push-IsLists o is apart out short k = elim (Bool-cases (k == o)) [
    | inl e ↦
        let same : k ≡ o = ground arith in
        rw (e, same) (push-IsList s o p (ls o) (is o) (out o) short)
    | inr e ↦ rw e (
        push_other s o p (ls o) (ls k) k (ground arith) (is o) (is k) (out k)
          (λ q i. ground (arith, apart o k q)))
  ]

  pub remove-IsLists :
      (o : ℕ)
      → IsLists s ls
      → IsApart ls
      → has p (ls o) ≡ true
      → length (ls o) + 1 < 2 ^ 64
      → IsLists (pmm_list_remove o p s) (update ls o (erase p (ls o)))
  remove-IsLists o is apart i short k = elim (Bool-cases (k == o)) [
    | inl e ↦
        let same : k ≡ o = ground arith in
        rw (e, same) (remove-IsList s o p (ls o) (is o) i (omega arith))
    | inr e ↦ rw e (
        remove_other s o p (ls o) (ls k) k (ground arith) (is o) i (is k)
          (λ q j. ground (arith, apart o k q)))
  ]

-- What the page of a block shows depends only on its flags and order.
pub Shows-same :
    (k : Kind) (o : ℕ) (a b : Page)
    → (b.flags ≡ a.flags)
    → (b.order ≡ a.order)
    → Shows k o a
    → Shows k o b
Shows-same free o a b e f h = ground arith
Shows-same used o a b e f h = ground arith
Shows-same reserved o a b e f h = ground arith
Shows-same held o a b e f h = tt

module _ {max_pfn : ℕ} {v : View} {s : Pmm} (sound : IsSound max_pfn v s) where
  pub lists-IsApart : IsApart v.lists
  lists-IsApart o o' q h h' = ground (arith, sound.members o q h, sound.members o' q h')

  pub not_listed :
      (p : ℕ)
      → ((o : ℕ) → v.order p ≡ some o → v.kind p ≢ free)
      → (k : ℕ) → has p (v.lists k) ≡ false
  not_listed p h k = elim (Bool-cases (has p (v.lists k))) [
    | inl i ↦ absurd (h k ((sound.members k p i).0) ((sound.members k p i).1))
    | inr o ↦ o
  ]
