-- ===== src/Pmm/Steps.antt =====
-- Taking a free block and settling the held block keep the state sound.
use risky.Base.{
  ℕ, ◌≡◌, ◌≢◌, refl, true, false, some, ◌∷◌, has, ◌==◌, arith, update, Bool-cases, inl, inr, ◌∙◌,
}
use risky.Page.{flag_free, flag_used, page_set_state}
use risky.Pmm.{Pmm, pmm_prepare_page, pmm_list_push, pmm_list_remove}
use risky.Pmm.Links.{erase, has-erase, push-SameState, remove-SameState}
use risky.Pmm.Invariant.{Kind, free, used, held, View, Shows, IsSound, lists_short}
use risky.Pmm.Moves.{
  push-SameDb, remove-SameDb, prepare-SameDb, release, prepare-IsLists, push-IsLists,
  remove-IsLists, Shows-same, lists-IsApart, not_listed,
}

-- A free block leaves its list.
abbrev pub grab_view : View → (b o : ℕ) → View
grab_view v b o = record {
  order = v.order;
  kind = update v.kind b held;
  lists = update v.lists o (erase b (v.lists o));
}

-- The held block becomes free, or takes another kind that has no list.
abbrev pub settle_view : View → (p o : ℕ) → View
settle_view v p o = record {
  order = v.order;
  kind = update v.kind p free;
  lists = update v.lists o (p ∷ v.lists o);
}

abbrev pub rekind_view : View → (p : ℕ) → Kind → View
rekind_view v p k = record { order = v.order; kind = update v.kind p k; lists = v.lists }

module _ {max_pfn : ℕ} {v : View} {s : Pmm} (sound : IsSound max_pfn v s) where
  pub grab-IsSound :
      (b o : ℕ)
      → v.order b ≡ some o
      → v.kind b ≡ free
      → IsSound max_pfn (grab_view v b o) (pmm_list_remove o b s)
  grab-IsSound b o e k = record {
    present = (remove-SameDb o b s).0 ∙ sound.present;
    same_max = (remove-SameDb o b s).1 ∙ sound.same_max;
    small = sound.small;
    tiling = sound.tiling;
    shows = shows;
    lists =
        remove-IsLists s v.lists b o sound.lists (lists-IsApart sound) (sound.listed o b e k)
          (lists_short sound o);
    members = members;
    listed = listed;
  }
    where
      shows :
          (q r : ℕ)
          → v.order q ≡ some r
          → Shows (update v.kind b held q) r ((pmm_list_remove o b s).db.page q)
      shows q r h = elim (Bool-cases (q == b)) [
        | inl f ↦ rw f tt
        | inr f ↦ rw f (
            Shows-same (v.kind q) r (s.db.page q) _ (remove-SameState s o b q).0
              (remove-SameState s o b q).1 (sound.shows q r h))
      ]

      members :
          (r q : ℕ)
          → has q (update v.lists o (erase b (v.lists o)) r) ≡ true
          → (v.order q ≡ some r) × (update v.kind b held q ≡ free)
      members r q h = ground (
        arith,
        has-erase q b (v.lists o) (sound.lists o).distinct,
        sound.members r q,
        sound.members r b,
        e,
      )

      listed :
          (r q : ℕ)
          → v.order q ≡ some r
          → update v.kind b held q ≡ free
          → has q (update v.lists o (erase b (v.lists o)) r) ≡ true
      listed r q h f =
          ground (arith, has-erase q b (v.lists o) (sound.lists o).distinct, sound.listed r q)

  -- `p` is in no list, so its page may be prepared and put in front of one.
  pub settle-IsSound :
      (p o : ℕ)
      → v.order p ≡ some o
      → v.kind p ≢ free
      → IsSound max_pfn (settle_view v p o) (release o p s)
  settle-IsSound p o e k = record {
    present = (push-SameDb o p s1).0 ∙ (prepare-SameDb p flag_free o s).0 ∙ sound.present;
    same_max = (push-SameDb o p s1).1 ∙ (prepare-SameDb p flag_free o s).1 ∙ sound.same_max;
    small = sound.small;
    tiling = sound.tiling;
    shows = shows;
    lists =
        push-IsLists s1 v.lists p o (prepare-IsLists s v.lists p flag_free o sound.lists out)
          (lists-IsApart sound) out (lists_short sound o);
    members = λ r q h. ground (arith, sound.members r q, e);
    listed = λ r q h f. ground (arith, sound.listed r q, e);
  }
    where
      s1 : Pmm
      s1 = pmm_prepare_page p flag_free o s

      out : (r : ℕ) → has p (v.lists r) ≡ false
      out = not_listed sound p (λ _ _. k)

      prepared :
          (q : ℕ) → (s1.db.page q) ≡ update s.db.page p (page_set_state (s.db.page p) flag_free o) q
      prepared q = unfold pmm_prepare_page in refl

      shows :
          (q r : ℕ)
          → v.order q ≡ some r
          → Shows (update v.kind p free q) r ((pmm_list_push o p s1).db.page q)
      shows q r h = elim (Bool-cases (q == p)) [
        | inl f ↦ rw f (ground (arith, push-SameState s1 o p q, prepared q, e))
        | inr f ↦ rw f (
            Shows-same (v.kind q) r (s.db.page q) _
              (ground (arith, push-SameState s1 o p q, prepared q))
              (ground (arith, push-SameState s1 o p q, prepared q)) (sound.shows q r h))
      ]

  -- A view in which a block that has no list is held instead.
  pub lift-IsSound : (p : ℕ) → v.kind p ≢ free → IsSound max_pfn (rekind_view v p held) s
  lift-IsSound p k = record {
    present = sound.present;
    same_max = sound.same_max;
    small = sound.small;
    tiling = sound.tiling;
    shows = shows;
    lists = sound.lists;
    members = λ r q h. ground (arith, sound.members r q h, k);
    listed = λ r q h f. sound.listed r q h (ground arith);
  }
    where
      shows : (q r : ℕ) → v.order q ≡ some r → Shows (update v.kind p held q) r (s.db.page q)
      shows q r h = elim (Bool-cases (q == p)) [
        | inl f ↦ rw f tt
        | inr f ↦ rw f (sound.shows q r h)
      ]

  -- The page of the held block becomes used.
  pub settle_used-IsSound :
      (p o : ℕ)
      → v.order p ≡ some o
      → v.kind p ≢ free
      → IsSound max_pfn (rekind_view v p used) (pmm_prepare_page p flag_used o s)
  settle_used-IsSound p o e k = record {
    present = (prepare-SameDb p flag_used o s).0 ∙ sound.present;
    same_max = (prepare-SameDb p flag_used o s).1 ∙ sound.same_max;
    small = sound.small;
    tiling = sound.tiling;
    shows = shows;
    lists = prepare-IsLists s v.lists p flag_used o sound.lists (not_listed sound p (λ _ _. k));
    members = λ r q h. ground (arith, sound.members r q h, k);
    listed = λ r q h f. sound.listed r q h (ground arith);
  }
    where
      prepared :
          (q : ℕ)
          → (pmm_prepare_page p flag_used o s).db.page q
            ≡ update s.db.page p (page_set_state (s.db.page p) flag_used o) q
      prepared q = unfold pmm_prepare_page in refl

      shows :
          (q r : ℕ)
          → v.order q ≡ some r
          → Shows (update v.kind p used q) r ((pmm_prepare_page p flag_used o s).db.page q)
      shows q r h = elim (Bool-cases (q == p)) [
        | inl f ↦ rw f (ground (arith, prepared q, e))
        | inr f ↦ rw f (
            Shows-same (v.kind q) r (s.db.page q) _ (ground (arith, prepared q))
              (ground (arith, prepared q)) (sound.shows q r h))
      ]
