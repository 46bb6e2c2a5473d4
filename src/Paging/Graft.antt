-- ===== src/Paging/Graft.antt =====
-- A new, empty table under an entry that was not valid: it changes no translation.
use mathlib.Core.Bool.{true≢false}
use mathlib.Core.Option.{none-ne-some}
use risky.Base.{
  ℕ, zero, suc, ◌<◌, ◌≡◌, ◌≢◌, ◌⊎◌, inl, inr, refl, ap, sym, ◌∙◌, true, false, none, some, List,
  ◌∷◌, ◌==◌, arith, update, Bool-cases, eq_self,
}
use risky.Pmm.Invariant.{View}
use risky.Paging.{Layout, slot, paging_level_index}
use risky.Paging.Translate.{
  is_valid, rights, next_table, translate, resolve, resolve_invalid, resolve_branch, resolve_below,
}
use risky.Paging.Space.{Places, IsFit, IsBacked, IsPlain, IsSpace, slots_apart, same_place}

-- `words'` is `words` with the new table under entry `i` of a table.
pub record IsGraft (l : Layout) (places : Places) (t level i : ℕ) (path : List ℕ) (new : ℕ)
    (words words' : ℕ → ℕ) : Type 0 where
  pub here : places t ≡ some (suc level, path)
  pub index_lt : i < 512
  pub empty : is_valid (words (slot t i)) ≡ false
  pub valid : is_valid (words' (slot t i)) ≡ true
  pub branch : (rights (words' (slot t i)) == 0) ≡ true
  pub plain : IsPlain (suc level) (words' (slot t i))
  pub leads : next_table l (words' (slot t i)) ≡ new
  pub fresh : places new ≡ none
  pub zeros : (i' : ℕ) → i' < 512 → words' (slot new i') ≡ 0
  pub others :
      (t' : ℕ) (x : ℕ × List ℕ) (i' : ℕ)
      → places t' ≡ some x
      → i' < 512
      → slot t' i' ≢ slot t i
      → words' (slot t' i') ≡ words (slot t' i')

abbrev pub grown : Places → (new level i : ℕ) → List ℕ → Places
grown places new level i path = update places new (some (level, i ∷ path))

-- An empty table maps nothing.
empty_maps_none :
    (l : Layout) (words : ℕ → ℕ) (level t virt : ℕ)
    → ((i : ℕ) → i < 512 → words (slot t i) ≡ 0)
    → translate l words level t virt ≡ none
unfolding translate
empty_maps_none l words zero t virt h =
    resolve_invalid _ _ _ _ (ap is_valid (h (paging_level_index virt 0) (omega arith)))
empty_maps_none l words (suc level) t virt h =
    resolve_invalid _ _ _ _ (ap is_valid (h (paging_level_index virt (suc level)) (omega arith)))

module _ {max_pfn : ℕ} {v : View} {l : Layout} {places : Places} {t level i : ℕ} {path : List ℕ}
    {new : ℕ} {words words' : ℕ → ℕ} (fit : IsFit max_pfn l) (space : IsSpace v l places words)
    (g : IsGraft l places t level i path new words words') where
  -- A word of a table is the changed one or as before.
  graft_word :
      (t' level' i' : ℕ) (path' : List ℕ)
      → places t' ≡ some (level', path')
      → i' < 512
      → ((level' ≡ suc level) × (path' ≡ path) × (t' ≡ t) × (i' ≡ i))
        ⊎ (words' (slot t' i') ≡ words (slot t' i'))
  graft_word t' level' i' path' e lt = elim (Bool-cases (slot t' i' == slot t i)) [
    | inl at ↦
        let apart =
          slots_apart fit t' t i' i (space.backed t' _ e) (space.backed t _ g.here) lt g.index_lt
            (ground arith) in
        let place = same_place places g.here e (apart.0) in inl (place.0, place.1, apart.0, apart.1)
    | inr off ↦ inr (g.others t' _ i' e lt (ground arith))
  ]

  pub graft-translate :
      (j t' virt : ℕ) (path' : List ℕ)
      → places t' ≡ some (j, path')
      → translate l words' j t' virt ≡ translate l words j t' virt
  unfolding translate
  graft-translate zero t' virt path' e =
      elim (graft_word t' zero (paging_level_index virt 0) path' e (omega arith)) [
        | inl at ↦ absurd (omega (arith, at.0))
        | inr off ↦ ap (λ (entry : ℕ). resolve 0 entry virt none) off
      ]
  graft-translate (suc j) t' virt path' e =
      let index = paging_level_index virt (suc j) in
      elim (graft_word t' (suc j) index path' e (omega arith)) [
        | inl at ↦ changed (at.2) (at.3)
        | inr off ↦ rw off (
            resolve_below _ _ _ _ _ (λ valid branch.
              graft-translate j (next_table l (words (slot t' index))) virt (index ∷ path')
                (space.child t' j index path' e (omega arith) valid branch)))
      ]
    where
      changed :
          t' ≡ t
          → paging_level_index virt (suc j) ≡ i
          → translate l words' (suc j) t' virt ≡ translate l words (suc j) t' virt
      changed same index =
          let at : slot t' (paging_level_index virt (suc j)) ≡ slot t i =
            omega (arith, same, index) in
          rw at (
            resolve_branch _ _ _ _ g.valid g.branch
            ∙ ap (λ (a : ℕ). translate l words' j a virt) g.leads
            ∙ empty_maps_none l words' j new virt g.zeros
            ∙ sym (resolve_invalid _ _ _ _ g.empty))

  -- The tables above the level keep their words.
  pub graft_above :
      (t' j i' : ℕ) (path' : List ℕ)
      → places t' ≡ some (j, path')
      → suc level < j
      → i' < 512
      → words' (slot t' i') ≡ words (slot t' i')
  graft_above t' j i' path' e lt k = elim (graft_word t' j i' path' e k) [
    | inl at ↦ absurd (omega (arith, at.0))
    | inr off ↦ off
  ]

  -- A table is the new one, or was there before.
  grown_cases :
      (t' : ℕ) (x : ℕ × List ℕ)
      → grown places new level i path t' ≡ some x
      → ((t' ≡ new) × (some (level, i ∷ path) ≡ some x)) ⊎ (places t' ≡ some x)
  grown_cases t' x e = elim (Bool-cases (t' == new)) [
    | inl at ↦ inl (ground arith, rw at at e)
    | inr off ↦ inr (rw off at e)
  ]

  pub grown_more :
      (t' : ℕ) (x : ℕ × List ℕ) → places t' ≡ some x → grown places new level i path t' ≡ some x
  grown_more t' x e = elim (Bool-cases (t' == new)) [
    | inl at ↦
        let same : t' ≡ new = ground arith in
        absurd (none-ne-some _ (sym g.fresh ∙ ap places (sym same) ∙ e))
    | inr off ↦ rw off e
  ]

  empty_word :
      (t' i' : ℕ) {A : Type 0} → t' ≡ new → i' < 512 → is_valid (words' (slot t' i')) ≡ true → A
  empty_word t' i' same lt valid =
      let zero_word : words' (slot t' i') ≡ 0 = rw same (g.zeros i' lt) in
      absurd (true≢false (sym valid ∙ ap is_valid zero_word))

  graft-child :
      (t' j i' : ℕ) (path' : List ℕ)
      → places t' ≡ some (suc j, path')
      → i' < 512
      → is_valid (words' (slot t' i')) ≡ true
      → (rights (words' (slot t' i')) == 0) ≡ true
      → grown places new level i path (next_table l (words' (slot t' i'))) ≡ some (j, i' ∷ path')
  graft-child t' j i' path' e lt valid branch = elim (graft_word t' (suc j) i' path' e lt) [
    | inl (levels, paths, same, index) ↦
        let lower : j ≡ level = omega (arith, levels) in
        let to_new : next_table l (words' (slot t' i')) ≡ new = rw (same, index) g.leads in
        rw (to_new, eq_self new, lower, index, paths) refl
    | inr off ↦
        rw off
          (grown_more _ _ (space.child t' j i' path' e lt (rw off at valid) (rw off at branch)))
  ]

  pub graft-IsSpace : IsBacked v l new → IsSpace v l (grown places new level i path) words'
  graft-IsSpace b = record {
    backed = λ t' x e. elim (grown_cases t' x e) [
      | inl (same, _) ↦ rw same b
      | inr old ↦ space.backed t' x old
    ];
    plain = λ t' j i' path' e lt valid. elim (grown_cases t' _ e) [
      | inl (same, _) ↦ empty_word t' i' same lt valid
      | inr old ↦ elim (graft_word t' j i' path' old lt) [
        | inl (levels, paths, same, index) ↦ rw (levels, same, index) g.plain
        | inr off ↦ rw off (space.plain t' j i' path' old lt (rw off at valid))
      ]
    ];
    child = λ t' j i' path' e lt valid branch. elim (grown_cases t' _ e) [
      | inl (same, _) ↦ empty_word t' i' same lt valid
      | inr old ↦ graft-child t' j i' path' old lt valid branch
    ];
  }
