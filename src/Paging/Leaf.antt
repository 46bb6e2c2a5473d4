-- ===== src/Paging/Leaf.antt =====
-- Writing an entry of a table of the lowest level: it changes the translation of one page.
use mathlib.Core.Bool.{true≢false}
use risky.Base.{
  ℕ, zero, suc, ◌+◌, ◌%◌, ◌<◌, ◌≡◌, ◌⊎◌, inl, inr, refl, ap, sym, ◌∙◌, true, false, Option, none,
  some, List, ◌==◌, arith, update, Bool-cases, eq_self,
}
use risky.Page.{page_size}
use risky.Pmm.Invariant.{View}
use risky.Paging.{Layout, slot, paging_level_index}
use risky.Paging.Translate.{next_table, translate, same_page, resolve, resolve_leaf, resolve_below}
use risky.Paging.Space.{Places, IsFit, IsPlain, IsSpace, slots_apart, same_place}
use risky.Paging.Covers.{Lands}
use risky.Paging.Trail.{trail, trail-same_page, same_page_index, same_page_fewer, block_offset}

-- An entry that takes an address at a page boundary to a frame takes the page to the frame.
pub Lands-translate :
    (l : Layout) (words : ℕ → ℕ) (phys flags level t virt virt' : ℕ)
    → Lands level (words (slot t (paging_level_index virt level))) virt phys flags
    → virt % page_size ≡ 0
    → same_page (suc level) virt virt' ≡ true
    → translate l words level t virt'
      ≡ some (words (slot t (paging_level_index virt level)), phys + virt' % page_size)
unfolding translate
Lands-translate l words phys flags level t virt virt' lands aligned same = go level lands same
  where
    taken :
        (level : ℕ) (below : Option (ℕ × ℕ))
        → Lands level (words (slot t (paging_level_index virt level))) virt phys flags
        → same_page (suc level) virt virt' ≡ true
        → resolve level (words (slot t (paging_level_index virt' level))) virt' below
          ≡ some (words (slot t (paging_level_index virt level)), phys + virt' % page_size)
    taken level below lands same =
        let index = same_page_index (suc level) virt virt' level same (omega arith) in
        let lower = same_page_fewer (suc level) level virt virt' same (omega arith) in
        let offset = block_offset level virt virt' aligned lower in
        let entry = words (slot t (paging_level_index virt level)) in
        rw (← index) (
          resolve_leaf level entry virt' below lands.valid lands.leaf
            (lands.plain.no_fault lands.leaf)
          ∙ ap (λ (a : ℕ). some (entry, a)) (omega (arith, lands.address, offset)))

    go :
        (level : ℕ)
        → Lands level (words (slot t (paging_level_index virt level))) virt phys flags
        → same_page (suc level) virt virt' ≡ true
        → translate l words level t virt'
          ≡ some (words (slot t (paging_level_index virt level)), phys + virt' % page_size)
    go zero lands same = taken zero none lands same
    go (suc level) lands same = taken (suc level) _ lands same

module _ {max_pfn : ℕ} {v : View} {l : Layout} {places : Places} {words : ℕ → ℕ}
    (fit : IsFit max_pfn l) (space : IsSpace v l places words) (t top virt entry : ℕ)
    (here : places t ≡ some (0, trail virt top 0)) where
  abbrev written : ℕ → ℕ
  written = update words (slot t (paging_level_index virt 0)) entry

  leaf_word :
      (t' level i : ℕ) (path : List ℕ)
      → places t' ≡ some (level, path)
      → i < 512
      → ((level ≡ 0)
          × (path ≡ trail virt top 0)
          × (t' ≡ t)
          × (i ≡ paging_level_index virt 0)
          × (written (slot t' i) ≡ entry))
        ⊎ (written (slot t' i) ≡ words (slot t' i))
  leaf_word t' level i path e lt =
      let at = slot t (paging_level_index virt 0) in
      elim (Bool-cases (slot t' i == at)) [
        | inl hit ↦
            let apart =
              slots_apart fit t' t i (paging_level_index virt 0) (space.backed t' _ e)
                (space.backed t _ here) lt (omega arith) (ground arith) in
            let place = same_place places here e (apart.0) in
            inl (place.0, place.1, apart.0, apart.1, rw hit refl)
        | inr off ↦ inr (rw off refl)
      ]

  pub leaf_above :
      (t' j i : ℕ) (path : List ℕ)
      → places t' ≡ some (j, path)
      → 0 < j
      → i < 512
      → written (slot t' i) ≡ words (slot t' i)
  leaf_above t' j i path e lt k = elim (leaf_word t' j i path e k) [
    | inl at ↦ absurd (omega (arith, at.0))
    | inr off ↦ off
  ]

  pub leaf_maps :
      {phys flags : ℕ} (virt' : ℕ)
      → Lands 0 entry virt phys flags
      → virt % page_size ≡ 0
      → same_page 1 virt virt' ≡ true
      → translate l written 0 t virt' ≡ some (entry, phys + virt' % page_size)
  leaf_maps {phys} {flags} virt' lands aligned same =
      let index = paging_level_index virt 0 in
      let value : written (slot t index) ≡ entry = rw (eq_self (slot t index)) refl in
      Lands-translate l written phys flags 0 t virt virt' (rw value lands) aligned same
      ∙ ap (λ (x : ℕ). some (x, phys + virt' % page_size)) value

  -- Every other page is translated as before.
  pub leaf-translate :
      (j t' virt' depth : ℕ)
      → places t' ≡ some (j, trail virt' depth j)
      → depth + j ≡ top
      → same_page (suc top) virt virt' ≡ false
      → translate l written j t' virt' ≡ translate l words j t' virt'
  unfolding translate
  leaf-translate zero t' virt' depth e sum other =
      elim (leaf_word t' zero (paging_level_index virt' 0) _ e (omega arith)) [
        | inl (level, path, same, index, value) ↦
            let all : depth ≡ top = omega arith in
            let page =
              trail-same_page top virt virt' (sym index)
                (sym path ∙ ap (λ (n : ℕ). trail virt' n 0) all) in
            absurd (true≢false (sym page ∙ other))
        | inr off ↦ ap (λ (x : ℕ). resolve 0 x virt' none) off
      ]
  leaf-translate (suc j) t' virt' depth e sum other =
      let index = paging_level_index virt' (suc j) in
      elim (leaf_word t' (suc j) index _ e (omega arith)) [
        | inl at ↦ absurd (omega (arith, at.0))
        | inr off ↦ rw off (
            resolve_below _ _ _ _ _ (λ valid branch.
              leaf-translate j (next_table l (words (slot t' index))) virt' (suc depth)
                (space.child t' j index _ e (omega arith) valid branch) (omega arith) other))
      ]

  pub leaf-IsSpace : IsPlain 0 entry → IsSpace v l places written
  leaf-IsSpace plain = record {
    backed = space.backed;
    plain = λ t' level i path e lt valid. elim (leaf_word t' level i path e lt) [
      | inl (lowest, _, _, _, value) ↦ rw (lowest, value) plain
      | inr off ↦ rw off (space.plain t' level i path e lt (rw off at valid))
    ];
    child = λ t' level i path e lt valid branch. elim (leaf_word t' (suc level) i path e lt) [
      | inl at ↦ absurd (omega (arith, at.0))
      | inr off ↦ rw off (space.child t' level i path e lt (rw off at valid) (rw off at branch))
    ];
  }
