-- ===== src/Paging/Refines.antt =====
-- Mapping a page against what the processor makes of the tables.
use mathlib.Core.Bool.{true≢false}
use risky.Base.{
  ℕ, suc, ◌+◌, ◌%◌, ◌^◌, ◌<◌, ◌≡◌, ◌⊎◌, inl, inr, refl, ap, ◌∙◌, Bool, true, false, ◌&&◌, Option,
  none, some, List, ◌==◌, arith, Bool-cases,
}
use risky.Page.{page_size}
use risky.Pmm.Invariant.{View}
use risky.Paging.{
  Paging, Layout, slot, paging_level_index, has_bits, pte_v, paging_entry_covers, map_leaf,
}
use risky.Paging.Kept.{IsMapping}
use risky.Paging.Translate.{
  is_valid, rights, next_table, translate, same_page, is_invalid, resolve_branch,
}
use risky.Paging.Space.{Places, IsFit, IsSpace}
use risky.Paging.Covers.{Lands, leaf_entry, asks, grants, written-Lands, covers-Lands}
use risky.Paging.Trail.{trail, same_page_index, same_page_fewer}
use risky.Paging.Leaf.{Lands-translate, leaf_above, leaf_maps, leaf-translate, leaf-IsSpace}
use risky.Paging.Extend.{IsExtended}

-- What is asked for: a page at a page boundary, for a frame, with a right.
pub record IsRequest (top virt phys flags : ℕ) : Type 0 where
  pub asked : asks flags ≡ true
  pub few : top < 5
  pub v_aligned : virt % page_size ≡ 0
  pub p_aligned : phys % page_size ≡ 0
  pub small : phys < 2 ^ 56

-- The address space after an attempt to map a page: the tables are a tree again, with all the
-- tables that there were; every page but the mapped one, and every page if the attempt failed, is
-- translated as before, and the mapped one leads to the frame, with the rights q.asked for.
pub record IsMapped (max_pfn : ℕ) (l : Layout) (top level t virt phys flags : ℕ) (places : Places)
    (p : Paging) (r : Bool × Paging) : Type 0 where
  pub view : View
  pub tables : Places
  pub is_mapping : IsMapping max_pfn view (r.1)
  pub space : IsSpace view l tables (r.1).words
  pub more : (t' : ℕ) (x : ℕ × List ℕ) → places t' ≡ some x → tables t' ≡ some x
  pub above :
      (t' j i : ℕ) (path : List ℕ)
      → places t' ≡ some (j, path)
      → level < j
      → i < 512
      → (r.1).words (slot t' i) ≡ p.words (slot t' i)
  pub others :
      (j t' virt' depth : ℕ)
      → places t' ≡ some (j, trail virt' depth j)
      → depth + j ≡ top
      → (r.0 ≡ false) ⊎ (same_page (suc top) virt virt' ≡ false)
      → translate l (r.1).words j t' virt' ≡ translate l p.words j t' virt'
  pub maps :
      r.0 ≡ true
      → (virt' : ℕ) → same_page (suc top) virt virt' ≡ true
      → (entry : ℕ) × (translate l (r.1).words level t virt'
          ≡ some (entry, phys + virt' % page_size))
        × (grants entry flags ≡ true)

abbrev get_or {ℓ} : {A : Type ℓ} → A → Option A → A
get_or a none = a
get_or a (some b) = b

pub some_eq {ℓ} : {A : Type ℓ} {a b : A} → some a ≡ some b → a ≡ b
some_eq {a = a} e = ap (get_or a) e

module _ {max_pfn : ℕ} {l : Layout} (fit : IsFit max_pfn l) {top virt phys flags : ℕ}
    (q : IsRequest top virt phys flags) where
  module _ {v : View} {places : Places} {p : Paging} {level t : ℕ} (depth : ℕ)
      (h : IsMapping max_pfn v p) (space : IsSpace v l places p.words)
      (here : places t ≡ some (level, trail virt depth level)) (sum : depth + level ≡ top) where
    abbrev Mapped : Bool × Paging → Type 0
    Mapped = IsMapped max_pfn l top level t virt phys flags places p

    -- An entry of this level, with nothing changed.
    pub unchanged-Mapped :
        (ok : Bool)
        → (ok ≡ true
            → Lands level (p.words (slot t (paging_level_index virt level))) virt phys flags)
        → Mapped (ok, p)
    unchanged-Mapped ok lands = record {
      view = v;
      tables = places;
      is_mapping = h;
      space = space;
      more = λ t' x e. e;
      above = λ t' j i path e lt k. refl;
      others = λ j t' virt' d e s o. refl;
      maps = λ on virt' same.
          let lower = same_page_fewer (suc top) (suc level) virt virt' same (omega arith) in
          (
            p.words (slot t (paging_level_index virt level)),
            Lands-translate l p.words phys flags level t virt virt' (lands on) q.v_aligned lower,
            (lands on).granted,
          );
    }

    -- An entry that covers the page already.
    pub covered-Lands :
        is_valid (p.words (slot t (paging_level_index virt level))) ≡ true
        → paging_entry_covers
            (p.words (slot t (paging_level_index virt level)))
            virt
            phys
            flags
            level
          ≡ true
        → Lands level (p.words (slot t (paging_level_index virt level))) virt phys flags
    covered-Lands valid covers =
        covers-Lands _ virt phys flags level q.asked (omega arith)
          (space.plain t level (paging_level_index virt level) _ here (omega arith) valid) covers

  pub map_leaf-IsMapped :
      {v : View} {places : Places} (p : Paging) (t : ℕ)
      → IsMapping max_pfn v p
      → IsSpace v l places p.words
      → places t ≡ some (0, trail virt top 0)
      → IsMapped max_pfn l top 0 t virt phys flags places p (map_leaf t virt phys flags p)
  unfolding map_leaf
  map_leaf-IsMapped {v} {places} p t h space here =
      let entry = p.words (slot t (paging_level_index virt 0)) in
      elim (Bool-cases (has_bits entry pte_v && paging_entry_covers entry virt phys flags 0)) [
        | inl covered ↦ rw covered (
            unchanged-Mapped top h space here (omega arith) true (λ _.
              covered-Lands top h space here (omega arith) (ground (arith, is_invalid entry))
                (ground arith)))
        | inr open_slot ↦ rw open_slot (record {
          view = v;
          tables = places;
          is_mapping = record { is_ready = h.is_ready; pool = h.pool };
          space = leaf-IsSpace fit space t top virt _ here lands.plain;
          more = λ t' x e. e;
          above = leaf_above fit space t top virt _ here;
          others = λ j t' virt' d e s o. elim o [
            | inl failed ↦ absurd (true≢false failed)
            | inr other ↦ leaf-translate fit space t top virt _ here j t' virt' d e s other
          ];
          maps = λ on virt' same. (
            leaf_entry phys flags,
            leaf_maps fit space t top virt _ here virt' lands q.v_aligned
                (same_page_fewer (suc top) 1 virt virt' same (omega arith)),
            lands.granted,
          );
        })
      ]
    where
      lands : Lands 0 (leaf_entry phys flags) virt phys flags
      lands = written-Lands virt phys flags q.asked q.v_aligned q.p_aligned q.small

  -- What follows an extension of the tree.
  pub after-IsMapped :
      {places places' : Places} {p p' : Paging} {v : View} {level t : ℕ} {r : Bool × Paging}
      → IsExtended l level places p.words v places' p'.words
      → IsMapped max_pfn l top level t virt phys flags places' p' r
      → IsMapped max_pfn l top level t virt phys flags places p r
  after-IsMapped x m = record {
    view = m.view;
    tables = m.tables;
    is_mapping = m.is_mapping;
    space = m.space;
    more = λ t' y e. m.more t' y (x.more t' y e);
    above =
        λ t' j i path e lt k. m.above t' j i path (x.more _ _ e) lt k ∙ x.above t' j i path e lt k;
    others = λ j t' virt' d e s o.
        m.others j t' virt' d (x.more _ _ e) s o ∙ x.same j t' virt' (trail virt' d j) e;
    maps = m.maps;
  }

  -- From the table that a branch leads to, up to the table of the branch.
  pub ascend-IsMapped :
      {places : Places} (p : Paging) {v : View} (level t depth entry : ℕ) {r : Bool × Paging}
      → IsSpace v l places p.words
      → places t ≡ some (suc level, trail virt depth (suc level))
      → depth + suc level ≡ top
      → p.words (slot t (paging_level_index virt (suc level))) ≡ entry
      → is_valid entry ≡ true
      → (rights entry == 0) ≡ true
      → IsMapped max_pfn l top level (next_table l entry) virt phys flags places p r
      → IsMapped max_pfn l top (suc level) t virt phys flags places p r
  ascend-IsMapped p level t depth entry {r} space here sum at valid branch m = record {
    view = m.view;
    tables = m.tables;
    is_mapping = m.is_mapping;
    space = m.space;
    more = m.more;
    above = λ t' j i path e lt k. m.above t' j i path e (omega arith) k;
    others = m.others;
    maps = λ on virt' same.
        let (leaf, to, granted) = m.maps on virt' same in (leaf, through virt' same ∙ to, granted);
  }
    where
      through :
          (virt' : ℕ)
          → same_page (suc top) virt virt' ≡ true
          → translate l (r.1).words (suc level) t virt'
            ≡ translate l (r.1).words level (next_table l entry) virt'
      through virt' same =
          let index = same_page_index (suc top) virt virt' (suc level) same (omega arith) in
          let kept =
            m.above t (suc level) (paging_level_index virt (suc level)) _ here (omega arith)
              (omega arith) in
          unfold translate in rw (← index, kept, at) (resolve_branch _ _ _ _ valid branch)
