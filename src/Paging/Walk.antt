-- ===== src/Paging/Walk.antt =====
-- `map_walk`, the loop of `paging_map_one`, level by level.
use mathlib.Core.Path.{subst}
use mathlib.Core.Bool.{true≢false}
use risky.Base.{
  ℕ, zero, suc, ◌+◌, ◌≡◌, inl, inr, refl, ap, sym, ◌∙◌, Bool, true, false, Option, none, some, ◌==◌,
  arith, Bool-cases, Option-cases,
}
use risky.Page.{phys_to_virt}
use risky.Pmm.Invariant.{View}
use risky.Paging.{
  Paging, Layout, slot, paging_level_index, has_bits, rwx, paging_entry_covers, paging_pte_to_phys,
  map_enter, map_walk,
}
use risky.Paging.Kept.{IsMapping, map_walk-Kept}
use risky.Paging.Translate.{rights, next_table, has_rwx, pte_to_phys-frame_address}
use risky.Paging.Space.{Places, IsFit, IsSpace}
use risky.Paging.Covers.{Lands}
use risky.Paging.Trail.{trail}
use risky.Paging.Refines.{
  IsRequest, IsMapped, some_eq, unchanged-Mapped, covered-Lands, map_leaf-IsMapped, after-IsMapped,
  ascend-IsMapped,
}
use risky.Paging.Extend.{IsEntered, map_enter-IsEntered}

-- The outcomes of a level, by that of its entry.
module _ (l : Layout) (level t virt phys flags : ℕ) (p s : Paging) where
  abbrev Enters : Option ℕ → Type 0
  Enters value = map_enter l (slot t (paging_level_index virt (suc level))) p ≡ some (value, s)

  walk_out : Enters none → map_walk l (suc level) t virt phys flags p ≡ some (false, s)
  unfolding map_walk
  walk_out e = rw (e, map_walk) refl

  walk_leaf :
      (entry : ℕ)
      → Enters (some entry)
      → has_bits entry rwx ≡ true
      → map_walk l (suc level) t virt phys flags p
        ≡ some (paging_entry_covers entry virt phys flags (suc level), s)
  unfolding map_walk
  walk_leaf entry e leaf = rw (e, map_walk, leaf) refl

  walk_on :
      (entry : ℕ)
      → Enters (some entry)
      → has_bits entry rwx ≡ false
      → map_walk l (suc level) t virt phys flags p
        ≡ map_walk l level (phys_to_virt l.offset (paging_pte_to_phys entry)) virt phys flags s
  unfolding map_walk
  walk_on entry e branch = rw (e, map_walk, branch) refl

module _ {max_pfn : ℕ} {l : Layout} (fit : IsFit max_pfn l) {top virt phys flags : ℕ}
    (q : IsRequest top virt phys flags) where
  module _ {places : Places} {p : Paging} (level t depth : ℕ)
      (here : places t ≡ some (suc level, trail virt depth (suc level)))
      (sum : depth + suc level ≡ top)
      (g : IsEntered max_pfn l places level
        (slot t (paging_level_index virt (suc level)))
        p
        (map_enter l (slot t (paging_level_index virt (suc level))) p))
      {r : Bool × Paging} (e : map_walk l (suc level) t virt phys flags p ≡ some r)
      (same : (r.1).pool_used ≡ p.pool_used) where
    abbrev MappedHere : Type 0
    MappedHere = IsMapped max_pfn l top (suc level) t virt phys flags places p r

    -- The loop ends at this level, with a result that is true only for an entry that will do.
    ended-IsMapped :
        (ok : Bool)
        → map_walk l (suc level) t virt phys flags p ≡ some (ok, g.state)
        → (g.state.pool_used ≡ p.pool_used
            → ok ≡ true
            → Lands
                (suc level)
                (g.state.words (slot t (paging_level_index virt (suc level))))
                virt
                phys
                flags)
        → MappedHere
    ended-IsMapped ok ends lands =
        let end : (ok, g.state) ≡ r = some_eq (sym ends ∙ e) in
        let pool = ap (λ (s : Bool × Paging). (s.1).pool_used) end ∙ same in
        let x = g.extended pool in
        subst (IsMapped max_pfn l top (suc level) t virt phys flags places p) end (
          after-IsMapped fit q x (
            unchanged-Mapped fit q depth g.is_mapping x.space (x.more _ _ here) sum ok
              (lands pool)))

    out-IsMapped : g.value ≡ none → MappedHere
    out-IsMapped out =
        ended-IsMapped false
          (walk_out l level t virt phys flags p g.state
            (g.returns ∙ ap (λ (o : Option ℕ). some (o, g.state)) out))
          (λ _ on. absurd (true≢false (sym on)))

    module _ (entry : ℕ) (on : g.value ≡ some entry) where
      enters :
          map_enter l (slot t (paging_level_index virt (suc level))) p ≡ some (some entry, g.state)
      enters = g.returns ∙ ap (λ (o : Option ℕ). some (o, g.state)) on

      leaf-IsMapped : has_bits entry rwx ≡ true → MappedHere
      leaf-IsMapped leaf =
          ended-IsMapped _ (walk_leaf l level t virt phys flags p g.state entry enters leaf)
            (λ pool covers.
              let x = g.extended pool in
              let (holds, valid) = g.entry pool entry on in
              covered-Lands fit q depth g.is_mapping x.space (x.more _ _ here) sum (rw holds valid)
                (rw holds covers))

      module _ (branch : has_bits entry rwx ≡ false) where
        next_walk :
            map_walk l level
              (phys_to_virt l.offset (paging_pte_to_phys entry))
              virt
              phys
              flags
              g.state
            ≡ some r
        next_walk = sym (walk_on l level t virt phys flags p g.state entry enters branch) ∙ e

        -- If no table came from the pool in the end, none did at this level.
        next_pool : g.state.pool_used ≡ p.pool_used
        next_pool =
            let k = map_walk-Kept l level _ virt phys flags g.state g.is_mapping in
            let last =
              ap (λ (s : Bool × Paging). (s.1).pool_used) (some_eq (sym k.returns ∙ next_walk)) in
            omega (arith, k.pool_le, last, g.pool_le, same)

        branch-IsMapped :
            (g.tables (next_table l entry) ≡ some (level, trail virt (suc depth) level)
              → map_walk l level (next_table l entry) virt phys flags g.state ≡ some r
              → IsMapped max_pfn l top level
                  (next_table l entry)
                  virt
                  phys
                  flags
                  g.tables
                  g.state
                  r)
            → MappedHere
        branch-IsMapped next =
            let x = g.extended next_pool in
            let (holds, valid) = g.entry next_pool entry on in
            let rights_none : (rights entry == 0) ≡ true = ground (arith, has_rwx entry) in
            let up = x.more _ _ here in
            let index = paging_level_index virt (suc level) in
            let plain = x.space.plain t (suc level) index _ up (omega arith) (rw holds valid) in
            let to : phys_to_virt l.offset (paging_pte_to_phys entry) ≡ next_table l entry =
              ap (phys_to_virt l.offset)
                (pte_to_phys-frame_address entry (rw holds at (plain.entry_lt))) in
            let below : g.tables (next_table l entry) ≡ some (level, trail virt (suc depth) level) =
              rw holds at (
                x.space.child t level index _ up (omega arith) (rw holds valid)
                  (rw holds rights_none)) in
            after-IsMapped fit q x (
              ascend-IsMapped fit q g.state level t depth entry x.space up sum holds valid
                rights_none
                (next below (
                  ap (λ (a : ℕ). map_walk l level a virt phys flags g.state) (sym to) ∙ next_walk)))

  pub map_walk-IsMapped :
      (level t depth : ℕ) {v : View} {places : Places} (p : Paging)
      → IsMapping max_pfn v p
      → IsSpace v l places p.words
      → places t ≡ some (level, trail virt depth level)
      → depth + level ≡ top
      → (r : Bool × Paging) → map_walk l level t virt phys flags p ≡ some r
      → (r.1).pool_used ≡ p.pool_used
      → IsMapped max_pfn l top level t virt phys flags places p r
  unfolding map_walk
  map_walk-IsMapped zero t depth {v} {places} p h space here sum r e same =
      let whole : depth ≡ top = omega arith in
      subst (IsMapped max_pfn l top 0 t virt phys flags places p) (some_eq e)
        (map_leaf-IsMapped fit q p t h space (rw whole at here))
  map_walk-IsMapped (suc level) t depth {places = places} p h space here sum r e same =
      let at = slot t (paging_level_index virt (suc level)) in
      let g : IsEntered max_pfn l places level at p (map_enter l at p) =
        map_enter-IsEntered fit h space here (omega arith) in
      elim (Option-cases g.value) [
        | inl out ↦ out-IsMapped level t depth here sum g e same out
        | inr (entry, on) ↦ elim (Bool-cases (has_bits entry rwx)) [
          | inl leaf ↦ leaf-IsMapped level t depth here sum g e same entry on leaf
          | inr branch ↦
              let pool = next_pool level t depth here sum g e same entry on branch in
              branch-IsMapped level t depth here sum g e same entry on branch (λ below next.
                map_walk-IsMapped level (next_table l entry) (suc depth) g.state g.is_mapping
                  (g.extended pool).space below (omega arith) r next (omega (arith, same, pool)))
        ]
      ]
