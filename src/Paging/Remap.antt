-- ===== src/Paging/Remap.antt =====
-- `paging_map_page` as an update of the translation of addresses.
use mathlib.Core.Bool.{true≢false}
use risky.Base.{
  ℕ, suc, ◌+◌, ◌-◌, ◌%◌, ◌^◌, ◌≤◌, ◌<◌, ◌≡◌, ◌⊎◌, inl, inr, refl, ap, sym, ◌∙◌, Bool, true, false,
  not, ◌||◌, Option, some, [], ◌==◌, arith, u32, Bool-cases,
}
use risky.Page.{page_size, phys_to_virt}
use risky.Pmm.Invariant.{View}
use risky.Paging.{Paging, Layout, map_walk, paging_map_one, paging_map_page}
use risky.Paging.Kept.{IsMapping, Kept, map_walk-Kept}
use risky.Paging.Translate.{translate, same_page}
use risky.Paging.Space.{Places, IsFit, IsSpace}
use risky.Paging.Covers.{asks, grants}
use risky.Paging.Refines.{IsMapped}
use risky.Paging.Walk.{map_walk-IsMapped}

abbrev pub root_table : Layout → Paging → ℕ
root_table l p = phys_to_virt l.offset p.root_phys

-- The leaf and the physical address that the processor finds for an address.
abbrev pub lookup : Layout → Paging → (virt : ℕ) → Option (ℕ × ℕ)
lookup l p virt = translate l p.words (p.levels - 1) (root_table l p) virt

-- The memory manager is between two calls, and the tables below the root are a tree.
pub record IsAddressSpace (max_pfn : ℕ) (v : View) (l : Layout) (p : Paging) : Type 0 where
  pub is_mapping : IsMapping max_pfn v p
  pub tables : Places
  pub space : IsSpace v l tables p.words
  pub root : tables (root_table l p) ≡ some (p.levels - 1, [])
  pub levels : (1 ≤ p.levels) × (p.levels ≤ 5)

-- The addresses of the page of `virt` lead to the frame at `phys` with what the flags ask for.
abbrev pub Reaches : Layout → (virt phys flags : ℕ) → Paging → Type 0
Reaches l virt phys flags p =
    (virt' : ℕ)
    → same_page p.levels virt virt' ≡ true
    → (entry : ℕ) × (lookup l p virt' ≡ some (entry, phys + virt' % page_size))
      × (grants entry flags ≡ true)

-- The operation returns. Unless it took a table from the pool, there is an address space again,
-- every page but the one of `virt` is translated as before, and so is that one if the operation
-- failed; if not, the page leads to the frame.
pub record IsRemapped (max_pfn : ℕ) (v : View) (l : Layout) (virt phys flags : ℕ) (p : Paging)
    (result : Option (Bool × Paging)) : Type 0 where
  pub value : Bool
  pub state : Paging
  pub returns : result ≡ some (value, state)
  pub kept : (view : View) × IsMapping max_pfn view state
  pub pool_le : p.pool_used ≤ state.pool_used
  pub levels : state.levels ≡ p.levels
  pub is_space : state.pool_used ≡ p.pool_used → (view : View) × IsAddressSpace max_pfn view l state
  pub others :
      state.pool_used ≡ p.pool_used
      → (virt' : ℕ) → (value ≡ false) ⊎ (same_page p.levels virt virt' ≡ false)
      → lookup l state virt' ≡ lookup l p virt'
  pub reaches : state.pool_used ≡ p.pool_used → value ≡ true → Reaches l virt phys flags state

module _ {max_pfn : ℕ} {l : Layout} (fit : IsFit max_pfn l) where
  unchanged-IsRemapped :
      (virt phys flags : ℕ) {v : View} (p : Paging)
      → IsAddressSpace max_pfn v l p
      → IsRemapped max_pfn v l virt phys flags p (some (false, p))
  unchanged-IsRemapped virt phys flags {v} p a = record {
    value = false;
    state = p;
    returns = refl;
    kept = (v, a.is_mapping);
    pool_le = omega arith;
    levels = refl;
    is_space = λ _. (v, a);
    others = λ _ virt' _. refl;
    reaches = λ _ on. absurd (true≢false (sym on));
  }

  walk-IsRemapped :
      (virt phys flags : ℕ) {v : View} (p : Paging)
      → IsAddressSpace max_pfn v l p
      → asks flags ≡ true
      → virt % page_size ≡ 0
      → phys % page_size ≡ 0
      → phys < 2 ^ 56
      → IsRemapped max_pfn v l virt phys flags p
          (map_walk l (p.levels - 1) (root_table l p) virt phys flags p)
  walk-IsRemapped virt phys flags {v} p a asked v_aligned p_aligned small = record {
    value = k.value;
    state = k.state;
    returns = k.returns;
    kept = (k.view, k.is_mapping);
    pool_le = k.pool_le;
    levels = k.levels;
    is_space = λ same.
        let m = mapped same in
        (
          m.view,
          record {
            is_mapping = m.is_mapping;
            tables = m.tables;
            space = m.space;
            root = rw (k.root, k.levels) (m.more _ _ a.root);
            levels = rw k.levels a.levels;
          },
        );
    others = λ same virt' o.
        rw (k.root, k.levels)
          ((mapped same).others (p.levels - 1) (root_table l p) virt' 0 a.root (omega arith)
            (elim o [
              | inl failed ↦ inl failed
              | inr other ↦ inr (ap (λ (n : ℕ). same_page n virt virt') whole ∙ other)
            ]));
    reaches = λ same on virt' page.
        rw (k.root, k.levels)
          ((mapped same).maps on virt'
            (ap (λ (n : ℕ). same_page n virt virt') (whole ∙ sym k.levels) ∙ page));
  }
    where
      whole : suc (p.levels - 1) ≡ p.levels
      whole = omega (arith, a.levels)

      k : Kept max_pfn v p (map_walk l (p.levels - 1) (root_table l p) virt phys flags p)
      k = map_walk-Kept l (p.levels - 1) (root_table l p) virt phys flags p a.is_mapping

      mapped :
          k.state.pool_used ≡ p.pool_used
          → IsMapped max_pfn l
              (p.levels - 1)
              (p.levels - 1)
              (root_table l p)
              virt
              phys
              flags
              a.tables
              p
              (k.value, k.state)
      mapped same =
          map_walk-IsMapped fit
            (record {
              asked = asked;
              few = omega (arith, a.levels);
              v_aligned = v_aligned;
              p_aligned = p_aligned;
              small = small;
            })
            (p.levels - 1) (root_table l p) 0 p a.is_mapping a.space a.root (omega arith)
            (k.value, k.state) k.returns same

  -- With fewer than 2^44 frames and an offset of 64 bits at a page boundary: in an address space
  -- whose tables are a tree, with the memory manager between two calls and flags that ask for at
  -- least one right, mapping a page to a physical address below 2^56 returns. Unless a table was
  -- taken from the early pool, there is such an address space again, every page but the mapped one
  -- is translated by the processor as before, a failure changes no translation at all, and after a
  -- success the page leads to the frame, by a leaf that grants what the flags ask for.
  pub map_page-IsRemapped :
      (virt phys flags : ℕ) {v : View} (p : Paging)
      → IsAddressSpace max_pfn v l p
      → asks flags ≡ true
      → phys < 2 ^ 56
      → IsRemapped max_pfn v l virt phys flags p (paging_map_page l virt phys flags p)
  unfolding paging_map_page paging_map_one
  map_page-IsRemapped virt phys flags p a asked small =
      elim (Bool-cases
        (not (virt % page_size == 0) || (not (phys % page_size == 0) || (p.root_phys == 0)))) [
          | inl bad ↦ rw bad (unchanged-IsRemapped virt phys flags p a)
          | inr good ↦
              let top : u32 (p.levels + (2 ^ 32 - 1)) ≡ p.levels - 1 = omega (arith, a.levels) in
              rw (good, top)
                (walk-IsRemapped virt phys flags p a asked (ground arith) (ground arith) small)
        ]
