-- ===== src/Paging/Extend.antt =====
-- `map_enter` on the tree of tables: what it adds changes no translation.
use mathlib.Core.Option.{none-ne-some}
use risky.Base.{
  ℕ, suc, ◌+◌, ◌*◌, ◌≤◌, ◌<◌, ◌≡◌, inl, inr, refl, ap, sym, ◌∙◌, true, false, Option, none, some,
  List, leb, arith, Bool-cases, eq_self,
}
use risky.Page.{page_size, virt_to_phys}
use risky.Pmm.{page_alloc}
use risky.Pmm.Invariant.{View, Keeps}
use risky.Pmm.Alloc.{IsAllocated, page_alloc_lem}
use risky.Paging.{
  Paging, Layout, slot, alloc_early, pool_tables, paging_table_pte, map_enter, install_table,
}
use risky.Paging.Kept.{IsMapping, table_of, alloc_table_taken, alloc_table_early, early-IsMapping}
use risky.Paging.Translate.{is_valid, translate, is_invalid}
use risky.Paging.Space.{Places, IsFit, IsBacked, IsSpace, Keeps-IsBacked}
use risky.Paging.Graft.{IsGraft, grown, graft-translate, graft-IsSpace, grown_more, graft_above}
use risky.Paging.Enter.{
  page_table, page_entry, page_le, table_address, new-IsBacked, installed, installed-IsGraft,
}

-- The state has every table that was there, the words of the tables above a level are as before,
-- and so is every translation.
pub record IsExtended (l : Layout) (level : ℕ) (places : Places) (words : ℕ → ℕ) (view : View)
    (places' : Places) (words' : ℕ → ℕ) : Type 0 where
  pub space : IsSpace view l places' words'
  pub more : (t : ℕ) (x : ℕ × List ℕ) → places t ≡ some x → places' t ≡ some x
  pub above :
      (t j i : ℕ) (path : List ℕ)
      → places t ≡ some (j, path)
      → level < j
      → i < 512
      → words' (slot t i) ≡ words (slot t i)
  pub same :
      (j t virt : ℕ) (path : List ℕ)
      → places t ≡ some (j, path)
      → translate l words' j t virt ≡ translate l words j t virt

-- The memory manager stays in order, and unless a table was taken from the pool, the tree of
-- tables is extended, and the entry is a valid one.
pub record IsEntered (max_pfn : ℕ) (l : Layout) (places : Places) (level at : ℕ) (p : Paging)
    (result : Option (Option ℕ × Paging)) : Type 0 where
  pub value : Option ℕ
  pub state : Paging
  pub view : View
  pub tables : Places
  pub returns : result ≡ some (value, state)
  pub is_mapping : IsMapping max_pfn view state
  pub root : state.root_phys ≡ p.root_phys
  pub levels : state.levels ≡ p.levels
  pub pool_le : p.pool_used ≤ state.pool_used
  pub extended :
      state.pool_used ≡ p.pool_used
      → IsExtended l (suc level) places p.words view tables state.words
  pub entry :
      state.pool_used ≡ p.pool_used
      → (e : ℕ) → value ≡ some e
      → (state.words at ≡ e) × (is_valid e ≡ true)

pub unchanged-IsExtended :
    {l : Layout} {level : ℕ} {places : Places} {words : ℕ → ℕ} {v : View}
    → IsSpace v l places words
    → IsExtended l level places words v places words
unchanged-IsExtended space = record {
  space = space;
  more = λ t x e. e;
  above = λ t j i path e lt k. refl;
  same = λ j t virt path e. refl;
}

Keeps-IsSpace :
    {v v' : View} {l : Layout} {places : Places} {words : ℕ → ℕ}
    → Keeps v v'
    → IsSpace v l places words
    → IsSpace v' l places words
Keeps-IsSpace k space = record {
  backed = λ t x e. Keeps-IsBacked k (space.backed t x e);
  plain = space.plain;
  child = space.child;
}

abbrev or_zero : Option ℕ → ℕ
or_zero none = 0
or_zero (some n) = n

module _ {max_pfn : ℕ} {l : Layout} (fit : IsFit max_pfn l) where
  graft-IsExtended :
      {v : View} {places : Places} {t level i : ℕ} {path : List ℕ} {new : ℕ} {words words' : ℕ → ℕ}
      → IsSpace v l places words
      → IsGraft l places t level i path new words words'
      → IsBacked v l new
      → IsExtended l (suc level) places words v (grown places new level i path) words'
  graft-IsExtended space g b = record {
    space = graft-IsSpace fit space g b;
    more = grown_more fit space g;
    above = λ t j i path e lt k. graft_above fit space g t j i path e lt k;
    same = graft-translate fit space g;
  }

  module _ {v : View} {places : Places} {p : Paging} {level t i : ℕ} {path : List ℕ}
      (h : IsMapping max_pfn v p) (space : IsSpace v l places p.words)
      (here : places t ≡ some (suc level, path)) (index_lt : i < 512) where
    abbrev Entered : Option (Option ℕ × Paging) → Type 0
    Entered = IsEntered max_pfn l places level (slot t i) p

    valid-IsEntered :
        is_valid (p.words (slot t i)) ≡ true → Entered (some (some (p.words (slot t i)), p))
    valid-IsEntered valid = record {
      value = some (p.words (slot t i));
      state = p;
      view = v;
      tables = places;
      returns = refl;
      is_mapping = h;
      root = refl;
      levels = refl;
      pool_le = omega arith;
      extended = λ _. unchanged-IsExtended space;
      entry =
          λ _ e eq. (ap or_zero eq, ap (λ (o : Option ℕ). is_valid (or_zero o)) (sym eq) ∙ valid);
    }

    module _ (empty : is_valid (p.words (slot t i)) ≡ false) where
      taken-IsEntered :
          (a : IsAllocated max_pfn v 0 p.pmm (page_alloc 0 p.pmm))
          → Entered
              (let r = table_of l a.page a.state p in some (install_table l (slot t i) (r.0) (r.1)))
      unfolding install_table
      taken-IsEntered a = rw (table_address fit h space here index_lt empty a) (
          rw (page_entry fit a.page (page_le fit h space here index_lt empty a)) (record {
            value = some (a.page * 1024 + 1);
            state = record p { pmm = a.state; words = installed fit h space here index_lt empty a };
            view = a.view;
            tables = grown places (page_table fit a.page) level i path;
            returns = refl;
            is_mapping = record { is_ready = a.is_ready; pool = h.pool };
            root = refl;
            levels = refl;
            pool_le = omega arith;
            extended = λ _.
                graft-IsExtended (Keeps-IsSpace a.keeps space)
                  (installed-IsGraft fit h space here index_lt empty a)
                  (new-IsBacked fit h space here index_lt empty a);
            entry = λ _ e eq. (
              rw (eq_self (slot t i)) (ap or_zero eq),
              ap (λ (o : Option ℕ). is_valid (or_zero o)) (sym eq) ∙ ground arith,
            );
          }))

      early-IsEntered :
          Entered (let r = alloc_early l p in some (install_table l (slot t i) (r.0) (r.1)))
      unfolding install_table alloc_early
      early-IsEntered = elim (Bool-cases (leb pool_tables p.pool_used)) [
        | inl full ↦ rw full (record {
          value = none;
          state = p;
          view = v;
          tables = places;
          returns = refl;
          is_mapping = h;
          root = refl;
          levels = refl;
          pool_le = omega arith;
          extended = λ _. unchanged-IsExtended space;
          entry = λ _ e eq. absurd (none-ne-some e eq);
        })
        | inr room ↦
            let m = early-IsMapping l h in
            rw room (record {
              value =
                  some
                    (paging_table_pte (virt_to_phys l.offset (l.pool + p.pool_used * page_size)));
              state = _;
              view = v;
              tables = places;
              returns = refl;
              is_mapping = record { is_ready = h.is_ready; pool = ground (arith, h.pool) };
              root = refl;
              levels = refl;
              pool_le = omega arith;
              extended = λ same. absurd (omega arith);
              entry = λ same e eq. absurd (omega arith);
            })
      ]

    -- The entry of a level is made valid without changing any translation.
    pub map_enter-IsEntered : Entered (map_enter l (slot t i) p)
    unfolding map_enter
    map_enter-IsEntered = elim (Bool-cases (is_valid (p.words (slot t i)))) [
      | inl valid ↦ rw (is_invalid (p.words (slot t i)), valid) (valid-IsEntered valid)
      | inr empty ↦
          rw (is_invalid (p.words (slot t i)), empty)
            (elim (page_alloc_lem h.is_ready 0 (omega arith)) [
              | inl a ↦
                  rw (alloc_table_taken l h a.page a.state a.returns) (taken-IsEntered empty a)
              | inr x ↦ rw (alloc_table_early l h x.returns) (early-IsEntered empty)
            ])
    ]
