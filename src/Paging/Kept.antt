-- ===== src/Paging/Kept.antt =====
-- Mapping takes tables from the memory manager: it never faults, and leaves that one in order.
use risky.Base.{
  ℕ, zero, suc, bit_and, ◌≤◌, ◌≡◌, inl, inr, refl, ◌∙◌, true, false, ◌&&◌, Option, none, some, leb,
  ◌==◌, arith, Bool-cases, Option-cases,
}
use risky.Page.{phys_to_virt}
use risky.Pfndb.{pfndb_page_to_phys}
use risky.Pmm.{Pmm, page_alloc}
use risky.Pmm.Invariant.{View, Keeps, Keeps-trans}
use risky.Pmm.Ready.{IsReady}
use risky.Pmm.Alloc.{page_alloc_lem}
use risky.Paging.{
  pte_v, install_table, slot, paging_level_index, has_bits, paging_entry_covers, rwx,
  paging_pte_to_phys, Paging, Layout, clear_table, pool_tables, alloc_early, paging_alloc_table,
  map_leaf, map_enter, map_walk,
}

-- The memory manager is between two calls, and no more tables are taken from the pool than it has.
pub record IsMapping (max_pfn : ℕ) (v : View) (p : Paging) : Type 0 where
  pub is_ready : IsReady max_pfn v p.pmm
  pub pool : p.pool_used ≤ pool_tables

-- The operation does not fault, the used and reserved blocks of memory stay, and so do the root
-- and the number of levels.
pub record Kept {A : Type 0} (max_pfn : ℕ) (v : View) (p : Paging) (result : Option (A × Paging))
    : Type 0 where
  pub value : A
  pub state : Paging
  pub view : View
  pub returns : result ≡ some (value, state)
  pub is_mapping : IsMapping max_pfn view state
  pub keeps : Keeps v view
  pub root : state.root_phys ≡ p.root_phys
  pub levels : state.levels ≡ p.levels
  pub pool_le : p.pool_used ≤ state.pool_used

-- A table in the page that the memory manager gave.
abbrev pub table_of : Layout → ℕ → Pmm → Paging → Option ℕ × Paging
table_of l page s p =
    let table = phys_to_virt l.offset (pfndb_page_to_phys s.db (some page)) in
    (some table, record p { pmm = s; words = clear_table table p.words })

module _ {max_pfn : ℕ} where
  pub here-Kept :
      {A : Type 0} {v : View} {p : Paging} (a : A)
      → IsMapping max_pfn v p
      → Kept max_pfn v p (some (a, p))
  here-Kept {v = v} {p = p} a h = record {
    value = a;
    state = p;
    view = v;
    returns = refl;
    is_mapping = h;
    keeps = λ q o e b. (e, refl);
    root = refl;
    levels = refl;
    pool_le = omega arith;
  }

  pub early-IsMapping :
      (l : Layout) {v : View} {p : Paging}
      → IsMapping max_pfn v p
      → IsMapping max_pfn v (alloc_early l p).1
        × ((alloc_early l p).1.root_phys ≡ p.root_phys)
        × ((alloc_early l p).1.levels ≡ p.levels)
        × (p.pool_used ≤ (alloc_early l p).1.pool_used)
  unfolding alloc_early
  early-IsMapping l {p = p} h = elim (Bool-cases (leb pool_tables p.pool_used)) [
    | inl full ↦ rw full (h, refl, refl, omega arith)
    | inr room ↦
        rw room
          (record { is_ready = h.is_ready; pool = ground (arith, h.pool) }, refl, refl, omega arith)
  ]

  -- The table is in the page that the memory manager gives, or comes from the pool.
  pub alloc_table_taken :
      (l : Layout) {v : View} {p : Paging}
      → IsMapping max_pfn v p
      → (page : ℕ) (s : Pmm) → page_alloc 0 p.pmm ≡ some (some page, s)
      → paging_alloc_table l p ≡ some (table_of l page s p)
  unfolding paging_alloc_table
  alloc_table_taken l h page s e = ground (arith, h.is_ready.ready)

  pub alloc_table_early :
      (l : Layout) {v : View} {p : Paging}
      → IsMapping max_pfn v p
      → page_alloc 0 p.pmm ≡ some (none, p.pmm)
      → paging_alloc_table l p ≡ some (alloc_early l p)
  unfolding paging_alloc_table
  alloc_table_early l h e = ground (arith, h.is_ready.ready)

  -- Taking a table keeps the state of the memory manager in order.
  pub alloc_table-Kept :
      (l : Layout) {v : View} (p : Paging)
      → IsMapping max_pfn v p
      → Kept max_pfn v p (paging_alloc_table l p)
  alloc_table-Kept l {v} p h = elim (page_alloc_lem h.is_ready 0 (omega arith)) [
    | inl a ↦ rw (alloc_table_taken l h a.page a.state a.returns) (record {
      value = (table_of l a.page a.state p).0;
      state = (table_of l a.page a.state p).1;
      view = a.view;
      returns = refl;
      is_mapping = record { is_ready = a.is_ready; pool = h.pool };
      keeps = a.keeps;
      root = refl;
      levels = refl;
      pool_le = omega arith;
    })
    | inr x ↦
        let e = early-IsMapping l h in
        rw (alloc_table_early l h x.returns) (record {
          value = (alloc_early l p).0;
          state = (alloc_early l p).1;
          view = v;
          returns = refl;
          is_mapping = e.0;
          keeps = λ q o e b. (e, refl);
          root = e.1;
          levels = e.2;
          pool_le = e.3;
        })
  ]

  -- One operation after another.
  pub then-Kept :
      {A B : Type 0} {v : View} {p : Paging} {r : Option (A × Paging)} {r' : Option (B × Paging)}
      → (k : Kept max_pfn v p r) → Kept max_pfn k.view k.state r'
      → Kept max_pfn v p r'
  then-Kept {v = v} k m = record {
    value = m.value;
    state = m.state;
    view = m.view;
    returns = m.returns;
    is_mapping = m.is_mapping;
    keeps = Keeps-trans v k.view m.view k.keeps m.keeps;
    root = m.root ∙ k.root;
    levels = m.levels ∙ k.levels;
    pool_le = omega (arith, k.pool_le, m.pool_le);
  }

  -- A write to a table.
  write-Kept :
      {A : Type 0} {v : View} {p : Paging} (a : A) (words : ℕ → ℕ)
      → IsMapping max_pfn v p
      → Kept max_pfn v p (some (a, record p { words = words }))
  write-Kept {v = v} {p = p} a words h = record {
    value = a;
    state = record p { words = words };
    view = v;
    returns = refl;
    is_mapping = record { is_ready = h.is_ready; pool = h.pool };
    keeps = λ q o e b. (e, refl);
    root = refl;
    levels = refl;
    pool_le = omega arith;
  }

  map_enter-Kept :
      (l : Layout) (at : ℕ) {v : View} (p : Paging)
      → IsMapping max_pfn v p
      → Kept max_pfn v p (map_enter l at p)
  unfolding map_enter
  map_enter-Kept l at {v} p h = elim (Bool-cases (bit_and (p.words at) pte_v == 0)) [
    | inr valid ↦ rw valid (here-Kept (some (p.words at)) h)
    | inl invalid ↦
        let k = alloc_table-Kept l p h in
        rw (invalid, k.returns) (then-Kept k (install-Kept k.value k.state k.is_mapping))
  ]
    where
      install-Kept :
          (table : Option ℕ) (p' : Paging) {w : View}
          → IsMapping max_pfn w p'
          → Kept max_pfn w p' (some (install_table l at table p'))
      install-Kept none p' m = unfold install_table in here-Kept none m
      install-Kept (some table) p' m = unfold install_table in write-Kept _ _ m

  map_leaf-Kept :
      (table virt phys flags : ℕ) {v : View} (p : Paging)
      → IsMapping max_pfn v p
      → Kept max_pfn v p (some (map_leaf table virt phys flags p))
  unfolding map_leaf
  map_leaf-Kept table virt phys flags {v} p h =
      let at = slot table (paging_level_index virt 0) in
      elim (Bool-cases
        (has_bits (p.words at) pte_v && paging_entry_covers (p.words at) virt phys flags 0)) [
          | inl covered ↦ rw covered (here-Kept true h)
          | inr open_slot ↦ rw open_slot (write-Kept true _ h)
        ]

  pub map_walk-Kept :
      (l : Layout) (level table virt phys flags : ℕ) {v : View} (p : Paging)
      → IsMapping max_pfn v p
      → Kept max_pfn v p (map_walk l level table virt phys flags p)
  unfolding map_walk
  map_walk-Kept l zero table virt phys flags p h = map_leaf-Kept table virt phys flags p h
  map_walk-Kept l (suc level) table virt phys flags p h =
      let k = map_enter-Kept l (slot table (paging_level_index virt (suc level))) p h in
      elim (Option-cases k.value) [
        | inl out ↦ rw (k.returns, map_walk, out) (then-Kept k (here-Kept false k.is_mapping))
        | inr (entry, on) ↦
            let next =
              map_walk-Kept l level (phys_to_virt l.offset (paging_pte_to_phys entry)) virt phys
                flags k.state k.is_mapping in
            rw (k.returns, map_walk, on)
              (then-Kept k (elim (Bool-cases (has_bits entry rwx)) [
                | inl leaf ↦ rw leaf (here-Kept _ k.is_mapping)
                | inr branch ↦ rw branch next
              ]))
      ]
