-- ===== src/Paging/Spans.antt =====
-- `map_pages` and `paging_map_range` as an update of the translation of addresses.
use mathlib.Core.Bool.{true≢false}
use mathlib.Core.Path.{subst}
use native.Mathlib.Decide.{dec_lt}
use risky.Base.{
  ℕ, zero, suc, ◌+◌, ◌-◌, ◌*◌, ◌/◌, ◌%◌, ◌^◌, ◌≤◌, ◌<◌, ◌≡◌, inl, inr, refl, ap, sym, ◌∙◌, Bool,
  true, false, Option, some, ◌==◌, arith, u64, Bool-cases,
}
use risky.Page.{page_size, page_align_up}
use risky.Pmm.Invariant.{View}
use risky.Paging.{Paging, Layout, and_then, map_pages, paging_map_range, paging_level_block_size}
use risky.Paging.Kept.{Kept}
use risky.Paging.Ranges.{map_pages-Kept}
use risky.Paging.Translate.{same_page}
use risky.Paging.Space.{IsFit}
use risky.Paging.Covers.{asks, grants}
use risky.Paging.Trail.{same_page_within, pages_apart}
use risky.Paging.Remap.{IsAddressSpace, IsRemapped, lookup, map_page-IsRemapped}

-- The page of `virt'` is none of the pages of the range.
abbrev pub Avoids : (levels virt size virt' : ℕ) → Type 0
Avoids levels virt size virt' = (x : ℕ) → x < size → same_page levels (virt + x) virt' ≡ false

-- The operation returns. Unless it took a table from the pool, there is an address space again,
-- pages outside the range are translated as before, and if the operation succeeded, every address
-- of the range leads to the same place of the physical range, with what the flags ask for.
pub record IsSpanned (max_pfn : ℕ) (l : Layout) (virt phys size flags : ℕ) (p : Paging)
    (result : Option (Bool × Paging)) : Type 0 where
  pub value : Bool
  pub state : Paging
  pub returns : result ≡ some (value, state)
  pub pool_le : p.pool_used ≤ state.pool_used
  pub levels : state.levels ≡ p.levels
  pub is_space : state.pool_used ≡ p.pool_used → (view : View) × IsAddressSpace max_pfn view l state
  pub others :
      state.pool_used ≡ p.pool_used
      → (virt' : ℕ) → Avoids p.levels virt size virt'
      → lookup l state virt' ≡ lookup l p virt'
  pub reaches :
      state.pool_used ≡ p.pool_used
      → value ≡ true
      → (x : ℕ) → x < size
      → (entry : ℕ) × (lookup l state (virt + x) ≡ some (entry, phys + x))
        × (grants entry flags ≡ true)

module _ {max_pfn : ℕ} {l : Layout} (fit : IsFit max_pfn l) (flags : ℕ)
    (asked : asks flags ≡ true) where
  none-IsSpanned :
      (virt phys : ℕ) {v : View} (p : Paging)
      → IsAddressSpace max_pfn v l p
      → IsSpanned max_pfn l virt phys 0 flags p (some (true, p))
  none-IsSpanned virt phys {v} p a = record {
    value = true;
    state = p;
    returns = refl;
    pool_le = omega arith;
    levels = refl;
    is_space = λ _. (v, a);
    others = λ _ virt' _. refl;
    reaches = λ _ on x lt. absurd (omega arith);
  }

  -- The first page could not be mapped.
  failed-IsSpanned :
      (virt phys size : ℕ) {v : View} (p : Paging) {r : Option (Bool × Paging)}
      (rest : Paging → Option (Bool × Paging)) (m : IsRemapped max_pfn v l virt phys flags p r)
      → m.value ≡ false
      → IsSpanned max_pfn l virt phys size flags p (and_then r rest)
  failed-IsSpanned virt phys size p rest m failed = record {
    value = false;
    state = m.state;
    returns =
        ap (λ (o : Option (Bool × Paging)). and_then o rest) m.returns
        ∙ ap (λ (b : Bool). and_then (some (b, m.state)) rest) failed;
    pool_le = m.pool_le;
    levels = m.levels;
    is_space = m.is_space;
    others = λ same virt' avoid. m.others same virt' (inl failed);
    reaches = λ _ on. absurd (true≢false (sym on));
  }

  module _ (virt phys : ℕ) {v : View} (p : Paging) {r : Option (Bool × Paging)}
      (rest : Paging → Option (Bool × Paging)) (m : IsRemapped max_pfn v l virt phys flags p r)
      (mapped : m.value ≡ true) where
    and_then_mapped : and_then r rest ≡ rest m.state
    and_then_mapped =
        ap (λ (o : Option (Bool × Paging)). and_then o rest) m.returns
        ∙ ap (λ (b : Bool). and_then (some (b, m.state)) rest) mapped

    -- The first page took a table from the pool.
    early-IsSpanned :
        (size : ℕ) {w : View}
        → (m.state.pool_used == p.pool_used) ≡ false
        → Kept max_pfn w m.state (rest m.state)
        → IsSpanned max_pfn l virt phys size flags p (and_then r rest)
    early-IsSpanned size more k = record {
      value = k.value;
      state = k.state;
      returns = and_then_mapped ∙ k.returns;
      pool_le = omega (arith, m.pool_le, k.pool_le);
      levels = k.levels ∙ m.levels;
      is_space = λ same. absurd (changed same);
      others = λ same virt' _. absurd (changed same);
      reaches = λ same on x lt. absurd (changed same);
    }
      where
        changed : k.state.pool_used ≡ p.pool_used → ⊥
        changed same = ground (arith, m.pool_le, k.pool_le)

    -- The first page and the others.
    next-IsSpanned :
        (size : ℕ)
        → virt % page_size ≡ 0
        → page_size + size ≤ paging_level_block_size p.levels
        → IsSpanned max_pfn l
            (virt + page_size)
            (phys + page_size)
            size
            flags
            m.state
            (rest m.state)
        → IsSpanned max_pfn l virt phys (page_size + size) flags p (and_then r rest)
    next-IsSpanned size aligned fits n = record {
      value = n.value;
      state = n.state;
      returns = and_then_mapped ∙ n.returns;
      pool_le = omega (arith, m.pool_le, n.pool_le);
      levels = n.levels ∙ m.levels;
      is_space = λ same. n.is_space (later same);
      others = λ same virt' avoid.
          n.others (later same) virt' (λ x lt.
            ap (λ (levels : ℕ). same_page levels (virt + page_size + x) virt') m.levels
            ∙ ap (λ (a : ℕ). same_page p.levels a virt') (sum x)
            ∙ avoid (page_size + x) (omega arith))
          ∙ m.others (first same) virt' (
              inr (
                ap (λ (a : ℕ). same_page p.levels a virt') (sym (plus_zero virt))
                ∙ avoid 0 (omega arith)));
      reaches = λ same on x lt. elim (dec_lt x page_size) [
        | yes near ↦ in_first same x near
        | no far ↦ in_rest same on x (omega arith) lt
      ];
    }
      where
        later : n.state.pool_used ≡ p.pool_used → n.state.pool_used ≡ m.state.pool_used
        later same = omega (arith, same, m.pool_le, n.pool_le)

        first : n.state.pool_used ≡ p.pool_used → m.state.pool_used ≡ p.pool_used
        first same = omega (arith, same, m.pool_le, n.pool_le)

        plus_zero : (a : ℕ) → a + 0 ≡ a
        plus_zero a = omega arith

        sum : (x : ℕ) → virt + page_size + x ≡ virt + (page_size + x)
        sum x = omega arith

        -- The other pages leave the first one alone.
        apart : (x : ℕ) → x < page_size → Avoids m.state.levels (virt + page_size) size (virt + x)
        apart x near y lt =
            ap (λ (levels : ℕ). same_page levels (virt + page_size + y) (virt + x)) m.levels
            ∙ ap (λ (a : ℕ). same_page p.levels a (virt + x)) (sum y)
            ∙ pages_apart p.levels virt (page_size + y) (virt + x) aligned (omega arith)
                (omega arith) (same_page_within p.levels virt x aligned near)

        in_first :
            n.state.pool_used ≡ p.pool_used
            → (x : ℕ) → x < page_size
            → (entry : ℕ) × (lookup l n.state (virt + x) ≡ some (entry, phys + x))
              × (grants entry flags ≡ true)
        in_first same x near =
            let (entry, to, granted) =
              m.reaches (first same) mapped (virt + x)
                (same_page_within m.state.levels virt x aligned near) in
            let place : phys + (virt + x) % page_size ≡ phys + x = omega arith in
            (
              entry,
              n.others (later same) (virt + x) (apart x near)
                  ∙ to
                  ∙ ap (λ (a : ℕ). some (entry, a)) place,
              granted,
            )

        in_rest :
            n.state.pool_used ≡ p.pool_used
            → n.value ≡ true
            → (x : ℕ) → page_size ≤ x
            → x < page_size + size
            → (entry : ℕ) × (lookup l n.state (virt + x) ≡ some (entry, phys + x))
              × (grants entry flags ≡ true)
        in_rest same on x far lt =
            let (entry, to, granted) = n.reaches (later same) on (x - page_size) (omega arith) in
            let from : virt + page_size + (x - page_size) ≡ virt + x = omega arith in
            let place : phys + page_size + (x - page_size) ≡ phys + x = omega arith in
            (
              entry,
              ap (lookup l n.state) (sym from) ∙ to ∙ ap (λ (a : ℕ). some (entry, a)) place,
              granted,
            )

  pub map_pages-IsSpanned :
      (count virt phys : ℕ) {v : View} (p : Paging)
      → IsAddressSpace max_pfn v l p
      → virt % page_size ≡ 0
      → virt + count * page_size < 2 ^ 64
      → phys + count * page_size < 2 ^ 56
      → count * page_size ≤ paging_level_block_size p.levels
      → IsSpanned max_pfn l virt phys
          (count * page_size)
          flags
          p
          (map_pages l count virt phys flags p)
  unfolding map_pages
  map_pages-IsSpanned zero virt phys p a aligned v_lt p_lt fits = none-IsSpanned virt phys p a
  map_pages-IsSpanned (suc count) virt phys p a aligned v_lt p_lt fits =
      let m = map_page-IsRemapped fit virt phys flags p a asked (omega arith) in
      let rest = map_pages l count (u64 (virt + page_size)) (u64 (phys + page_size)) flags in
      let v_next : u64 (virt + page_size) ≡ virt + page_size = omega arith in
      let p_next : u64 (phys + page_size) ≡ phys + page_size = omega arith in
      elim (Bool-cases m.value) [
        | inr failed ↦ failed-IsSpanned virt phys _ p rest m failed
        | inl mapped ↦ elim (Bool-cases (m.state.pool_used == p.pool_used)) [
          | inr more ↦
              early-IsSpanned virt phys p rest m mapped _ more
                (map_pages-Kept max_pfn l count _ _ flags _ _ (m.kept.1))
          | inl same ↦
              let all : suc count * page_size ≡ page_size + count * page_size = omega arith in
              let room : page_size + count * page_size ≤ paging_level_block_size p.levels =
                omega arith in
              let n =
                map_pages-IsSpanned count (virt + page_size) (phys + page_size) m.state
                  ((m.is_space (ground arith)).1) (omega arith) (omega arith) (omega arith)
                  (subst (λ (levels : ℕ). count * page_size ≤ paging_level_block_size levels)
                    (sym m.levels) (omega arith)) in
              rw all (
                next-IsSpanned virt phys p rest m mapped (count * page_size) aligned room
                  (rw (v_next, p_next) n))
        ]
      ]

  -- With fewer than 2^44 frames and an offset of 64 bits at a page boundary: in an address space
  -- whose tables are a tree, with the memory manager between two calls and flags that ask for at
  -- least one right, take a range that begins at a page boundary, is no larger than the address
  -- space, and ends below 2^64 and below the physical address 2^56. Mapping it returns. Unless a
  -- table was taken from the early pool, there is such an address space again, pages outside the
  -- range are translated by the processor as before, and after a success every address of the
  -- range, rounded up to pages, leads to the same place of the physical range, by a leaf that
  -- grants what the flags ask for.
  pub map_range-IsSpanned :
      (virt phys size : ℕ) {v : View} (p : Paging)
      → IsAddressSpace max_pfn v l p
      → virt % page_size ≡ 0
      → size + page_size ≤ 2 ^ 64
      → virt + page_align_up size < 2 ^ 64
      → phys + page_align_up size < 2 ^ 56
      → page_align_up size ≤ paging_level_block_size p.levels
      → IsSpanned max_pfn l virt phys
          (page_align_up size)
          flags
          p
          (paging_map_range l virt phys size flags p)
  unfolding paging_map_range
  map_range-IsSpanned virt phys size p a aligned no_wrap v_lt p_lt fits =
      elim (Bool-cases (size == 0)) [
        | inl nothing ↦
            let zero_size : size ≡ 0 = ground arith in rw zero_size (none-IsSpanned virt phys p a)
        | inr something ↦
            let end : u64 (virt + page_align_up size) ≡ virt + page_align_up size = omega arith in
            let count = page_align_up size / page_size in
            let all : count * page_size ≡ page_align_up size = omega arith in
            let rounds : (u64 (virt + page_align_up size) - virt + page_size - 1) / page_size
                ≡ count =
              omega arith in
            rw (something, rounds)
              (subst
                (λ (n : ℕ).
                  IsSpanned max_pfn l virt phys n flags p (map_pages l count virt phys flags p))
                all
                (map_pages-IsSpanned count virt phys p a aligned (omega arith) (omega arith)
                  (omega arith)))
      ]
