-- ===== src/Paging/Enter.antt =====
-- A table in a page that the memory manager gave, under an entry that was not valid.
use risky.Base.{
  ℕ, suc, ◌+◌, ◌*◌, ◌/◌, ◌%◌, ◌^◌, ◌≤◌, ◌<◌, ◌≡◌, ◌≢◌, inl, inr, refl, ap, sym, ◌∙◌, false, none,
  some, List, arith, update, u64, Option-cases, eq_self, eq_of_ne, bit_or-one,
}
use risky.Page.{page_size, phys_to_virt, virt_to_phys}
use risky.Pfndb.{pfndb_page_to_phys}
use risky.Pfndb.Lookup.{get_page_in, pfn_round_trips}
use risky.Pmm.{page_alloc}
use risky.Pmm.Invariant.{View, is_busy}
use risky.Pmm.Alloc.{IsAllocated}
use risky.Paging.{Paging, Layout, slot, clear_table, paging_table_pte}
use risky.Paging.Kept.{IsMapping}
use risky.Paging.Translate.{is_valid, next_table}
use risky.Paging.Space.{Places, IsFit, IsBacked, IsSpace, backed_aligned, page_unplaced}
use risky.Paging.Graft.{IsGraft}

module _ {max_pfn : ℕ} {l : Layout} (fit : IsFit max_pfn l) where
  -- The entry for the table in a page.
  abbrev pub page_table : (page : ℕ) → ℕ
  page_table page = phys_to_virt l.offset (page * page_size)

  pub page_entry :
      (page : ℕ)
      → page ≤ max_pfn
      → paging_table_pte (virt_to_phys l.offset (page_table page)) ≡ page * 1024 + 1
  page_entry page le =
      let back : virt_to_phys l.offset (page_table page) / 2 ^ 12 ≡ page =
        omega (arith, fit.offset_lt, fit.frames_lt) in
      let field : u64 (page * 2 ^ 10) ≡ page * 2 ^ 10 = omega (arith, fit.frames_lt) in
      rw (back, field) (bit_or-one (page * 2 ^ 10) (omega arith))

  page_leads : (page : ℕ) → page ≤ max_pfn → next_table l (page * 1024 + 1) ≡ page_table page
  page_leads page le =
      let back : (page * 1024 + 1) / 2 ^ 10 % 2 ^ 44 * 2 ^ 12 ≡ page * page_size =
        omega (arith, fit.frames_lt) in
      ap (phys_to_virt l.offset) back

  module _ {v : View} {places : Places} {p : Paging} {level t i : ℕ} {path : List ℕ}
      (h : IsMapping max_pfn v p) (space : IsSpace v l places p.words)
      (here : places t ≡ some (suc level, path)) (index_lt : i < 512)
      (empty : is_valid (p.words (slot t i)) ≡ false)
      (a : IsAllocated max_pfn v 0 p.pmm (page_alloc 0 p.pmm)) where
    pub page_le : a.page ≤ max_pfn
    page_le = omega (arith, a.is_ready.sound.tiling.fits a.page 0 a.begins)

    -- The address that `paging_alloc_table` computes.
    pub table_address :
        phys_to_virt l.offset (pfndb_page_to_phys a.state.db (some a.page)) ≡ page_table a.page
    table_address =
        let sound = a.is_ready.sound in
        let le : a.page ≤ a.state.db.max_pfn = omega (arith, page_le, sound.same_max) in
        let small : a.state.db.max_pfn < 2 ^ 52 = omega (arith, sound.small, sound.same_max) in
        let page = get_page_in a.state.db a.page sound.present le in
        ap (phys_to_virt l.offset) (
          ap (pfndb_page_to_phys a.state.db) (sym page)
          ∙ (pfn_round_trips a.state.db a.page 0 sound.present small le (omega arith)).1)

    pub new-IsBacked : IsBacked a.view l (page_table a.page)
    new-IsBacked = record {
      frame = a.page;
      block = a.page;
      order = 0;
      begins = a.begins;
      busy = ap is_busy a.is_used;
      within = (omega arith, omega arith);
      address = refl;
    }

    unplaced : (t' : ℕ) (x : ℕ × List ℕ) → places t' ≡ some x → t' ≢ page_table a.page
    unplaced t' x e =
        page_unplaced fit h.is_ready.sound a.page (0 + a.above) t' (a.was_free.0) (a.was_free.1)
          (space.backed t' x e)

    fresh : places (page_table a.page) ≡ none
    fresh = elim (Option-cases (places (page_table a.page))) [
      | inl e ↦ e
      | inr (x, e) ↦ absurd (unplaced (page_table a.page) x e refl)
    ]

    abbrev pub cleared : ℕ → ℕ
    cleared = clear_table (page_table a.page) p.words

    abbrev pub installed : ℕ → ℕ
    installed = update cleared (slot t i) (a.page * 1024 + 1)

    -- Clearing the new table leaves the others alone.
    cleared_other :
        (t' : ℕ) (x : ℕ × List ℕ) (i' : ℕ)
        → places t' ≡ some x
        → i' < 512
        → cleared (slot t' i') ≡ p.words (slot t' i')
    cleared_other t' x i' e lt = ground (
      arith,
      backed_aligned fit (space.backed t' x e),
      backed_aligned fit new-IsBacked,
      unplaced t' x e,
    )

    pub installed-IsGraft : IsGraft l places t level i path (page_table a.page) p.words installed
    installed-IsGraft = record {
      here = here;
      index_lt = index_lt;
      empty = empty;
      valid = rw written (ground arith);
      branch = rw written (ground arith);
      plain = rw written (record {
        entry_lt = omega (arith, page_le, fit.frames_lt);
        no_fault = λ n. ground arith;
      });
      leads = rw written (page_leads a.page page_le);
      fresh = fresh;
      zeros = λ i' lt. ground (
        arith,
        backed_aligned fit (space.backed t _ here),
        backed_aligned fit new-IsBacked,
        unplaced t _ here,
      );
      others = λ t' x i' e lt off. rw (eq_of_ne _ _ off) (cleared_other t' x i' e lt);
    }
      where
        written : installed (slot t i) ≡ a.page * 1024 + 1
        written = rw (eq_self (slot t i)) refl
