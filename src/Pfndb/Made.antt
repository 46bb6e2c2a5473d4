-- ===== src/Pfndb/Made.antt =====
-- `pfndb_init`: the database that it makes, and the cases in which it makes none.
use risky.Base.{
  ℕ, ◌%◌, ◌^◌, ◌≤◌, ◌<◌, ◌≡◌, refl, true, ◌&&◌, not, arith, none, some, Option, if◌then◌else◌, List,
}
use risky.Page.{page_size, flag_free, flag_reserved}
use risky.Pfndb.{
  Pfndb, Entry, pfndb_fill, pfndb_init, pfndb_calc_max_pfn, pfndb_reserve_storage,
  pfndb_storage_size,
}
use risky.Pfndb.Mark.{state_page}
use risky.Pfndb.Init.{any_offers, Fits, fill_page, fill-same}
use risky.Pfndb.Max.{calc_max_pfn-lt}
use risky.Pfndb.Storage.{
  Aligned, Apart, NoRoom, stored, reserve-Fits, reserve-NoRoom, reserve_storage_lem,
}

-- The bytes that the database takes for a memory map.
abbrev pub storage_of : List Entry → ℕ
storage_of memmap = pfndb_storage_size (pfndb_calc_max_pfn memmap)

-- The database for `memmap`, with its own storage at `base`.
pub record IsMade (memmap : List Entry) (base : ℕ) (db : Pfndb) : Type 0 where
  pub present : db.present ≡ true
  pub phys : db.phys ≡ base
  pub same_max : db.max_pfn ≡ pfndb_calc_max_pfn memmap
  pub small : db.max_pfn < 2 ^ 52
  pub pages :
      (q : ℕ)
      → q ≤ db.max_pfn
      → db.page q
        ≡ state_page (
            if any_offers memmap q && not (stored (storage_of memmap) base q)
            then flag_free
            else flag_reserved)

storage_size_lem :
    (max_pfn : ℕ)
    → max_pfn < 2 ^ 52
    → (0 < pfndb_storage_size max_pfn) × (pfndb_storage_size max_pfn % page_size ≡ 0)
unfolding pfndb_storage_size
storage_size_lem max_pfn small = (omega arith, omega arith)

init_enters :
    (memmap : List Entry) (offset base : ℕ) (db : Pfndb)
    → (pfndb_reserve_storage (storage_of memmap) memmap).0 ≡ some base
    → 0 < base
    → (pfndb_init (some memmap) (some offset) db).0
      ≡ pfndb_fill
          (pfndb_reserve_storage (storage_of memmap) memmap).1
          (record db { phys = base; max_pfn = pfndb_calc_max_pfn memmap })
unfolding pfndb_init
init_enters memmap offset base db found some_base = ground (arith, found)

-- For a memory map whose usable entries start at page boundaries, offer no frame twice and have
-- no rounded end that wraps: when the search for the storage finds a region, which is not at
-- address 0, `pfndb_init` makes the database. It covers the frames up to the computed bound, and
-- a page of it is free exactly if a usable entry touches the frame and the database does not
-- lie in it; every other page is reserved.
pub pfndb_init-IsMade :
    (memmap : List Entry) (offset base : ℕ) (db : Pfndb)
    → Fits memmap
    → Aligned memmap
    → Apart memmap
    → (pfndb_reserve_storage (storage_of memmap) memmap).0 ≡ some base
    → 0 < base
    → IsMade memmap base (pfndb_init (some memmap) (some offset) db).0
pfndb_init-IsMade memmap offset base db fits aligned apart found some_base =
    let max_pfn = pfndb_calc_max_pfn memmap in
    let rest : List Entry = (pfndb_reserve_storage (storage_of memmap) memmap).1 in
    let blank : Pfndb = record db { phys = base; max_pfn = max_pfn } in
    let size = storage_size_lem max_pfn (calc_max_pfn-lt memmap) in
    let same = fill-same rest blank in
    rw (init_enters memmap offset base db found some_base) (record {
      present = same.0;
      phys = same.2;
      same_max = same.1;
      small = omega (arith, same.1, (calc_max_pfn-lt memmap));
      pages = λ q le.
          let taken =
            reserve_storage_lem (size.0) (size.1) memmap base q fits aligned apart found in
          let filled =
            fill_page rest blank q (reserve-Fits (storage_of memmap) memmap fits)
              (omega (arith, same.1)) in
          ground (arith, taken, filled);
    })

-- A response is missing, or no usable region has as many bytes as the database takes.
abbrev pub Cannot : Option (List Entry) → Option ℕ → Type 0
Cannot none hhdm = Unit {0}
Cannot (some es) none = Unit {0}
Cannot (some es) (some offset) = NoRoom (storage_of es) es

-- When the memory map or the offset is missing, or every usable region of the memory map has fewer
-- bytes than the database takes for it, and no storage was set before, no database appears and no
-- page is touched.
pub pfndb_init_refused :
    (memmap : Option (List Entry)) (hhdm : Option ℕ) (db : Pfndb)
    → db.phys ≡ 0
    → Cannot memmap hhdm
    → ((pfndb_init memmap hhdm db).0.present ≡ db.present)
      × ((pfndb_init memmap hhdm db).0.page ≡ db.page)
unfolding pfndb_init
pfndb_init_refused none hhdm db blank why = (refl, refl)
pfndb_init_refused (some es) none db blank why = (refl, refl)
pfndb_init_refused (some es) (some offset) db blank why =
    ground (arith, reserve-NoRoom (storage_of es) es why, blank)
