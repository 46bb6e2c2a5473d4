-- ===== src/Pfndb/Lookup.antt =====
-- The conversions between frame numbers, pages and physical addresses.
use risky.Base.{ℕ, ◌+◌, ◌*◌, ◌^◌, ◌≤◌, ◌<◌, ◌≡◌, true, none, some, arith}
use risky.Page.{page_size}
use risky.Pfndb.{
  Pfndb, no_pfn, pfndb_get_page, pfndb_get_pfn, pfndb_page_to_phys, pfndb_phys_to_page,
}

pub get_page_in :
    (db : Pfndb) (pfn : ℕ) → db.present ≡ true → pfn ≤ db.max_pfn → pfndb_get_page db pfn ≡ some pfn
unfolding pfndb_get_page
get_page_in db pfn h k = ground arith

pub get_page_out : (db : Pfndb) (pfn : ℕ) → db.max_pfn < pfn → pfndb_get_page db pfn ≡ none
unfolding pfndb_get_page
get_page_out db pfn k = ground arith

pub get_pfn_in :
    (db : Pfndb) (pfn : ℕ)
    → db.present ≡ true
    → pfn ≤ db.max_pfn
    → pfndb_get_pfn db (some pfn) ≡ pfn
unfolding pfndb_get_pfn
get_pfn_in db pfn h k = ground arith

-- On a database of at most 2 ^ 52 frames, a frame number that is in range survives the way to
-- its page and back, and the way to its physical address and back; every address inside the
-- frame leads to the same page.
pub pfn_round_trips :
    (db : Pfndb) (pfn within : ℕ)
    → db.present ≡ true
    → db.max_pfn < 2 ^ 52
    → pfn ≤ db.max_pfn
    → within < page_size
    → (pfndb_get_pfn db (pfndb_get_page db pfn) ≡ pfn)
      × (pfndb_page_to_phys db (pfndb_get_page db pfn) ≡ pfn * page_size)
      × (pfndb_phys_to_page db (pfn * page_size + within) ≡ pfndb_get_page db pfn)
unfolding pfndb_get_page pfndb_get_pfn pfndb_page_to_phys pfndb_phys_to_page
pfn_round_trips db pfn within h small k w = (ground arith, ground arith, ground arith)

-- For a frame number past the last one no page is handed out, by number or by address, and the
-- null page has the number -1 and the address 0.
pfn_out_of_range :
    (db : Pfndb) (pfn : ℕ)
    → db.max_pfn < pfn
    → (pfndb_get_page db pfn ≡ none)
      × (pfndb_get_pfn db (pfndb_get_page db pfn) ≡ no_pfn)
      × (pfndb_page_to_phys db (pfndb_get_page db pfn) ≡ 0)
      × (pfndb_phys_to_page db (pfn * page_size) ≡ none)
unfolding pfndb_get_page pfndb_get_pfn pfndb_page_to_phys pfndb_phys_to_page
pfn_out_of_range db pfn k = (ground arith, ground arith, ground arith, ground arith)
