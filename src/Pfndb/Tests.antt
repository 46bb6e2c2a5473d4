-- ===== src/Pfndb/Tests.antt =====
-- The page frame database on a small memory map.
use risky.Base.{
  ◌+◌, ◌*◌, ◌%◌, ◌^◌, ◌≤◌, ◌<◌, ◌≡◌, ◌||◌, ◌&&◌, refl, true, false, some, arith, if◌then◌else◌, leb,
  List, [], ◌∷◌,
}
use risky.Page.{page_size, flag_free, page_align_up}
use risky.Page.Align.{page_align_up_bounds}
use risky.Pfndb.{
  Pfndb, Entry, pfndb_init, pfndb_storage_size, calc_max_pfn_loop, pfndb_mark_range,
  pfndb_reserve_storage, pfndb_calc_max_pfn, pfndb_page_to_phys, pfndb_phys_to_page, pfndb_get_page,
  pfndb_get_pfn, zero_page,
}
use risky.Pfndb.Mark.{state_page, touches, pfndb_mark_range_lem}
use risky.Pfndb.Init.{any_offers}
use risky.Pfndb.Max.{calc_max_pfn_covers}
use risky.Pfndb.Storage.{stored, reserve_storage_lem}
use risky.Pfndb.Made.{Cannot, IsMade, pfndb_init-IsMade, pfndb_init_refused}
use risky.Pfndb.Lookup.{pfn_round_trips}
use risky.Pfndb.Sample.{memmap, blank_db, memmap-Fits, memmap-Aligned, memmap-Apart, memmap-found}

abbrev small_db : Pfndb
small_db = record { present = true; phys = 4096; max_pfn = 7; page = λ _. zero_page }

pfndb_mark_range_lem_example :
    (pfndb_mark_range 5000 9000 flag_free small_db).page 3
    ≡ (if touches 5000 9000 3 && leb 3 7 then state_page flag_free else zero_page)
pfndb_mark_range_lem_example =
    pfndb_mark_range_lem 5000 9000 flag_free small_db 3 refl (omega arith) (omega arith)

calc_max_pfn_covers_example :
    (13 ≤ pfndb_calc_max_pfn memmap) × (pfndb_calc_max_pfn memmap < 2 ^ 52)
calc_max_pfn_covers_example = calc_max_pfn_covers memmap 13 memmap-Fits refl

reserve_storage_lem_example :
    (any_offers memmap 2
      ≡ (stored 4096 4096 2 || any_offers (pfndb_reserve_storage 4096 memmap).1 2))
    × ((stored 4096 4096 2 && any_offers (pfndb_reserve_storage 4096 memmap).1 2) ≡ false)
reserve_storage_lem_example =
    reserve_storage_lem {size = 4096} (omega arith) refl memmap 4096 2 memmap-Fits memmap-Aligned
      memmap-Apart (unfold pfndb_reserve_storage in refl)

pfndb_init-IsMade_example : IsMade memmap 4096 (pfndb_init (some memmap) (some 65536) blank_db).0
pfndb_init-IsMade_example =
    pfndb_init-IsMade memmap 65536 4096 blank_db memmap-Fits memmap-Aligned memmap-Apart
      memmap-found (omega arith)

-- Two regions of one page and a reserved one, for a database that takes more than one page.
abbrev tight_memmap : List Entry
tight_memmap =
    record { base = 4096; length = 4096; usable = true }
    ∷ record { base = 8192; length = 4096; usable = false }
    ∷ record { base = 4194304; length = 4096; usable = true }
    ∷ []

tight_memmap-Cannot : Cannot (some tight_memmap) (some 65536)
unfolding pfndb_storage_size pfndb_calc_max_pfn calc_max_pfn_loop
tight_memmap-Cannot = (λ _. omega arith, (λ _. omega arith, (λ _. omega arith, tt)))

pfndb_init_refused_example :
    ((pfndb_init (some tight_memmap) (some 65536) blank_db).0.present ≡ false)
    × ((pfndb_init (some tight_memmap) (some 65536) blank_db).0.page ≡ blank_db.page)
pfndb_init_refused_example =
    pfndb_init_refused (some tight_memmap) (some 65536) blank_db refl tight_memmap-Cannot

pfn_round_trips_example :
    (pfndb_get_pfn small_db (pfndb_get_page small_db 5) ≡ 5)
    × (pfndb_page_to_phys small_db (pfndb_get_page small_db 5) ≡ 5 * page_size)
    × (pfndb_phys_to_page small_db (5 * page_size + 17) ≡ pfndb_get_page small_db 5)
pfn_round_trips_example =
    pfn_round_trips small_db 5 17 refl (omega arith) (omega arith) (omega arith)

page_align_up_bounds_example :
    (page_align_up 5000 % page_size ≡ 0)
    × (5000 ≤ page_align_up 5000)
    × (page_align_up 5000 < 5000 + page_size)
page_align_up_bounds_example = page_align_up_bounds 5000 (omega arith)
