-- ===== src/Pfndb/Sample.antt =====
-- A small memory map: nine pages of memory after the first, then a device, then two more pages.
use risky.Base.{◌≡◌, refl, true, false, some, List, [], ◌∷◌, arith}
use risky.Pfndb.{
  Pfndb, Entry, zero_page, pfndb_reserve_storage, pfndb_calc_max_pfn, calc_max_pfn_loop,
  pfndb_storage_size,
}
use risky.Pfndb.Init.{Fits}
use risky.Pfndb.Storage.{Aligned, Apart}
use risky.Pfndb.Made.{storage_of}

abbrev pub memmap : List Entry
memmap =
    record { base = 4096; length = 36864; usable = true }
    ∷ record { base = 40960; length = 8192; usable = false }
    ∷ record { base = 49152; length = 8192; usable = true }
    ∷ []

abbrev pub blank_db : Pfndb
blank_db = record { present = false; phys = 0; max_pfn = 0; page = λ _. zero_page }

pub memmap-Fits : Fits memmap
memmap-Fits = (omega arith, (omega arith, (omega arith, tt)))

pub memmap-Aligned : Aligned memmap
memmap-Aligned = (λ _. refl, (λ _. refl, (λ _. refl, tt)))

pub memmap-Apart : Apart memmap
memmap-Apart = (λ q h. ground arith, (λ q h. ground arith, (λ q h. ground arith, tt)))

pub memmap-found : (pfndb_reserve_storage (storage_of memmap) memmap).0 ≡ some 4096
unfolding pfndb_reserve_storage pfndb_calc_max_pfn calc_max_pfn_loop pfndb_storage_size
memmap-found = refl
