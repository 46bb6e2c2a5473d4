-- ===== src/Pmm/Bringup.antt =====
-- `pfndb_init` and then `pmm_init`, in the order of `kmain`.
use risky.Base.{ℕ, refl, ◌<◌, ◌≡◌, true, Bool-cases, inl, inr, ◌&&◌, not, some, List, arith}
use risky.Pfndb.{Pfndb, Entry, pfndb_init, pfndb_reserve_storage}
use risky.Pfndb.Init.{Fits, any_offers}
use risky.Pfndb.Storage.{Aligned, Apart, stored}
use risky.Pfndb.Made.{IsMade, storage_of, pfndb_init-IsMade}
use risky.Pmm.{Pmm, pmm_init}
use risky.Pmm.Retire.{IsFilled}
use risky.Pmm.Start.{IsStarted, pmm_init-IsStarted}

pub made-IsFilled :
    (memmap : List Entry) (base : ℕ) (db : Pfndb) → IsMade memmap base db → IsFilled db.max_pfn db
made-IsFilled memmap base db made = record {
  present = made.present;
  same_max = refl;
  small = made.small;
  marked = λ q le.
      elim (Bool-cases (any_offers memmap q && not (stored (storage_of memmap) base q))) [
        | inl h ↦ inl (ground (arith, made.pages q le))
        | inr h ↦ inr (ground (arith, made.pages q le))
      ];
}

-- For a memory map whose usable entries start at page boundaries, offer no frame twice and have
-- no rounded end that wraps, and in which the search for the storage finds a region that is not at
-- address 0: on the database that `pfndb_init` makes, `pmm_init` succeeds and the allocator starts
-- with no used block, its free blocks merged, its reserved blocks the reserved frames, and both
-- counters at the number of free frames.
pub boot-IsStarted :
    (memmap : List Entry) (offset base : ℕ) (s : Pmm)
    → Fits memmap
    → Aligned memmap
    → Apart memmap
    → (pfndb_reserve_storage (storage_of memmap) memmap).0 ≡ some base
    → 0 < base
    → (IsMade memmap base (pfndb_init (some memmap) (some offset) s.db).0)
      × ((pmm_init (record s { db = (pfndb_init (some memmap) (some offset) s.db).0 })).0 ≡ true)
      × IsStarted
          (pfndb_init (some memmap) (some offset) s.db).0.max_pfn
          (pfndb_init (some memmap) (some offset) s.db).0
          (pmm_init (record s { db = (pfndb_init (some memmap) (some offset) s.db).0 })).1
boot-IsStarted memmap offset base s fits aligned apart found some_base =
    let db : Pfndb = (pfndb_init (some memmap) (some offset) s.db).0 in
    let made : IsMade memmap base db =
      pfndb_init-IsMade memmap offset base s.db fits aligned apart found some_base in
    let started = pmm_init-IsStarted (record s { db = db }) (made-IsFilled memmap base db made) in
    (made, started.0, started.1)
