-- ===== src/Pfndb/Mark.antt =====
-- `pfndb_mark_range`: which pages are written, and what they become.
use risky.Base.{
  ℕ, zero, suc, ◌+◌, ◌-◌, ◌^◌, ◌≤◌, ◌<◌, ◌≡◌, Bool, true, ◌&&◌, ltb, leb, arith, none, u64, ◌/◌,
  update, if◌then◌else◌,
}
use risky.Page.{Page, page_size, page_set_state, phys_pfn, page_align_up}
use risky.Pfndb.{Pfndb, set_state_loop, pfndb_mark_range}

abbrev pub state_page : ℕ → Page
state_page flags = record { flags = flags; order = 0; next = none; prev = none }

-- The frames from `first` up to `last`, without `last`.
abbrev pub within : (first last q : ℕ) → Bool
within first last q = leb first q && ltb q last

pub set_state_loop_lem :
    (count pfn flags q : ℕ) (page : ℕ → Page)
    → set_state_loop count pfn flags page q
      ≡ (if within pfn (pfn + count) q then state_page flags else page q)
unfolding set_state_loop
set_state_loop_lem zero pfn flags q page = ground arith
set_state_loop_lem (suc count) pfn flags q page = ground (
  arith,
  set_state_loop_lem count (pfn + 1) flags q (update page pfn (page_set_state (page pfn) flags 0)),
)

-- The frames that a region of memory touches.
abbrev pub touches : (base length q : ℕ) → Bool
touches base length q = within (base / page_size) ((base + length + page_size - 1) / page_size) q

pub mark_range-same :
    (base length flags : ℕ) (db : Pfndb)
    → ((pfndb_mark_range base length flags db).present ≡ db.present)
      × ((pfndb_mark_range base length flags db).max_pfn ≡ db.max_pfn)
      × ((pfndb_mark_range base length flags db).phys ≡ db.phys)
unfolding pfndb_mark_range
mark_range-same base length flags db = ground arith

-- On a database that is there, marking a region whose rounded end does not wrap sets exactly the
-- pages of the frames that the region touches and that are not past `max_pfn`. Every other page is
-- left as it is, those past the bound of the database included. The region is not empty.
pub pfndb_mark_range_lem :
    (base length flags : ℕ) (db : Pfndb) (q : ℕ)
    → db.present ≡ true
    → base + length + page_size ≤ 2 ^ 64
    → 0 < length
    → (pfndb_mark_range base length flags db).page q
      ≡ (if touches base length q && leb q db.max_pfn then state_page flags else db.page q)
unfolding pfndb_mark_range
pfndb_mark_range_lem base length flags db q present fits some_length =
    let top : u64 (base + length) ≡ base + length = omega arith in
    let end : phys_pfn (page_align_up (u64 (base + length)))
        ≡ (base + length + page_size - 1) / page_size =
      omega arith in
    rw (end) (
      ground (
        arith,
        present,
        set_state_loop_lem
            ((if ltb (db.max_pfn + 1) ((base + length + page_size - 1) / page_size)
                then db.max_pfn + 1
                else ((base + length + page_size - 1) / page_size))
              - base / page_size)
            (base / page_size) flags q db.page,
      ))
