-- ===== src/Pfndb.antt =====
-- kernel/src/mm/pfndb.c: the page frame database. The statics are the record `Pfndb`, and the
-- array at `g_pfndb` is a function of the frame number. The response of the boot loader is the
-- list of its entries; `none` is a missing response. The messages of `klog` are left out.
pub mod Lookup
pub mod Mark
pub mod Init
pub mod Max
pub mod Storage
pub mod Made
pub mod Sample
pub mod Tests
use risky.Base.{
  ℕ, zero, suc, ◌+◌, ◌-◌, ◌*◌, ◌^◌, Bool, true, false, not, ◌&&◌, ◌||◌, Option, none, some, List,
  [], ◌∷◌, ltb, ◌==◌, if◌then◌else◌, u64, update,
}
use risky.Page.{
  Ptr, Page, page_size, page_align_up, phys_pfn, pfn_phys, page_set_state, flag_free, flag_reserved,
}

-- A `struct limine_memmap_entry`; `usable` is its test `type == LIMINE_MEMMAP_USABLE`.
pub record Entry : Type 0 where
  pub base : ℕ
  pub length : ℕ
  pub usable : Bool

-- `present` is the test `g_pfndb != NULL`.
pub record Pfndb : Type 0 where
  pub present : Bool
  pub phys : ℕ
  pub max_pfn : ℕ
  pub page : ℕ → Page

-- `sizeof(page_t)`, by the alignment of its two pointers.
abbrev pub page_t_size : ℕ
page_t_size = 24

-- `(uint64_t)-1`
abbrev pub no_pfn : ℕ
no_pfn = 2 ^ 64 - 1

abbrev pub zero_page : Page
zero_page = record { flags = 0; order = 0; next = none; prev = none }

unfoldable pub pfndb_storage_size : ℕ → ℕ
pfndb_storage_size max_pfn = page_align_up (u64 ((max_pfn + 1) * page_t_size))

-- `end_pfn` of an entry.
abbrev pub entry_end : Entry → ℕ
entry_end e = phys_pfn (page_align_up (u64 (e.base + e.length)))

unfoldable pub calc_max_pfn_loop : ℕ → List Entry → ℕ
calc_max_pfn_loop max_pfn [] = max_pfn
calc_max_pfn_loop max_pfn (e ∷ es) =
    calc_max_pfn_loop
      (if e.usable && (not (entry_end e == 0) && ltb max_pfn (entry_end e - 1))
        then entry_end e - 1
        else max_pfn)
      es

unfoldable pub pfndb_calc_max_pfn : List Entry → ℕ
pfndb_calc_max_pfn memmap = calc_max_pfn_loop 0 memmap

-- The first usable entry that is large enough gives its front to the database; the result is
-- its old base, with the memory map as it stands then.
unfoldable pub pfndb_reserve_storage : ℕ → List Entry → Option ℕ × List Entry
pfndb_reserve_storage size [] = (none, [])
pfndb_reserve_storage size (e ∷ es) =
    let (phys, es') = pfndb_reserve_storage size es in
    if not e.usable || ltb e.length size
    then (phys, e ∷ es')
    else (some e.base, record e { base = u64 (e.base + size); length = e.length - size } ∷ es)

-- `count` rounds from `pfn` on.
unfoldable pub set_state_loop : (count pfn flags : ℕ) → (ℕ → Page) → ℕ → Page
set_state_loop zero pfn flags page = page
set_state_loop (suc count) pfn flags page =
    set_state_loop count (pfn + 1) flags (update page pfn (page_set_state (page pfn) flags 0))

unfoldable pub pfndb_mark_range : (base length flags : ℕ) → Pfndb → Pfndb
pfndb_mark_range base length flags db =
    let start_pfn = phys_pfn base in
    let end_pfn = phys_pfn (page_align_up (u64 (base + length))) in
    if not db.present || length == 0
    then db
    else if ltb db.max_pfn start_pfn
    then db
    else (let last = if ltb (db.max_pfn + 1) end_pfn then db.max_pfn + 1 else end_pfn in
        record db { page = set_state_loop (last - start_pfn) start_pfn flags db.page })

unfoldable pub mark_usable : List Entry → Pfndb → Pfndb
mark_usable [] db = db
mark_usable (e ∷ es) db =
    mark_usable es (if e.usable then pfndb_mark_range e.base e.length flag_free db else db)

-- `PHYS_TO_VIRT` of the reserved storage is not `NULL`. The pages past `max_pfn` are outside
-- the array and are never read.
unfoldable pub pfndb_fill : List Entry → Pfndb → Pfndb
pfndb_fill memmap db = mark_usable memmap (record db {
  present = true;
  page = set_state_loop (db.max_pfn + 1) 0 flag_reserved (λ _. zero_page);
})

-- Both responses may be missing; the memory map is written to.
unfoldable pub pfndb_init : Option (List Entry) → Option ℕ → Pfndb → Pfndb × Option (List Entry)
pfndb_init none hhdm db = (db, none)
pfndb_init (some memmap) none db = (db, some memmap)
pfndb_init (some memmap) (some offset) db =
    let max_pfn = pfndb_calc_max_pfn memmap in
    let (found, memmap') = pfndb_reserve_storage (pfndb_storage_size max_pfn) memmap in
    let phys : ℕ = elim found [ none ↦ db.phys | some base ↦ base ] in
    let db' : Pfndb = record db { phys = phys; max_pfn = max_pfn } in
    if phys == 0 then (db', some memmap') else (pfndb_fill memmap' db', some memmap')

unfoldable pub pfndb_get_page : Pfndb → ℕ → Ptr
pfndb_get_page db pfn = if not db.present || ltb db.max_pfn pfn then none else some pfn

unfoldable pub pfndb_get_pfn : Pfndb → Ptr → ℕ
pfndb_get_pfn db none = no_pfn
pfndb_get_pfn db (some i) = if not db.present || ltb db.max_pfn i then no_pfn else i

unfoldable pub pfndb_page_to_phys : Pfndb → Ptr → ℕ
pfndb_page_to_phys db page =
    let pfn = pfndb_get_pfn db page in if pfn == no_pfn then 0 else pfn_phys pfn

unfoldable pub pfndb_phys_to_page : Pfndb → ℕ → Ptr
pfndb_phys_to_page db phys =
    let pfn = phys_pfn phys in if ltb db.max_pfn pfn then none else pfndb_get_page db pfn
