-- ===== src/Pmm.antt =====
-- kernel/src/mm/pmm.c: the buddy allocator. The statics are the record `Pmm`, with the page
-- frame database that it writes through. `none` as a result of a step is a fault: a write
-- through a null page pointer. Each `for` and `while` is a recursion on a count of rounds.
pub mod Buddy
pub mod Links
pub mod Lists
pub mod Tiling
pub mod Invariant
pub mod Moves
pub mod Steps
pub mod Halves
pub mod Merge
pub mod Pairs
pub mod Free
pub mod Ready
pub mod Return
pub mod Split
pub mod Alloc
pub mod Cycle
pub mod Retire
pub mod Boot
pub mod Release
pub mod Start
pub mod Bringup
pub mod Sample
pub mod Tests
use risky.Base.{
  ℕ, zero, suc, ◌+◌, ◌-◌, ◌*◌, ◌^◌, bit_xor, Bool, true, false, not, ◌&&◌, ◌||◌, Option, none, some,
  ltb, leb, ◌==◌, if◌then◌else◌, u64, sub64, update,
}
use risky.Page.{
  Ptr, Page, flag_free, flag_used, page_set_state, page_reset_links, page_free, page_used,
  page_reserved, set_page_used, clear_page_free, phys_to_virt, virt_to_phys,
}
use risky.Pfndb.{Pfndb, pfndb_get_page, pfndb_get_pfn, pfndb_page_to_phys, pfndb_phys_to_page}

abbrev pub pmm_max_order : ℕ
pmm_max_order = 10

-- `struct pmm_free_list`
pub record FreeList : Type 0 where
  pub head : Ptr
  pub count : ℕ

abbrev pub empty_list : FreeList
empty_list = record { head = none; count = 0 }

pub record Pmm : Type 0 where
  pub db : Pfndb
  pub lists : ℕ → FreeList
  pub free_pages : ℕ
  pub total_pages : ℕ
  pub ready : Bool

-- `f` applied to the page at index `i`.
abbrev pub at_page : ℕ → (Page → Page) → Pfndb → Pfndb
at_page i f db = record db { page = update db.page i (f (db.page i)) }

-- The same through a pointer that the code has tested; `NULL` is left alone.
abbrev pub at_ptr : Ptr → (Page → Page) → Pfndb → Pfndb
at_ptr none f db = db
at_ptr (some i) f db = at_page i f db

unfoldable pub pmm_prepare_page : ℕ → ℕ → ℕ → Pmm → Pmm
pmm_prepare_page page flags order s = record s {
  db = at_page page (λ p. page_set_state p flags order) s.db;
}

unfoldable pub pmm_list_push : ℕ → ℕ → Pmm → Pmm
pmm_list_push order page s =
    let list = s.lists order in
    let db1 = at_page page page_reset_links s.db in
    let db2 = at_page page (λ p. record p { next = list.head }) db1 in
    let db3 = at_ptr list.head (λ p. record p { prev = some page }) db2 in
    record s {
      db = db3;
      lists = update s.lists order (record { head = some page; count = u64 (list.count + 1) });
    }

unfoldable pub pmm_list_remove : ℕ → ℕ → Pmm → Pmm
pmm_list_remove order page s =
    let list = s.lists order in
    let p = s.db.page page in
    let head : Ptr = elim p.prev [ none ↦ p.next | some _ ↦ list.head ] in
    let db1 = at_ptr p.prev (λ q. record q { next = p.next }) s.db in
    let db2 = at_ptr p.next (λ q. record q { prev = p.prev }) db1 in
    let db3 = at_page page page_reset_links db2 in
    record s {
      db = db3;
      lists = update s.lists order (record { head = head; count = sub64 list.count 1 });
    }

unfoldable pub pmm_buddy_pfn : ℕ → ℕ → ℕ
pmm_buddy_pfn pfn order = bit_xor pfn (2 ^ order)

-- The variables of the loop in `pmm_free_block`.
pub record Block : Type 0 where
  pub pfn : ℕ
  pub page : ℕ
  pub order : ℕ

-- The buddy with which the loop goes on, if it does.
unfoldable pub free_block_buddy : Pmm → Block → Option ℕ
free_block_buddy s b =
    let buddy_pfn = pmm_buddy_pfn b.pfn b.order in
    if ltb s.db.max_pfn buddy_pfn then none else elim (pfndb_get_page s.db buddy_pfn) [
      | none ↦ none
      | some buddy ↦
          if not (page_free (s.db.page buddy)) || not ((s.db.page buddy).order == b.order)
          then none
          else some buddy
    ]

-- The rest of the body of the loop, for that buddy.
unfoldable pub free_block_merge : ℕ → Block → Pmm → Block × Pmm
free_block_merge buddy b s =
    let buddy_pfn = pmm_buddy_pfn b.pfn b.order in
    let s1 = pmm_list_remove b.order buddy s in
    let low = ltb buddy_pfn b.pfn in
    let pfn = if low then buddy_pfn else b.pfn in
    let page = if low then buddy else b.page in
    (
      record { pfn = pfn; page = page; order = b.order + 1 },
      record s1 { db = at_page page (λ p. record p { order = b.order + 1 }) s1.db },
    )

-- `rounds` bounds the rounds of `while (order + 1U < PMM_MAX_ORDER)`.
unfoldable pub free_block_loop : ℕ → Block → Pmm → Block × Pmm
free_block_loop zero b s = (b, s)
free_block_loop (suc rounds) b s =
    if not (ltb (b.order + 1) pmm_max_order) then (b, s) else elim (free_block_buddy s b) [
      | none ↦ (b, s)
      | some buddy ↦
          free_block_loop rounds (free_block_merge buddy b s).0 (free_block_merge buddy b s).1
    ]

-- A page that is not in the database has no number; `page_to_pfn` is then -1.
unfoldable pub pmm_free_block : ℕ → Pmm → Pmm
pmm_free_block page s =
    let start : Block = record {
      pfn = pfndb_get_pfn s.db (some page);
      page = page;
      order = (s.db.page page).order;
    } in
    let (b, s') = free_block_loop pmm_max_order start s in
    pmm_list_push b.order b.page (pmm_prepare_page b.page flag_free b.order s')

-- The bodies of the two loops of `pmm_init` for a page, and the loops over the frame numbers
-- from `pfn` on.
unfoldable pub retire_page : ℕ → Pmm → Pmm
retire_page page s =
    let s1 : Pmm = record s {
      db = at_page page (λ p. page_reset_links (record p { order = 0 })) s.db;
    } in
    if page_free (s1.db.page page)
    then record s1 {
      db = at_page page (λ p. clear_page_free (set_page_used p)) s1.db;
      total_pages = u64 (s1.total_pages + 1);
    }
    else s1

unfoldable pub init_retire : (count pfn : ℕ) → Pmm → Pmm
init_retire zero pfn s = s
init_retire (suc count) pfn s =
    init_retire count (pfn + 1)
      (elim (pfndb_get_page s.db pfn) [ none ↦ s | some page ↦ retire_page page s ])

unfoldable pub release_page : ℕ → Pmm → Pmm
release_page page s =
    if not (page_used (s.db.page page)) || page_reserved (s.db.page page)
    then s
    else pmm_free_block page (record s { free_pages = u64 (s.free_pages + 1) })

unfoldable pub init_release : (count pfn : ℕ) → Pmm → Pmm
init_release zero pfn s = s
init_release (suc count) pfn s =
    init_release count (pfn + 1)
      (elim (pfndb_get_page s.db pfn) [ none ↦ s | some page ↦ release_page page s ])

-- `pmm_init` with its result.
unfoldable pub pmm_init : Pmm → Bool × Pmm
pmm_init s =
    if not s.db.present
    then (false, s)
    else (let s0 : Pmm = record s {
      lists = λ _. empty_list;
      free_pages = 0;
      total_pages = 0;
      ready = false;
    } in
        let s1 = init_retire (s0.db.max_pfn + 1) 0 s0 in
        let s2 = init_release (s1.db.max_pfn + 1) 0 s1 in (true, record s2 { ready = true }))

-- The upper half of `page` goes to the list below, from order `order + rounds` down to `order`.
unfoldable pub alloc_split : (rounds order page : ℕ) → Pmm → Option Pmm
alloc_split zero order page s = some s
alloc_split (suc rounds) order page s =
    let current = order + rounds in
    elim (pfndb_get_page s.db (u64 (pfndb_get_pfn s.db (some page) + 2 ^ current))) [
      | none ↦ none
      | some buddy ↦
          alloc_split rounds order page
            (pmm_list_push current buddy (pmm_prepare_page buddy flag_free current s))
    ]

-- What is done with the head of the list of order `order + above`.
unfoldable pub alloc_take : (above order page : ℕ) → Pmm → Option (Ptr × Pmm)
alloc_take above order page s =
    elim (alloc_split above order page (pmm_list_remove (order + above) page s)) [
      | none ↦ none
      | some s1 ↦
          let s2 = pmm_prepare_page page flag_used order s1 in
          some (some page, record s2 { free_pages = sub64 s2.free_pages (2 ^ order) })
    ]

-- `for (current = order; current < PMM_MAX_ORDER; current++)` at `current = order + above`,
-- with `rounds` rounds left.
unfoldable pub alloc_scan : (rounds above order : ℕ) → Pmm → Option (Ptr × Pmm)
alloc_scan zero above order s = some (none, s)
alloc_scan (suc rounds) above order s = elim (s.lists (order + above)).head [
  | none ↦ alloc_scan rounds (above + 1) order s
  | some page ↦ alloc_take above order page s
]

-- `page_alloc`, with the page, if any.
unfoldable pub page_alloc : ℕ → Pmm → Option (Ptr × Pmm)
page_alloc order s =
    if not s.ready
    then some (none, s)
    else if leb pmm_max_order order
    then some (none, s)
    else alloc_scan (pmm_max_order - order) 0 order s

-- `pmm_alloc` has the same body, and returns the address of the block; 0 is `NULL`.
unfoldable pub pmm_alloc : (offset order : ℕ) → Pmm → Option (ℕ × Pmm)
pmm_alloc offset order s =
    if not s.ready
    then some (0, s)
    else if leb pmm_max_order order
    then some (0, s)
    else elim (alloc_scan (pmm_max_order - order) 0 order s) [
      | none ↦ none
      | some (none, s') ↦ some (0, s')
      | some (some page, s') ↦ some (phys_to_virt offset (pfndb_page_to_phys s'.db (some page)), s')
    ]

-- What `pmm_free` does with the page of its pointer.
unfoldable pub free_page : ℕ → Pmm → Pmm
free_page page s =
    if page_reserved (s.db.page page)
    then s
    else if page_free (s.db.page page)
    then s
    else pmm_free_block page
        (record s { free_pages = u64 (s.free_pages + 2 ^ (s.db.page page).order) })

unfoldable pub pmm_free : (offset ptr : ℕ) → Pmm → Pmm
pmm_free offset ptr s =
    if not s.ready
    then s
    else if ptr == 0
    then s
    else elim (pfndb_phys_to_page s.db (virt_to_phys offset ptr)) [
      | none ↦ s
      | some page ↦ free_page page s
    ]
