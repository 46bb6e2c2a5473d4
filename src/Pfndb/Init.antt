-- ===== src/Pfndb/Init.antt =====
-- `pfndb_init`: the bound on the frame numbers, and what the database holds when it is made.
use risky.Base.{
  ℕ, ◌+◌, ◌^◌, ◌≤◌, ◌≡◌, inl, inr, refl, ◌∙◌, Bool, true, false, ◌&&◌, ◌||◌, not, ◌==◌, arith,
  if◌then◌else◌, List, [], ◌∷◌, Bool-cases,
}
use risky.Page.{page_size, flag_free, flag_reserved}
use risky.Pfndb.{Pfndb, Entry, zero_page, set_state_loop, pfndb_mark_range, mark_usable, pfndb_fill}
use risky.Pfndb.Mark.{
  state_page, touches, set_state_loop_lem, mark_range-same, pfndb_mark_range_lem,
}

-- The entry is usable and touches the frame.
abbrev pub offers : Entry → ℕ → Bool
offers e q = e.usable && (not (e.length == 0) && touches e.base e.length q)

abbrev pub any_offers : List Entry → ℕ → Bool
any_offers [] q = false
any_offers (e ∷ es) q = offers e q || any_offers es q

-- No rounded end wraps.
abbrev pub Fits : List Entry → Type 0
Fits [] = Unit {0}
Fits (e ∷ es) = (e.base + e.length + page_size ≤ 2 ^ 64) × Fits es

-- The database after one entry of `mark_usable`.
abbrev mark_entry : Entry → Pfndb → Pfndb
mark_entry e db = if e.usable then pfndb_mark_range e.base e.length flag_free db else db

mark_range_empty :
    (base length flags : ℕ) (db : Pfndb) (q : ℕ)
    → length ≡ 0
    → (pfndb_mark_range base length flags db).page q ≡ db.page q
unfolding pfndb_mark_range
mark_range_empty base length flags db q none_left = ground arith

mark_entry_lem :
    (e : Entry) (db : Pfndb) (q : ℕ)
    → db.present ≡ true
    → e.base + e.length + page_size ≤ 2 ^ 64
    → q ≤ db.max_pfn
    → (mark_entry e db).page q ≡ (if offers e q then state_page flag_free else db.page q)
mark_entry_lem e db q present fits le = elim (Bool-cases (e.length == 0)) [
  | inl z ↦ ground (arith, mark_range_empty e.base e.length flag_free db q (ground arith))
  | inr z ↦
      ground
        (arith, pfndb_mark_range_lem e.base e.length flag_free db q present fits (ground arith))
]

mark_entry-same :
    (e : Entry) (db : Pfndb)
    → ((mark_entry e db).present ≡ db.present)
      × ((mark_entry e db).max_pfn ≡ db.max_pfn)
      × ((mark_entry e db).phys ≡ db.phys)
mark_entry-same e db = ground (arith, mark_range-same e.base e.length flag_free db)

pub mark_usable-same :
    (es : List Entry) (db : Pfndb)
    → ((mark_usable es db).present ≡ db.present)
      × ((mark_usable es db).max_pfn ≡ db.max_pfn)
      × ((mark_usable es db).phys ≡ db.phys)
unfolding mark_usable
mark_usable-same [] db = (refl, refl, refl)
mark_usable-same (e ∷ es) db =
    let one = mark_entry-same e db in
    let rest = mark_usable-same es (mark_entry e db) in
    (rest.0 ∙ one.0, rest.1 ∙ one.1, rest.2 ∙ one.2)

mark_usable_lem :
    (es : List Entry) (db : Pfndb) (q : ℕ)
    → db.present ≡ true
    → Fits es
    → q ≤ db.max_pfn
    → (mark_usable es db).page q ≡ (if any_offers es q then state_page flag_free else db.page q)
unfolding mark_usable
mark_usable_lem [] db q present fits le = refl
mark_usable_lem (e ∷ es) db q present fits le =
    let same = mark_entry-same e db in
    let one = mark_entry_lem e db q present (fits.0) le in
    let rest =
      mark_usable_lem es (mark_entry e db) q (same.0 ∙ present) (fits.1) (omega (arith, same.1)) in
    ground (arith, one, rest)

-- The database that the entries are marked on.
abbrev all_reserved : Pfndb → Pfndb
all_reserved db = record db {
  present = true;
  page = set_state_loop (db.max_pfn + 1) 0 flag_reserved (λ _. zero_page);
}

pub fill_page :
    (es : List Entry) (db : Pfndb) (q : ℕ)
    → Fits es
    → q ≤ db.max_pfn
    → (pfndb_fill es db).page q ≡ state_page (if any_offers es q then flag_free else flag_reserved)
unfolding pfndb_fill
fill_page es db q fits le =
    let all = set_state_loop_lem (db.max_pfn + 1) 0 flag_reserved q (λ _. zero_page) in
    let marked = mark_usable_lem es (all_reserved db) q refl fits le in ground (arith, all, marked)

pub fill-same :
    (es : List Entry) (db : Pfndb)
    → ((pfndb_fill es db).present ≡ true)
      × ((pfndb_fill es db).max_pfn ≡ db.max_pfn)
      × ((pfndb_fill es db).phys ≡ db.phys)
unfolding pfndb_fill
fill-same es db = mark_usable-same es (all_reserved db)
