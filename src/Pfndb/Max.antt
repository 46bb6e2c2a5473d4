-- ===== src/Pfndb/Max.antt =====
-- `pfndb_calc_max_pfn`: the bound on the frame numbers.
use risky.Base.{
  ℕ, ◌+◌, ◌-◌, ◌^◌, ◌≤◌, ◌<◌, ◌≡◌, inl, inr, true, ◌&&◌, not, ltb, ◌==◌, arith, if◌then◌else◌, List,
  [], ◌∷◌, Bool-cases,
}
use risky.Page.{page_size}
use risky.Pfndb.{Entry, entry_end, calc_max_pfn_loop, pfndb_calc_max_pfn}
use risky.Pfndb.Init.{offers, any_offers, Fits}

-- One round of `calc_max_pfn_loop`.
abbrev raise : Entry → ℕ → ℕ
raise e max_pfn =
    if e.usable && (not (entry_end e == 0) && ltb max_pfn (entry_end e - 1))
    then entry_end e - 1
    else max_pfn

calc_loop_lt : (m : ℕ) (es : List Entry) → m < 2 ^ 52 → calc_max_pfn_loop m es < 2 ^ 52
unfolding calc_max_pfn_loop
calc_loop_lt m [] h = h
calc_loop_lt m (e ∷ es) h = calc_loop_lt (raise e m) es (ground arith)

calc_loop_ge : (m : ℕ) (es : List Entry) → m ≤ calc_max_pfn_loop m es
unfolding calc_max_pfn_loop
calc_loop_ge m [] = omega arith
calc_loop_ge m (e ∷ es) = ground (arith, calc_loop_ge (raise e m) es)

calc_loop_covers :
    (m : ℕ) (es : List Entry) (q : ℕ)
    → Fits es
    → any_offers es q ≡ true
    → q ≤ calc_max_pfn_loop m es
unfolding calc_max_pfn_loop
calc_loop_covers m [] q fits h = ground arith
calc_loop_covers m (e ∷ es) q fits h =
    let fits_one : e.base + e.length + page_size ≤ 2 ^ 64 = fits.0 in
    elim (Bool-cases (offers e q)) [
      | inl here ↦
          let raised : q ≤ raise e m = ground arith in omega (arith, calc_loop_ge (raise e m) es)
      | inr other ↦ calc_loop_covers (raise e m) es q (fits.1) (ground arith)
    ]

pub calc_max_pfn-lt : (es : List Entry) → pfndb_calc_max_pfn es < 2 ^ 52
unfolding pfndb_calc_max_pfn
calc_max_pfn-lt es = calc_loop_lt 0 es (omega arith)

-- Where no rounded end of an entry wraps, the computed bound is at least every frame that a usable
-- entry touches, and it is below 2^52.
pub calc_max_pfn_covers :
    (es : List Entry) (q : ℕ)
    → Fits es
    → any_offers es q ≡ true
    → (q ≤ pfndb_calc_max_pfn es) × (pfndb_calc_max_pfn es < 2 ^ 52)
unfolding pfndb_calc_max_pfn
calc_max_pfn_covers es q fits h = (calc_loop_covers 0 es q fits h, calc_max_pfn-lt es)
