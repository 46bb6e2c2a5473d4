-- ===== src/Pmm/Retire.antt =====
-- The first loop of `pmm_init`: every usable page becomes used.
use risky.Base.{
  ℕ, zero, suc, ◌+◌, ◌^◌, ◌≤◌, ◌<◌, ◌≡◌, ◌⊎◌, refl, true, ◌==◌, arith, update, inl, inr,
  if◌then◌else◌, ◌∙◌, u64, eq_self, Bool-cases,
}
use risky.Page.{Page, flag_free, flag_used, flag_reserved, page_reset_links, page_set_state}
use risky.Page.Flags.{flags_of_free, flags_of_reserved, retire_flags}
use risky.Pfndb.{Pfndb}
use risky.Pfndb.Lookup.{get_page_in}
use risky.Pmm.{at_page, Pmm, retire_page, init_retire}

-- What `pfndb_init` leaves: every frame up to `max_pfn` is free or reserved.
pub record IsFilled (max_pfn : ℕ) (db : Pfndb) : Type 0 where
  pub present : db.present ≡ true
  pub same_max : db.max_pfn ≡ max_pfn
  pub small : max_pfn < 2 ^ 52
  pub marked :
      (q : ℕ) → q ≤ max_pfn → ((db.page q).flags ≡ flag_free) ⊎ ((db.page q).flags ≡ flag_reserved)

-- The frames from `pfn` on, `count` of them, whose pages are free.
unfoldable pub count_free : (ℕ → Page) → (count pfn : ℕ) → ℕ
count_free page zero pfn = 0
count_free page (suc count) pfn =
    (if (page pfn).flags == flag_free then 1 else 0) + count_free page count (pfn + 1)

pub count_free_le : (page : ℕ → Page) (count pfn : ℕ) → count_free page count pfn ≤ count
unfolding count_free
count_free_le page zero pfn = omega arith
count_free_le page (suc count) pfn = ground (arith, count_free_le page count (pfn + 1))

abbrev pub Retired : Page → Page → Type 0
Retired old new =
    ((new.flags) ≡ (if old.flags == flag_free then flag_used else old.flags)) × (new.order ≡ 0)

abbrev cleared : Page → Page
cleared page = page_reset_links (record page { order = 0 })

at_free :
    (p : ℕ) (s : Pmm)
    → (s.db.page p).flags ≡ flag_free
    → retire_page p s ≡ record s {
      db = record s.db {
        page = update (at_page p cleared s.db).page p (page_set_state (s.db.page p) flag_used 0);
      };
      total_pages = u64 (s.total_pages + 1);
    }
unfolding retire_page
at_free p s e =
    rw (
      eq_self p,
      (flags_of_free (cleared (s.db.page p)) e).0,
      retire_flags (cleared (s.db.page p)) e,
    )

at_reserved :
    (p : ℕ) (s : Pmm)
    → (s.db.page p).flags ≡ flag_reserved
    → retire_page p s ≡ record s { db = at_page p cleared s.db }
unfolding retire_page
at_reserved p s e = rw (eq_self p, (flags_of_reserved (cleared (s.db.page p)) e).0) refl

-- The state after the pages from `pfn` on, `count` of them.
pub record IsRetired (count pfn : ℕ) (s s' : Pmm) : Type 0 where
  pub inside : (q : ℕ) → pfn ≤ q → q < pfn + count → Retired (s.db.page q) (s'.db.page q)
  pub outside : (q : ℕ) → (q < pfn) ⊎ (pfn + count ≤ q) → s'.db.page q ≡ s.db.page q
  pub total : s'.total_pages ≡ u64 (s.total_pages + count_free s.db.page count pfn)
  pub lists : s'.lists ≡ s.lists
  pub free_pages : s'.free_pages ≡ s.free_pages
  pub present : s'.db.present ≡ s.db.present
  pub same_max : s'.db.max_pfn ≡ s.db.max_pfn

retire_page-IsRetired :
    (p : ℕ) (s : Pmm)
    → s.total_pages < 2 ^ 64
    → ((s.db.page p).flags ≡ flag_free) ⊎ ((s.db.page p).flags ≡ flag_reserved)
    → IsRetired 1 p s (retire_page p s)
unfolding count_free
retire_page-IsRetired p s small (inl e) = rw (at_free p s e) (record {
  inside = λ q le lt. ground (arith, e);
  outside = λ q out. ground arith;
  total = ground (arith, e);
  lists = refl;
  free_pages = refl;
  present = refl;
  same_max = refl;
})
retire_page-IsRetired p s small (inr e) = rw (at_reserved p s e) (record {
  inside = λ q le lt. ground (arith, e);
  outside = λ q out. ground arith;
  total = ground (arith, e);
  lists = refl;
  free_pages = refl;
  present = refl;
  same_max = refl;
})

count_free_ext :
    (f g : ℕ → Page) (count pfn : ℕ)
    → ((q : ℕ) → pfn ≤ q → g q ≡ f q)
    → count_free g count pfn ≡ count_free f count pfn
unfolding count_free
count_free_ext f g zero pfn h = refl
count_free_ext f g (suc count) pfn h =
    rw (h pfn (omega arith), count_free_ext f g count (pfn + 1) (λ q le. h q (omega arith)))

IsRetired-trans :
    (count p : ℕ) (s s1 s' : Pmm)
    → IsRetired 1 p s s1
    → IsRetired count (p + 1) s1 s'
    → IsRetired (suc count) p s s'
unfolding count_free
IsRetired-trans count p s s1 s' a b = record {
  inside = λ q le lt. elim (Bool-cases (q == p)) [
    | inl here ↦ rw (b.outside q (inl (ground arith))) (a.inside q le (ground arith))
    | inr after ↦ rw (← a.outside q (inr (ground arith))) (b.inside q (ground arith) (omega arith))
  ];
  outside = λ q out. b.outside q (ground arith) ∙ a.outside q (ground arith);
  total = omega (
    arith,
    a.total,
    b.total,
    count_free_ext s.db.page s1.db.page count (p + 1) (λ q le. a.outside q (inr le)),
  );
  lists = b.lists ∙ a.lists;
  free_pages = b.free_pages ∙ a.free_pages;
  present = b.present ∙ a.present;
  same_max = b.same_max ∙ a.same_max;
}

pub init_retire-IsRetired :
    (count pfn : ℕ) (s : Pmm)
    → s.db.present ≡ true
    → pfn + count ≡ s.db.max_pfn + 1
    → s.total_pages < 2 ^ 64
    → ((q : ℕ)
        → pfn ≤ q
        → q ≤ s.db.max_pfn
        → ((s.db.page q).flags ≡ flag_free) ⊎ ((s.db.page q).flags ≡ flag_reserved))
    → IsRetired count pfn s (init_retire count pfn s)
unfolding init_retire
init_retire-IsRetired zero pfn s present range small marked = record {
  inside = λ q le lt. absurd (omega arith);
  outside = λ q out. refl;
  total = unfold count_free in omega arith;
  lists = refl;
  free_pages = refl;
  present = refl;
  same_max = refl;
}
init_retire-IsRetired (suc count) pfn s present range small marked =
    let one = retire_page-IsRetired pfn s small (marked pfn (omega arith) (omega arith)) in
    rw (get_page_in s.db pfn present (omega arith), init_retire)
      (IsRetired-trans count pfn s (retire_page pfn s) _ one (
        init_retire-IsRetired count (pfn + 1) (retire_page pfn s) (one.present ∙ present)
          (omega (arith, one.same_max)) (omega (arith, one.total))
          (λ q le lt.
            rw (one.outside q (inr le)) (marked q (omega arith) (omega (arith, one.same_max))))))
