-- ===== src/Pmm/Alloc.antt =====
-- `page_alloc`: a block of the wanted order, or the knowledge that there is none.
use risky.Base.{
  ℕ, zero, suc, ◌+◌, ◌-◌, ◌^◌, ◌≤◌, ◌<◌, ◌≡◌, ◌≢◌, ◌⊎◌, refl, sym, ap, true, false, Option, none,
  some, List, [], ◌∷◌, head?, has, ◌==◌, arith, inl, inr, ◌∙◌, sub64, eq_self, Option-cases,
  Bool-cases,
}
use risky.Page.{Ptr, flag_used, phys_to_virt}
use risky.Pfndb.{pfndb_page_to_phys}
use risky.Pmm.{
  Pmm, pmm_alloc, alloc_split, alloc_take, alloc_scan, page_alloc, pmm_prepare_page,
  pmm_list_remove, pmm_max_order,
}
use risky.Pmm.Invariant.{free, used, View, Keeps, weigh, weigh-lt}
use risky.Pmm.Steps.{grab_view, grab-IsSound, rekind_view, settle_used-IsSound}
use risky.Pmm.Merge.{IsHolding, grab-weigh}
use risky.Pmm.Free.{SameRest}
use risky.Pmm.Return.{recount-IsSound}
use risky.Pmm.Ready.{IsReady}
use risky.Pmm.Split.{alloc_split-IsSplit}

-- The page `page` is now a used block of the order, cut from a free block of at least this order;
-- the used and reserved blocks are as before, and the free frames shrink by the block.
pub record IsAllocated (max_pfn : ℕ) (v : View) (order : ℕ) (s : Pmm) (result : Option (Ptr × Pmm))
    : Type 0 where
  pub page : ℕ
  pub state : Pmm
  pub view : View
  pub returns : result ≡ some (some page, state)
  pub is_ready : IsReady max_pfn view state
  pub begins : view.order page ≡ some order
  pub is_used : view.kind page ≡ used
  pub above : ℕ
  pub was_free : (v.order page ≡ some (order + above)) × (v.kind page ≡ free)
  pub keeps : Keeps v view
  pub shrunk : state.free_pages + 2 ^ order ≡ s.free_pages

-- No free block is large enough, and nothing has changed.
pub record IsExhausted (v : View) (order : ℕ) (s : Pmm) (result : Option (Ptr × Pmm)) : Type 0 where
  pub returns : result ≡ some (none, s)
  pub empty : (p above : ℕ) → v.order p ≡ some (order + above) → v.kind p ≢ free

module _ {max_pfn : ℕ} {v : View} {s : Pmm} (h : IsReady max_pfn v s) (order : ℕ) where
  grab-IsHolding :
      (p o : ℕ)
      → v.order p ≡ some o
      → v.kind p ≡ free
      → IsHolding max_pfn (grab_view v p o) p o (pmm_list_remove o p s)
  grab-IsHolding p o e k = record {
    sound = grab-IsSound h.sound p o e k;
    order = e;
    kind = ground (arith, eq_self p);
    only = λ q r f g. ground (arith, h.settled q r f);
  }

  remove_rest : (o p : ℕ) → SameRest s (pmm_list_remove o p s)
  unfolding pmm_list_remove
  remove_rest o p = (refl, refl, refl)

  prepare_rest : (p o : ℕ) (s : Pmm) → SameRest s (pmm_prepare_page p flag_used o s)
  unfolding pmm_prepare_page
  prepare_rest p o s = (refl, refl, refl)

  alloc_take_lem :
      (above p : ℕ) (s1 : Pmm)
      → alloc_split above order p (pmm_list_remove (order + above) p s) ≡ some s1
      → alloc_take above order p s
        ≡ some (
          some p,
          record (pmm_prepare_page p flag_used order s1) {
            free_pages = sub64 (pmm_prepare_page p flag_used order s1).free_pages (2 ^ order);
          },
        )
  unfolding alloc_take
  alloc_take_lem above p s1 e = rw (e, alloc_take)

  alloc_take-IsAllocated :
      (above p : ℕ)
      → v.order p ≡ some (order + above)
      → v.kind p ≡ free
      → IsAllocated max_pfn v order s (alloc_take above order p s)
  alloc_take-IsAllocated above p e k =
      let m = alloc_split-IsSplit above order p _ (grab-IsHolding p (order + above) e k) in
      let s2 : Pmm = pmm_prepare_page p flag_used order m.state in
      let weight : weigh 10 m.view.lists + 2 ^ order ≡ weigh 10 v.lists =
        omega (arith, m.weight, grab-weigh h.sound p (order + above) e k) in
      let fits : weigh 10 v.lists < 2 ^ 63 = weigh-lt h.sound in
      let before : s2.free_pages ≡ weigh 10 v.lists =
        (prepare_rest p order m.state).0
        ∙ m.rest.0
        ∙ (remove_rest (order + above) p).0
        ∙ h.counted in
      rw (alloc_take_lem above p m.state m.returns) (record {
        page = p;
        state = record s2 { free_pages = sub64 s2.free_pages (2 ^ order) };
        view = rekind_view m.view p used;
        returns = refl;
        is_ready = record {
          sound =
              recount-IsSound _ _ _
                (settle_used-IsSound m.holding.sound p order m.holding.order (λ f. cc));
          settled = λ q r f g. ground (arith, m.holding.only q r, eq_self p);
          ready =
              (prepare_rest p order m.state).2
              ∙ m.rest.2
              ∙ (remove_rest (order + above) p).2
              ∙ h.ready;
          counted = omega arith;
        };
        begins = m.holding.order;
        is_used = ground (arith, eq_self p);
        above = above;
        was_free = (e, k);
        keeps = λ q r f g. ground (arith, m.keeps q r f, k);
        shrunk = omega (arith, h.counted);
      })

  pub alloc_scan_lem :
      (rounds above : ℕ)
      → above + rounds ≡ 10 - order
      → ((p k : ℕ) → k < above → v.order p ≡ some (order + k) → v.kind p ≢ free)
      → IsAllocated max_pfn v order s (alloc_scan rounds above order s)
        ⊎ IsExhausted v order s (alloc_scan rounds above order s)
  unfolding alloc_scan
  alloc_scan_lem zero above e none_below = inr (record {
    returns = refl;
    empty = λ p k f. none_below p k (omega (arith, h.sound.tiling.order_lt p (order + k) f)) f;
  })
  alloc_scan_lem (suc rounds) above e none_below =
      elim (Option-cases (s.lists (order + above)).head) [
        | inl empty ↦
            rw (empty, alloc_scan)
              (alloc_scan_lem rounds (above + 1) (omega arith) (none_here above none_below empty))
        | inr (p, found) ↦
            let block = head_is_free (order + above) p found in
            rw (found, alloc_scan) (inl (alloc_take-IsAllocated above p block.0 block.1))
      ]
    where
      head_has : (xs : List ℕ) (p : ℕ) → head? xs ≡ some p → has p xs ≡ true
      head_has [] p e = cc
      head_has (x ∷ xs) p e = ground (arith, eq_self p)

      head_is_free :
          (o p : ℕ) → (s.lists o).head ≡ some p → (v.order p ≡ some o) × (v.kind p ≡ free)
      head_is_free o p e =
          h.sound.members o p (head_has (v.lists o) p (sym ((h.sound.lists o).head) ∙ e))

      empty_has : (xs : List ℕ) (p : ℕ) → head? xs ≡ none → has p xs ≡ false
      empty_has [] p e = refl
      empty_has (x ∷ xs) p e = cc

      none_here :
          (above : ℕ)
          → ((p k : ℕ) → k < above → v.order p ≡ some (order + k) → v.kind p ≢ free)
          → (s.lists (order + above)).head ≡ none
          → (p k : ℕ) → k < above + 1
          → v.order p ≡ some (order + k)
          → v.kind p ≢ free
      none_here above none_below empty p k lt f g = elim (Bool-cases (k == above)) [
        | inr less ↦ none_below p k (ground arith) f g
        | inl same ↦
            let at : k ≡ above = ground arith in
            let out : has p (v.lists (order + above)) ≡ false =
              empty_has (v.lists (order + above)) p
                (sym ((h.sound.lists (order + above)).head) ∙ empty) in
            let inside = h.sound.listed (order + k) p f g in
            cc (sym out, inside, ap (λ (x : ℕ). has p (v.lists (order + x))) at)
      ]

  page_alloc-scan :
      order < pmm_max_order → page_alloc order s ≡ alloc_scan (pmm_max_order - order) 0 order s
  unfolding page_alloc
  page_alloc-scan lt = ground (arith, h.ready)

  -- Between two calls, `page_alloc` of an order below the maximum does not fault, and does one of
  -- two things. Either it returns the page of a block that is used from now on: the block is the
  -- front of a block of at least this order that was free, the used and reserved blocks stay, and
  -- `g_free_pages` shrinks by the size of the block. Or it returns `NULL`, nothing changes, and
  -- no free block was large enough.
  pub page_alloc_lem :
      order < pmm_max_order
      → IsAllocated max_pfn v order s (page_alloc order s)
        ⊎ IsExhausted v order s (page_alloc order s)
  page_alloc_lem lt =
      rw (page_alloc-scan lt)
        (alloc_scan_lem (10 - order) 0 (omega arith) (λ p k below f g. absurd (omega arith)))

-- An order out of range, or a call before the allocator is ready, gets `NULL` and changes nothing.
page_alloc_refused :
    (order : ℕ) (s : Pmm)
    → (s.ready ≡ false) ⊎ (pmm_max_order ≤ order)
    → page_alloc order s ≡ some (none, s)
unfolding page_alloc
page_alloc_refused order s (inl e) = rw e
page_alloc_refused order s (inr le) = ground arith

-- `pmm_alloc` is `page_alloc` with the address of the page in place of the page.
abbrev pub address_of : ℕ → Option (Ptr × Pmm) → Option (ℕ × Pmm)
address_of offset none = none
address_of offset (some (none, s)) = some (0, s)
address_of offset (some (some page, s)) =
    some (phys_to_virt offset (pfndb_page_to_phys s.db (some page)), s)

pub pmm_alloc-page_alloc :
    (offset order : ℕ) (s : Pmm) → pmm_alloc offset order s ≡ address_of offset (page_alloc order s)
unfolding pmm_alloc page_alloc
pmm_alloc-page_alloc offset order s = ground arith
