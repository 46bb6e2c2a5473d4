-- ===== src/Pmm/Release.antt =====
-- One round of the second loop of `pmm_init`: a used page of its own goes to the free lists.
use risky.Base.{
  ℕ, ◌+◌, ◌^◌, ◌≤◌, ◌<◌, ◌≡◌, ◌≢◌, refl, sym, ap, true, some, arith, update, ◌∙◌, u64, eq_self,
}
use risky.Page.Flags.{flags_of_used, flags_of_reserved}
use risky.Pfndb.{Pfndb}
use risky.Pmm.{Pmm, pmm_free_block, release_page}
use risky.Pmm.Invariant.{
  used, reserved, held, View, IsSound, Settled, is_busy, weigh, weigh-lt, Shows-kind,
}
use risky.Pmm.Steps.{rekind_view, lift-IsSound}
use risky.Pmm.Free.{IsFreed, pmm_free_block-IsFreed}
use risky.Pmm.Return.{recount-IsSound}
use risky.Pmm.Pairs.{Coalesced, rekind-Coalesced}
use risky.Pmm.Boot.{frame_kind, frame_busy}

-- The second loop before frame `pfn`: the frames from there on are as at the start, and only
-- those are used. There is no pair of free buddies.
pub record IsReleasing (max_pfn : ℕ) (db : Pfndb) (pfn : ℕ) (v : View) (s : Pmm) : Type 0 where
  pub sound : IsSound max_pfn v s
  pub settled : Settled v
  pub counted : s.free_pages ≡ weigh 10 v.lists
  pub todo : (q : ℕ) → pfn ≤ q → q ≤ max_pfn → (v.order q ≡ some 0) × (v.kind q ≡ frame_kind db q)
  pub used_todo : (q o : ℕ) → v.order q ≡ some o → v.kind q ≡ used → pfn ≤ q
  pub kept :
      (q : ℕ)
      → q ≤ max_pfn
      → frame_kind db q ≡ reserved
      → (v.order q ≡ some 0) × (v.kind q ≡ reserved)
  pub coalesced : Coalesced v
  pub reserved_only :
      (q o : ℕ) → v.order q ≡ some o → v.kind q ≡ reserved → (o ≡ 0) × (frame_kind db q ≡ reserved)

module _ {max_pfn : ℕ} {db : Pfndb} (pfn : ℕ) {v : View} {s : Pmm}
    (r : IsReleasing max_pfn db pfn v s) (le : pfn ≤ max_pfn) where
  pub skip_page : frame_kind db pfn ≡ reserved → release_page pfn s ≡ s
  unfolding release_page
  skip_page k =
      let here = r.kept pfn le k in
      let shown = Shows-kind r.sound pfn 0 reserved here.0 here.1 in
      rw ((flags_of_reserved (s.db.page pfn) shown.0).1)

  pub skip-IsReleasing :
      frame_kind db pfn ≡ reserved → IsReleasing max_pfn db (pfn + 1) v (release_page pfn s)
  skip-IsReleasing k = rw (skip_page k) (record {
    sound = r.sound;
    settled = r.settled;
    counted = r.counted;
    todo = λ q from to. r.todo q (omega arith) to;
    used_todo = λ q o e f. ground (arith, r.used_todo q o e f, r.kept pfn le k);
    kept = r.kept;
    coalesced = r.coalesced;
    reserved_only = r.reserved_only;
  })

  unfoldable pub one_more : Pmm
  one_more = record s { free_pages = u64 (s.free_pages + 1) }

  pub take_page : frame_kind db pfn ≡ used → release_page pfn s ≡ pmm_free_block pfn one_more
  unfolding release_page one_more
  take_page k =
      let here = r.todo pfn (omega arith) le in
      let shown = Shows-kind r.sound pfn 0 used here.0 (here.1 ∙ k) in
      let flags = flags_of_used (s.db.page pfn) shown.0 in rw (flags.1, flags.2)

  pub freed :
      frame_kind db pfn ≡ used
      → IsFreed max_pfn (rekind_view v pfn held) pfn 0 one_more (pmm_free_block pfn one_more)
  unfolding one_more
  freed k =
      let here = r.todo pfn (omega arith) le in
      let shown = Shows-kind r.sound pfn 0 used here.0 (here.1 ∙ k) in
      pmm_free_block-IsFreed
        (record {
          sound = recount-IsSound _ _ _ (lift-IsSound r.sound pfn (λ f. cc));
          order = here.0;
          kind = ground (arith, eq_self pfn);
          only = λ q o f g. ground (arith, r.settled q o f);
        })
        (shown.1)

  pub counted_freed :
      (k : frame_kind db pfn ≡ used)
      → ((pmm_free_block pfn one_more).free_pages ≡ s.free_pages + 1)
        × ((pmm_free_block pfn one_more).free_pages ≡ weigh 10 (freed k).view.lists)
        × ((pmm_free_block pfn one_more).total_pages ≡ s.total_pages)
  unfolding one_more
  counted_freed k =
      let small : weigh 10 v.lists < 2 ^ 63 = weigh-lt r.sound in
      let count : (pmm_free_block pfn one_more).free_pages ≡ u64 (s.free_pages + 1) =
        (freed k).rest.0 in
      let weight = (freed k).weight in
      (omega (arith, r.counted), omega (arith, r.counted), (freed k).rest.1)

  -- The other used and reserved blocks are those before the round.
  spared :
      (k : frame_kind db pfn ≡ used)
      → (q o : ℕ) → v.order q ≡ some o
      → q ≢ pfn
      → is_busy (v.kind q) ≡ true
      → ((freed k).view.order q ≡ some o) × ((freed k).view.kind q ≡ v.kind q)
  spared k q o e ne busy =
      let same : update v.kind pfn held q ≡ v.kind q = ground arith in
      let x = (freed k).keeps q o e (rw same busy) in (x.0, x.1 ∙ same)

  stemmed :
      (k : frame_kind db pfn ≡ used)
      → (q o : ℕ) → (freed k).view.order q ≡ some o
      → is_busy ((freed k).view.kind q) ≡ true
      → (v.order q ≡ some o) × ((freed k).view.kind q ≡ v.kind q) × (q ≢ pfn)
  stemmed k q o e busy = let x = (freed k).stems q o e busy in (x.0, ground arith, ground arith)

  pub take-IsReleasing :
      (k : frame_kind db pfn ≡ used)
      → IsReleasing max_pfn db (pfn + 1) (freed k).view (release_page pfn s)
  take-IsReleasing k =
      let done = freed k in
      rw (take_page k) (record {
        sound = done.sound;
        settled = done.settled;
        counted = (counted_freed k).1;
        todo = λ q from to.
            let t = r.todo q (omega arith) to in
            let x = spared k q 0 (t.0) (omega arith) (rw (t.1) (frame_busy db q)) in
            (x.0, x.1 ∙ t.1);
        used_todo = λ q o e f.
            let x = stemmed k q o e (rw f refl) in
            ground (arith, r.used_todo q o x.0 (sym (x.1) ∙ f), x.2);
        kept = λ q to f.
            let t = r.kept q to f in
            let ne : q ≢ pfn = λ same. cc (f, k, ap (frame_kind db) same) in
            let x = spared k q 0 (t.0) ne (rw (t.1) refl) in (x.0, x.1 ∙ t.1);
        coalesced = done.coalesced (rekind-Coalesced v pfn r.coalesced);
        reserved_only = λ q o e f.
            let x = stemmed k q o e (rw f refl) in r.reserved_only q o x.0 (sym (x.1) ∙ f);
      })
