-- ===== src/Pmm/Start.antt =====
-- `pmm_init` brings a filled database into a state between two calls.
use native.Mathlib.Nat.{add-zero, zero-add}
use risky.Base.{
  ℕ, zero, suc, ◌+◌, ◌≤◌, ◌≡◌, ◌≢◌, refl, sym, ap, true, false, some, [], ◌==◌, arith, inl, inr,
  if◌then◌else◌, ◌∙◌, Bool-cases,
}
use risky.Page.{flag_free, flag_reserved}
use risky.Pfndb.{Pfndb}
use risky.Pfndb.Lookup.{get_page_in}
use risky.Pmm.{Pmm, empty_list, release_page, init_retire, init_release, pmm_init}
use risky.Pmm.Buddy.{two-pow-pos}
use risky.Pmm.Invariant.{used, reserved, View, weigh}
use risky.Pmm.Pairs.{Coalesced}
use risky.Pmm.Return.{recount-IsSound}
use risky.Pmm.Ready.{IsReady}
use risky.Pmm.Retire.{IsFilled, count_free, count_free_le, IsRetired, init_retire-IsRetired}
use risky.Pmm.Boot.{frame_kind, frames_view, retired-IsSound}
use risky.Pmm.Release.{
  IsReleasing, skip_page, skip-IsReleasing, take_page, counted_freed, take-IsReleasing,
}

record IsReleased (max_pfn : ℕ) (db : Pfndb) (count pfn : ℕ) (s s' : Pmm) : Type 0 where
  view : View
  releasing : IsReleasing max_pfn db (pfn + count) view s'
  released : s'.free_pages ≡ s.free_pages + count_free db.page count pfn
  total : s'.total_pages ≡ s.total_pages

extend-IsReleased :
    {max_pfn : ℕ} {db : Pfndb} (count pfn : ℕ) (s s1 s' : Pmm)
    → (s1.free_pages ≡ s.free_pages + (if (db.page pfn).flags == flag_free then 1 else 0))
    → (s1.total_pages ≡ s.total_pages)
    → IsReleased max_pfn db count (pfn + 1) s1 s'
    → IsReleased max_pfn db (suc count) pfn s s'
unfolding count_free
extend-IsReleased {max_pfn} {db} count pfn s s1 s' grown same rest = record {
  view = rest.view;
  releasing =
      let next : pfn + suc count ≡ pfn + 1 + count = omega arith in rw next (rest.releasing);
  released = omega (arith, rest.released);
  total = rest.total ∙ same;
}

init_release-IsReleased :
    {max_pfn : ℕ} {db : Pfndb} (count pfn : ℕ) {v : View} (s : Pmm)
    → IsReleasing max_pfn db pfn v s
    → pfn + count ≡ max_pfn + 1
    → IsReleased max_pfn db count pfn s (init_release count pfn s)
unfolding init_release
init_release-IsReleased zero pfn {v} s r range = record {
  view = v;
  releasing = rw add-zero r;
  released = unfold count_free in omega arith;
  total = refl;
}
init_release-IsReleased {max_pfn} {db} (suc count) pfn s r range =
    rw (get_page_in s.db pfn (r.sound.present) (omega (arith, r.sound.same_max)), init_release)
      (elim (Bool-cases ((db.page pfn).flags == flag_free)) [
        | inl f ↦
            let le : pfn ≤ max_pfn = omega arith in
            let k : frame_kind db pfn ≡ used = ground arith in
            let counts = counted_freed pfn r le k in
            let page = take_page pfn r le k in
            extend-IsReleased count pfn s (release_page pfn s) _
              (ap (λ (t : Pmm). t.free_pages) page ∙ rw f (counts.0))
              (ap (λ (t : Pmm). t.total_pages) page ∙ counts.2)
              (init_release-IsReleased count (pfn + 1) (release_page pfn s)
                (take-IsReleasing pfn r le k) (omega arith))
        | inr f ↦
            let le : pfn ≤ max_pfn = omega arith in
            let k : frame_kind db pfn ≡ reserved = ground arith in
            let page = skip_page pfn r le k in
            extend-IsReleased count pfn s (release_page pfn s) _
              (ap (λ (t : Pmm). t.free_pages) page ∙ rw f (omega arith))
              (ap (λ (t : Pmm). t.total_pages) page)
              (init_release-IsReleased count (pfn + 1) (release_page pfn s)
                (skip-IsReleasing pfn r le k) (omega arith))
      ])

-- The allocator is ready: each frame that the database marks as free lies in a free block, each
-- reserved frame is a reserved block of its own, free buddies are merged, and both counters are the free frames.
pub record IsStarted (max_pfn : ℕ) (db : Pfndb) (s : Pmm) : Type 0 where
  pub view : View
  pub is_ready : IsReady max_pfn view s
  pub none_used : (q o : ℕ) → view.order q ≡ some o → view.kind q ≢ used
  pub reserved_frames :
      (q : ℕ)
      → q ≤ max_pfn
      → (db.page q).flags ≡ flag_reserved
      → (view.order q ≡ some 0) × (view.kind q ≡ reserved)
  pub only_reserved :
      (q o : ℕ)
      → view.order q ≡ some o
      → view.kind q ≡ reserved
      → (o ≡ 0) × ((db.page q).flags ≢ flag_free)
  pub coalesced : Coalesced view
  pub free_pages : s.free_pages ≡ count_free db.page (max_pfn + 1) 0
  pub total_pages : s.total_pages ≡ count_free db.page (max_pfn + 1) 0

abbrev fresh : Pmm → Pmm
fresh s = record s { lists = λ _. empty_list; free_pages = 0; total_pages = 0; ready = false }

abbrev retired_state : Pmm → Pmm
retired_state s = init_retire (s.db.max_pfn + 1) 0 (fresh s)

pmm_init_lem :
    (s : Pmm)
    → s.db.present ≡ true
    → pmm_init s ≡ (
      true,
      record (init_release ((retired_state s).db.max_pfn + 1) 0 (retired_state s)) { ready = true },
    )
unfolding pmm_init
pmm_init_lem s present = ground arith

module _ (s : Pmm) (filled : IsFilled s.db.max_pfn s.db) where
  retired : IsRetired (s.db.max_pfn + 1) 0 (fresh s) (retired_state s)
  retired =
      init_retire-IsRetired (s.db.max_pfn + 1) 0 (fresh s) filled.present (omega arith)
        (omega arith) (λ q from to. filled.marked q to)

  all_todo : IsReleasing s.db.max_pfn s.db 0 (frames_view s.db.max_pfn s.db) (retired_state s)
  all_todo = record {
    sound = retired-IsSound filled_fresh retired refl;
    settled = λ q o e k. ground arith;
    counted = retired.free_pages ∙ sym no_weight;
    todo = λ q from to. (ground arith, refl);
    used_todo = λ q o e k. omega arith;
    kept = λ q to k. (ground arith, k);
    coalesced = λ q o e k room f l. ground arith;
    reserved_only = λ q o e k. (ground arith, k);
  }
    where
      filled_fresh : IsFilled s.db.max_pfn (fresh s).db
      filled_fresh = filled

      no_weight : weigh 10 (λ _. []) ≡ 0
      no_weight = unfold weigh in omega arith

  released :
      IsReleased s.db.max_pfn s.db
        (s.db.max_pfn + 1)
        0
        (retired_state s)
        (init_release (s.db.max_pfn + 1) 0 (retired_state s))
  released = init_release-IsReleased (s.db.max_pfn + 1) 0 (retired_state s) all_todo (omega arith)

  start :
      IsStarted s.db.max_pfn s.db
        (record (init_release (s.db.max_pfn + 1) 0 (retired_state s)) { ready = true })
  start =
      let r = released in
      let done = r.releasing in
      record {
        view = r.view;
        is_ready = record {
          sound = recount-IsSound _ _ _ done.sound;
          settled = done.settled;
          ready = refl;
          counted = done.counted;
        };
        none_used = λ q o e k.
            omega (arith, done.used_todo q o e k, done.sound.tiling.fits q o e, two-pow-pos o);
        reserved_frames = λ q to k. done.kept q to (ground arith);
        only_reserved =
            λ q o e k. let x = done.reserved_only q o e k in (x.0, λ f. ground (arith, x.1));
        coalesced = done.coalesced;
        free_pages =
            r.released
            ∙ (ap (λ (n : ℕ). n + count_free s.db.page (s.db.max_pfn + 1) 0) retired.free_pages
                ∙ zero-add _);
        total_pages = omega (
          arith,
          r.total,
          retired.total,
          count_free_le s.db.page (s.db.max_pfn + 1) 0,
          filled.small,
        );
      }

-- On a database in which every frame is free or reserved, and of at most 2^52 frames, `pmm_init`
-- succeeds. The state is then one between two calls, no block is used, the reserved frames are the
-- reserved blocks, and the free blocks are merged: no two of them are buddies of one order, below
-- the greatest. `g_free_pages` and `g_total_pages` both count the frames that the database
-- marks as free.
pub pmm_init-IsStarted :
    {max_pfn : ℕ} (s : Pmm)
    → IsFilled max_pfn s.db
    → ((pmm_init s).0 ≡ true) × IsStarted max_pfn s.db (pmm_init s).1
pmm_init-IsStarted {max_pfn} s filled =
    let here = rw (← filled.same_max) at filled in
    let enters : pmm_init s
        ≡ (true, record (init_release (s.db.max_pfn + 1) 0 (retired_state s)) { ready = true }) =
      pmm_init_lem s filled.present
      ∙ ap (λ (n : ℕ). (true, record (init_release (n + 1) 0 (retired_state s)) { ready = true }))
          (retired s here).same_max in
    rw (← filled.same_max, enters) (refl, start s here)
