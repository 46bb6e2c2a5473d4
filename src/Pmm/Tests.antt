-- ===== src/Pmm/Tests.antt =====
-- The allocator on small states.
use risky.Base.{◌+◌, ◌*◌, ◌≡◌, ◌⊎◌, inr, refl, true, false, some, ◌==◌, arith, if◌then◌else◌}
use risky.Page.{page_size, flag_free, flag_used, flag_reserved, phys_to_virt}
use risky.Pfndb.{pfndb_init, pfndb_page_to_phys, pfndb_get_pfn}
use risky.Pfndb.Made.{IsMade}
use risky.Pmm.{
  Pmm, pmm_init, page_alloc, pmm_alloc, pmm_free, empty_list, pmm_list_remove, pmm_prepare_page,
  alloc_scan, alloc_take, alloc_split,
}
use risky.Pmm.Invariant.{View, Keeps}
use risky.Pmm.Links.{IsList, erase}
use risky.Pmm.Lists.{remove-IsList}
use risky.Pmm.Ready.{IsReady}
use risky.Pmm.Return.{IsReturned, pmm_free-IsReturned, pmm_free_refused}
use risky.Pmm.Alloc.{IsAllocated, IsExhausted, page_alloc_lem}
use risky.Pmm.Cycle.{IsAddressed, pmm_alloc_lem, pmm_free-pmm_alloc}
use risky.Pmm.Retire.{IsFilled}
use risky.Pmm.Start.{IsStarted, pmm_init-IsStarted}
use risky.Pfndb.Sample.{memmap, blank_db, memmap-Fits, memmap-Aligned, memmap-Apart, memmap-found}
use risky.Pmm.Bringup.{boot-IsStarted}
use risky.Pmm.Sample.{one_page, sample, sample_lists, sample-IsList, sample_view, sample-IsReady}

remove-IsList_example : IsList (pmm_list_remove 1 2 sample) 1 (erase 2 (sample_lists 1))
remove-IsList_example =
    remove-IsList sample 1 2 (sample_lists 1) (sample-IsList 1) refl (omega arith)

page_alloc_lem_example :
    IsAllocated 3 sample_view 0 sample (page_alloc 0 sample)
    ⊎ IsExhausted sample_view 0 sample (page_alloc 0 sample)
page_alloc_lem_example = page_alloc_lem sample-IsReady 0 (omega arith)

pmm_alloc_lem_example :
    IsAddressed 3 sample_view 65536 1 sample (pmm_alloc 65536 1 sample)
    ⊎ ((pmm_alloc 65536 1 sample ≡ some (0, sample))
        × IsExhausted sample_view 1 sample (page_alloc 1 sample))
pmm_alloc_lem_example = pmm_alloc_lem sample-IsReady 65536 1 (omega arith)

pmm_free-IsReturned_example :
    IsReturned 3 sample_view 0 0 sample
      (pmm_free 65536 (phys_to_virt 65536 (0 * page_size + 8)) sample)
pmm_free-IsReturned_example =
    pmm_free-IsReturned sample-IsReady 0 0 refl 65536 8 (omega arith) (omega arith) (omega arith)
      refl

pmm_free_refused_example : pmm_free 65536 (phys_to_virt 65536 (2 * page_size + 0)) sample ≡ sample
pmm_free_refused_example =
    pmm_free_refused sample-IsReady 2 1 refl 65536 0 (omega arith) (omega arith) (omega arith)
      (inr refl)

-- The block of two frames, taken.
abbrev taken : Pmm
taken = record (pmm_prepare_page 2 flag_used 1 (pmm_list_remove 1 2 sample)) { free_pages = 1 }

alloc_taken : pmm_alloc 65536 1 sample ≡ some (73728, taken)
unfolding pmm_alloc alloc_scan alloc_take alloc_split pmm_list_remove pmm_prepare_page
    pfndb_page_to_phys pfndb_get_pfn
alloc_taken = refl

pmm_free-pmm_alloc_example :
    (w : View) × IsReady 3 w (pmm_free 65536 73728 taken)
    × ((pmm_free 65536 73728 taken).free_pages ≡ 3)
    × Keeps sample_view w
pmm_free-pmm_alloc_example =
    pmm_free-pmm_alloc sample-IsReady 65536 1 (omega arith) 73728 taken (omega arith) (omega arith)
      alloc_taken

abbrev nine_frames : Pmm
nine_frames = record {
  db = record {
    present = true;
    phys = 4096;
    max_pfn = 8;
    page = λ q. if q == 0 then one_page flag_reserved 0 else one_page flag_free 0;
  };
  lists = λ _. empty_list;
  free_pages = 0;
  total_pages = 0;
  ready = false;
}

nine_frames-IsFilled : IsFilled 8 nine_frames.db
nine_frames-IsFilled = record {
  present = refl;
  same_max = refl;
  small = omega arith;
  marked = λ q le. ground arith;
}

pmm_init-IsStarted_example :
    ((pmm_init nine_frames).0 ≡ true) × IsStarted 8 nine_frames.db (pmm_init nine_frames).1
pmm_init-IsStarted_example = pmm_init-IsStarted nine_frames nine_frames-IsFilled

abbrev blank : Pmm
blank = record {
  db = blank_db;
  lists = λ _. empty_list;
  free_pages = 0;
  total_pages = 0;
  ready = false;
}

boot-IsStarted_example :
    IsMade memmap 4096 (pfndb_init (some memmap) (some 65536) blank.db).0
    × ((pmm_init (record blank { db = (pfndb_init (some memmap) (some 65536) blank.db).0 })).0
        ≡ true)
    × IsStarted
        (pfndb_init (some memmap) (some 65536) blank.db).0.max_pfn
        (pfndb_init (some memmap) (some 65536) blank.db).0
        (pmm_init (record blank { db = (pfndb_init (some memmap) (some 65536) blank.db).0 })).1
boot-IsStarted_example =
    boot-IsStarted memmap 65536 4096 blank memmap-Fits memmap-Aligned memmap-Apart memmap-found
      (omega arith)
