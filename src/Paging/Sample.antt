-- ===== src/Paging/Sample.antt =====
-- A small address space: its root table, empty, fills frame 1; frames 2 and 3 are free.
use mathlib.Core.Option.{none-ne-some}
use risky.Base.{
  ℕ, zero, suc, ◌^◌, ◌≡◌, refl, true, false, none, some, List, [], ◌∷◌, ◌==◌, arith, if◌then◌else◌,
  Bool-cases, inl, inr,
}
use risky.Pfndb.{Pfndb}
use risky.Page.{flag_free, flag_used}
use risky.Pmm.{Pmm, FreeList, empty_list}
use risky.Pmm.Links.{IsList}
use risky.Pmm.Invariant.{free, used, View, Shows, weigh}
use risky.Pmm.Ready.{IsReady}
use risky.Pmm.Sample.{one_page, sample_order, sample-IsTiling}
use risky.Paging.{Paging, Layout}
use risky.Paging.Space.{Places, IsFit}
use risky.Paging.Remap.{IsAddressSpace, root_table}

abbrev space_db : Pfndb
space_db = record {
  present = true;
  phys = 4096;
  max_pfn = 3;
  page = λ q.
      if q == 0
      then one_page flag_used 0
      else if q == 1
      then one_page flag_used 0
      else if q == 2
      then one_page flag_free 1
      else one_page 0 0;
}

abbrev space_list : ℕ → FreeList
space_list o = if o == 1 then record { head = some 2; count = 1 } else empty_list

abbrev space_pmm : Pmm
space_pmm = record {
  db = space_db;
  lists = space_list;
  free_pages = 2;
  total_pages = 4;
  ready = true;
}

abbrev space_lists : ℕ → List ℕ
space_lists o = if o == 1 then 2 ∷ [] else []

abbrev pub space_view : View
space_view = record {
  order = sample_order;
  kind = λ q. if q == 0 then used else if q == 1 then used else free;
  lists = space_lists;
}

space-IsList : (o : ℕ) → IsList space_pmm o (space_lists o)
space-IsList zero = record { links = tt; distinct = tt; head = refl; count = refl }
space-IsList (suc zero) = record {
  links = (refl, refl, tt);
  distinct = (refl, tt);
  head = refl;
  count = refl;
}
space-IsList (suc (suc o)) =
    let past_one : (suc (suc o) == 1) ≡ false = ground arith in
    rw past_one (record { links = tt; distinct = tt; head = ground arith; count = ground arith })

space-Shows : (q o : ℕ) → sample_order q ≡ some o → Shows (space_view.kind q) o (space_db.page q)
space-Shows zero o e = (refl, ground arith)
space-Shows (suc zero) o e = (refl, ground arith)
space-Shows (suc (suc zero)) o e = (refl, ground arith)
space-Shows (suc (suc (suc q))) o e = absurd (ground arith)

space-IsReady : IsReady 3 space_view space_pmm
space-IsReady = record {
  sound = record {
    present = refl;
    same_max = refl;
    small = omega arith;
    tiling = sample-IsTiling;
    shows = space-Shows;
    lists = space-IsList;
    members = λ o p h. ground arith;
    listed = λ o p e k. ground arith;
  };
  settled = λ q o e k. ground arith;
  ready = refl;
  counted = unfold weigh in refl;
}

abbrev pub space_layout : Layout
space_layout = record { offset = 2 ^ 40; pool = 2 ^ 41 }

pub space_layout-IsFit : IsFit 3 space_layout
space_layout-IsFit = record { aligned = refl; offset_lt = omega arith; frames_lt = omega arith }

abbrev pub space_paging : Paging
space_paging = record {
  root_phys = 4096;
  levels = 3;
  pool_used = 0;
  pmm = space_pmm;
  words = λ _. 0;
}

abbrev space_tables : Places
space_tables t = if t == root_table space_layout space_paging then some (2, []) else none

only_root :
    (t : ℕ) (x : ℕ × List ℕ) → space_tables t ≡ some x → t ≡ root_table space_layout space_paging
only_root t x e = elim (Bool-cases (t == root_table space_layout space_paging)) [
  | inl at ↦ ground arith
  | inr off ↦ absurd (none-ne-some x (rw off at e))
]

pub space-IsAddressSpace : IsAddressSpace 3 space_view space_layout space_paging
space-IsAddressSpace = record {
  is_mapping = record { is_ready = space-IsReady; pool = omega arith };
  tables = space_tables;
  space = record {
    backed = λ t x e. record {
      frame = 1;
      block = 1;
      order = 0;
      begins = refl;
      busy = refl;
      within = (omega arith, omega arith);
      address = only_root t x e;
    };
    plain = λ t level i path e lt valid. absurd (ground arith);
    child = λ t level i path e lt valid. absurd (ground arith);
  };
  root = refl;
  levels = (omega arith, omega arith);
}
