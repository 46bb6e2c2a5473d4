-- ===== src/Paging/Tests.antt =====
-- Mapping on a small state.
use risky.Base.{◌+◌, ◌*◌, ◌%◌, ◌^◌, ◌≡◌, refl, true, some, [], ◌∷◌, arith}
use risky.Pfndb.Sample.{memmap}
use risky.Pmm.Sample.{sample, sample_view, sample-IsReady}
use risky.Paging.{
  Paging, Layout, Responses, Segment, paging_setup_root, paging_map_page, paging_map_range,
  paging_map_mmio, prot_rwg, paging_init, paging_pte_to_phys, paging_table_pte, pte_v,
}
use risky.Paging.Kept.{IsMapping, Kept}
use risky.Paging.Ranges.{map_range-Kept, paging_init-Kept}
use risky.Paging.Remap.{IsRemapped, map_page-IsRemapped}
use risky.Paging.Spans.{IsSpanned, map_range-IsSpanned}
use risky.Paging.Mmio.{map_mmio-IsSpanned}
use risky.Paging.Sample.{
  space_view, space_layout, space_layout-IsFit, space_paging, space-IsAddressSpace,
}
use risky.Paging.Entries.{pte_to_phys-table_pte}

abbrev layout : Layout
layout = record { offset = 2 ^ 40; pool = 2 ^ 41 }

abbrev paging : Paging
paging = record { root_phys = 4096; levels = 3; pool_used = 0; pmm = sample; words = λ _. 0 }

abbrev responses : Responses
responses = record { memmap = some memmap; hhdm = true; executable = some (2 ^ 21, 2 ^ 41) }

abbrev text : Segment
text = record { start = 2 ^ 41; end = 2 ^ 41 + 5000; flags = 13 }

paging-IsMapping : IsMapping 3 sample_view paging
paging-IsMapping = record { is_ready = sample-IsReady; pool = omega arith }

map_range-Kept_example :
    Kept 3 sample_view paging (paging_map_range layout 8192 4096 10000 3 paging)
map_range-Kept_example =
    map_range-Kept 3 layout 8192 4096 10000 3 sample_view paging paging-IsMapping

paging_init-Kept_example :
    Kept 3 sample_view
      (paging_setup_root (8 * 2 ^ 60 + 1) (record paging { pool_used = 0 })).1
      (paging_init (8 * 2 ^ 60 + 1) layout responses (text ∷ []) paging)
paging_init-Kept_example =
    paging_init-Kept 3 layout (8 * 2 ^ 60 + 1) responses (text ∷ []) sample_view paging
      sample-IsReady

pte_to_phys-table_pte_example :
    (paging_pte_to_phys (paging_table_pte 2147483648) ≡ 2147483648)
    × (paging_table_pte 2147483648 % 16 ≡ pte_v)
pte_to_phys-table_pte_example = pte_to_phys-table_pte 2147483648 refl (omega arith)

map_page-IsRemapped_example :
    IsRemapped 3 space_view space_layout
      (2 ^ 40)
      (2 ^ 31)
      3
      space_paging
      (paging_map_page space_layout (2 ^ 40) (2 ^ 31) 3 space_paging)
map_page-IsRemapped_example =
    map_page-IsRemapped space_layout-IsFit (2 ^ 40) (2 ^ 31) 3 space_paging space-IsAddressSpace
      refl (omega arith)

map_range-IsSpanned_example :
    IsSpanned 3 space_layout
      (2 ^ 40)
      (2 ^ 31)
      8192
      3
      space_paging
      (paging_map_range space_layout (2 ^ 40) (2 ^ 31) 5000 3 space_paging)
map_range-IsSpanned_example =
    map_range-IsSpanned space_layout-IsFit 3 refl (2 ^ 40) (2 ^ 31) 5000 space_paging
      space-IsAddressSpace refl (omega arith) (omega arith) (omega arith) (omega arith)

map_mmio-IsSpanned_example :
    IsSpanned 3 space_layout
      (2 ^ 40 + 268435456)
      268435456
      4096
      prot_rwg
      space_paging
      (paging_map_mmio space_layout 268435456 256 space_paging)
map_mmio-IsSpanned_example =
    map_mmio-IsSpanned space_layout-IsFit 268435456 256 space_paging space-IsAddressSpace
      (omega arith) (omega arith) (omega arith) (omega arith)
