-- ===== src/Paging/Mmio.antt =====
-- `paging_map_mmio` as an update of the translation of addresses.
use risky.Base.{
  ℕ, ◌+◌, ◌-◌, ◌*◌, ◌/◌, ◌%◌, ◌^◌, ◌≤◌, ◌<◌, ◌≡◌, refl, false, arith, ◌==◌, u64, sub64,
}
use risky.Page.{page_size, page_align_down, page_align_up, phys_to_virt}
use risky.Pmm.Invariant.{View}
use risky.Paging.{Paging, Layout, prot_rwg, paging_level_block_size, paging_map_mmio}
use risky.Paging.Space.{IsFit}
use risky.Paging.Remap.{IsAddressSpace}
use risky.Paging.Spans.{IsSpanned, map_range-IsSpanned}

-- The pages of the registers, from the first to the last.
abbrev pub first_page : (phys : ℕ) → ℕ
first_page phys = page_align_down phys

abbrev pub pages_size : (phys size : ℕ) → ℕ
pages_size phys size = (phys % page_size + size + page_size - 1) / page_size * page_size

module _ {max_pfn : ℕ} {l : Layout} (fit : IsFit max_pfn l) where
  -- With fewer than 2^44 frames and an offset of 64 bits at a page boundary: in an address space
  -- whose tables are a tree, with the memory manager between two calls, take registers that end a
  -- page below 2^56, and a page below 2^64 with the offset added, on pages that are no larger than
  -- the address space. Mapping them returns. Unless a table was taken from the early pool, there is
  -- such an address space again, all other pages are translated as before, and after a success
  -- every address of the pages of the registers, taken to the higher half by the offset, leads back
  -- to itself, for reading and writing.
  pub map_mmio-IsSpanned :
      (phys size : ℕ) {v : View} (p : Paging)
      → IsAddressSpace max_pfn v l p
      → 0 < size
      → phys + size + page_size < 2 ^ 56
      → l.offset + phys + size + page_size < 2 ^ 64
      → pages_size phys size ≤ paging_level_block_size p.levels
      → IsSpanned max_pfn l
          (l.offset + first_page phys)
          (first_page phys)
          (pages_size phys size)
          prot_rwg
          p
          (paging_map_mmio l phys size p)
  unfolding paging_map_mmio
  map_mmio-IsSpanned phys size p a pos p_lt v_lt fits =
      let something : (size == 0) ≡ false = ground arith in
      let virt : phys_to_virt l.offset (first_page phys) ≡ l.offset + first_page phys =
        omega arith in
      let whole : sub64 (page_align_up (u64 (phys + size))) (first_page phys)
          ≡ pages_size phys size =
        omega arith in
      let rounded : page_align_up (pages_size phys size) ≡ pages_size phys size = omega arith in
      rw (something, whole, virt)
        (rw rounded at (
          map_range-IsSpanned fit prot_rwg refl (l.offset + first_page phys) (first_page phys)
            (pages_size phys size) p a (omega (arith, fit.aligned)) (omega arith) (omega arith)
            (omega arith) (omega (arith, fits))))
