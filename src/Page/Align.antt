-- ===== src/Page/Align.antt =====
-- The alignment and address macros of page.h and cpu.h on 64-bit words.
use risky.Base.{ℕ, ◌+◌, ◌%◌, ◌^◌, ◌≤◌, ◌<◌, ◌≡◌, arith}
use risky.Page.{
  page_size, page_align_down, page_align_up, phys_pfn, pfn_phys, phys_to_virt, virt_to_phys,
}

-- Rounding down gives the greatest multiple of the page size that is not above the address.
pub page_align_down_bounds :
    (a : ℕ)
    → (page_align_down a % page_size ≡ 0)
      × (page_align_down a ≤ a)
      × (a < page_align_down a + page_size)
page_align_down_bounds a = omega arith

-- Unless the sum wraps, rounding up gives the least multiple of the page size that is not below
-- the address.
pub page_align_up_bounds :
    (a : ℕ)
    → a + page_size ≤ 2 ^ 64
    → (page_align_up a % page_size ≡ 0) × (a ≤ page_align_up a) × (page_align_up a < a + page_size)
page_align_up_bounds a h = omega arith

pub phys_pfn-pfn_phys : (pfn : ℕ) → pfn < 2 ^ 52 → phys_pfn (pfn_phys pfn) ≡ pfn
phys_pfn-pfn_phys pfn h = omega arith

pub virt_to_phys-phys_to_virt :
    (offset a : ℕ) → offset < 2 ^ 64 → a < 2 ^ 64 → virt_to_phys offset (phys_to_virt offset a) ≡ a
virt_to_phys-phys_to_virt offset a h k = omega arith
