-- ===== src/Page.antt =====
-- kernel/src/mm/page.h: page frames, their flags and the alignment macros. Also the address
-- macros of kernel/src/platform/generic/cpu.h, with the offset of the higher-half map as an
-- argument.
pub mod Align
pub mod Flags
use risky.Base.{
  ℕ, ◌+◌, ◌-◌, ◌*◌, ◌/◌, ◌^◌, bit_and, bit_or, Bool, Option, none, not, ◌==◌, u64, sub64,
}

abbrev pub page_shift : ℕ
page_shift = 12

abbrev pub page_size : ℕ
page_size = 2 ^ page_shift

-- `addr & PAGE_MASK` clears the low twelve bits.
abbrev pub page_align_down : ℕ → ℕ
page_align_down addr = addr / page_size * page_size

abbrev pub page_align_up : ℕ → ℕ
page_align_up addr = page_align_down (u64 (addr + page_size - 1))

abbrev pub phys_pfn : ℕ → ℕ
phys_pfn addr = addr / page_size

abbrev pub pfn_phys : ℕ → ℕ
pfn_phys pfn = u64 (pfn * page_size)

abbrev pub phys_to_virt : ℕ → ℕ → ℕ
phys_to_virt offset addr = u64 (addr + offset)

abbrev pub virt_to_phys : ℕ → ℕ → ℕ
virt_to_phys offset addr = sub64 addr offset

abbrev pub flag_free : ℕ
flag_free = 1

abbrev pub flag_reserved : ℕ
flag_reserved = 2

abbrev pub flag_used : ℕ
flag_used = 4

-- `page_t *`: `some i` is `&g_pfndb[i]`, and `none` is `NULL`.
abbrev pub Ptr : Type 0
Ptr = Option ℕ

pub record Page : Type 0 where
  pub flags : ℕ
  pub order : ℕ
  pub next : Ptr
  pub prev : Ptr

unfoldable pub page_has_flags : Page → ℕ → Bool
page_has_flags page flags = not (bit_and page.flags flags == 0)

unfoldable pub page_set_flags : Page → ℕ → Page
page_set_flags page flags = record page { flags = bit_or page.flags flags }

-- `~flags` on 32 bits.
unfoldable pub page_clear_flags : Page → ℕ → Page
page_clear_flags page flags = record page { flags = bit_and page.flags (2 ^ 32 - 1 - flags) }

abbrev pub page_set_state : Page → ℕ → ℕ → Page
page_set_state page flags order = record { flags = flags; order = order; next = none; prev = none }

abbrev pub page_reset_links : Page → Page
page_reset_links page = record page { next = none; prev = none }

unfoldable pub page_free : Page → Bool
unfolding page_has_flags
page_free page = page_has_flags page flag_free

unfoldable pub page_reserved : Page → Bool
unfolding page_has_flags
page_reserved page = page_has_flags page flag_reserved

unfoldable pub page_used : Page → Bool
unfolding page_has_flags
page_used page = page_has_flags page flag_used

unfoldable pub set_page_used : Page → Page
unfolding page_set_flags
set_page_used page = page_set_flags page flag_used

unfoldable pub clear_page_free : Page → Page
unfolding page_clear_flags
clear_page_free page = page_clear_flags page flag_free

unfoldable pub set_page_flags : Page → ℕ → Page
unfolding page_set_flags
set_page_flags page flags = page_set_flags page flags

unfoldable pub clear_page_flags : Page → ℕ → Page
unfolding page_clear_flags
clear_page_flags page flags = page_clear_flags page flags

unfoldable pub set_page_free : Page → Page
unfolding page_set_flags
set_page_free page = page_set_flags page flag_free

unfoldable pub set_page_reserved : Page → Page
unfolding page_set_flags
set_page_reserved page = page_set_flags page flag_reserved

unfoldable pub clear_page_reserved : Page → Page
unfolding page_clear_flags
clear_page_reserved page = page_clear_flags page flag_reserved

unfoldable pub clear_page_used : Page → Page
unfolding page_clear_flags
clear_page_used page = page_clear_flags page flag_used
