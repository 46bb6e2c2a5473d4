-- ===== src/Paging.antt =====
-- kernel/src/mm/paging.c and paging.h: the page tables of the kernel. The statics are fields of
-- `Paging`, with the memory manager that tables come from. `words` is the memory that holds the
-- tables, by the address of each 64-bit word. The offset of the higher-half map, the address of
-- `g_early_pt_pool` and the value of the `satp` register are arguments. `none` is a fault of the
-- memory manager. The fences and messages are left out.
pub mod Entries
pub mod Kept
pub mod Ranges
pub mod Tests
pub mod Space
pub mod Graft
pub mod Covers
pub mod Trail
pub mod Leaf
pub mod Enter
pub mod Extend
pub mod Refines
pub mod Remap
pub mod Spans
pub mod Sample
pub mod Walk
pub mod Mmio
pub mod Translate
use risky.Base.{
  ℕ, zero, suc, ◌+◌, ◌-◌, ◌*◌, ◌/◌, ◌%◌, ◌^◌, bit_and, bit_or, Bool, true, false, not, ◌&&◌, ◌||◌,
  Option, none, some, List, [], ◌∷◌, ltb, leb, ◌==◌, if◌then◌else◌, u32, u64, sub64, update,
}
use risky.Page.{page_size, page_align_down, page_align_up, phys_to_virt, virt_to_phys}
use risky.Pfndb.{Entry, pfndb_page_to_phys}
use risky.Pmm.{Pmm, page_alloc}

pub record Paging : Type 0 where
  pub root_phys : ℕ
  pub levels : ℕ
  pub pool_used : ℕ
  pub pmm : Pmm
  pub words : ℕ → ℕ

-- What the code takes from outside: the offset and the address of the pool.
pub record Layout : Type 0 where
  pub offset : ℕ
  pub pool : ℕ

abbrev pub pool_tables : ℕ
pool_tables = 8

-- PTE_V, PTE_R, PTE_W, PTE_X, PTE_G, PTE_A and PTE_D.
abbrev pub pte_v : ℕ
pte_v = 1

abbrev pub pte_r : ℕ
pte_r = 2

abbrev pub pte_w : ℕ
pte_w = 4

abbrev pub pte_x : ℕ
pte_x = 8

abbrev pub pte_g : ℕ
pte_g = 32

abbrev pub pte_a : ℕ
pte_a = 64

abbrev pub pte_d : ℕ
pte_d = 128

-- PAGING_FLAG_READ, PAGING_FLAG_WRITE, PAGING_FLAG_EXEC and PAGING_FLAG_GLOBAL.
abbrev pub flag_read : ℕ
flag_read = 1

abbrev pub flag_write : ℕ
flag_write = 2

abbrev pub flag_exec : ℕ
flag_exec = 4

abbrev pub flag_global : ℕ
flag_global = 8

-- `(value & mask) != 0`
abbrev pub has_bits : ℕ → ℕ → Bool
has_bits value mask = not (bit_and value mask == 0)

unfoldable pub paging_satp_levels : ℕ → ℕ
paging_satp_levels satp =
    let mode = satp / 2 ^ 60 in
    if mode == 8 then 3 else if mode == 9 then 4 else if mode == 10 then 5 else 0

unfoldable pub paging_setup_root : ℕ → Paging → Bool × Paging
paging_setup_root satp p =
    let levels = paging_satp_levels satp in
    let root = u64 (satp % 2 ^ 44 * 2 ^ 12) in
    (not (levels == 0) && not (root == 0), record p { levels = levels; root_phys = root })

unfoldable pub paging_leaf_flags : ℕ → ℕ
paging_leaf_flags flags =
    let pte = bit_or pte_v pte_a in
    let pte1 = if has_bits flags flag_read then bit_or pte pte_r else pte in
    let pte2 =
      if has_bits flags flag_write then bit_or pte1 (bit_or (bit_or pte_r pte_w) pte_d) else pte1 in
    let pte3 = if has_bits flags flag_exec then bit_or pte2 pte_x else pte2 in
    if has_bits flags flag_global then bit_or pte3 pte_g else pte3

abbrev pub paging_pte_to_phys : ℕ → ℕ
paging_pte_to_phys pte = u64 (pte / 2 ^ 10 * 2 ^ 12)

abbrev pub paging_table_pte : ℕ → ℕ
paging_table_pte phys = bit_or (u64 (phys / 2 ^ 12 * 2 ^ 10)) pte_v

abbrev pub paging_level_shift : ℕ → ℕ
paging_level_shift level = 12 + level * 9

abbrev pub paging_level_block_size : ℕ → ℕ
paging_level_block_size level = 2 ^ paging_level_shift level

abbrev pub paging_level_index : (virt level : ℕ) → ℕ
paging_level_index virt level = virt / 2 ^ paging_level_shift level % 512

abbrev pub rwx : ℕ
rwx = bit_or (bit_or pte_r pte_w) pte_x

unfoldable pub paging_entry_covers : (entry virt phys flags level : ℕ) → Bool
paging_entry_covers entry virt phys flags level =
    let mapped = u64 (paging_pte_to_phys entry + virt % paging_level_block_size level) in
    let want = bit_and (paging_leaf_flags flags) rwx in
    if bit_and entry pte_v == 0
    then false
    else if not (mapped == phys)
    then false
    else if not (bit_and entry want == want)
    then false
    else if has_bits flags flag_write && (bit_and entry pte_d == 0)
    then false
    else if bit_and entry pte_a == 0
    then false
    else true

-- `memset(table, 0, PAGE_SIZE)`
abbrev pub clear_table : ℕ → (ℕ → ℕ) → ℕ → ℕ
clear_table table words a = if leb table a && ltb a (table + page_size) then 0 else words a

-- From the pool, which stands in the image of the kernel.
unfoldable pub alloc_early : Layout → Paging → Option ℕ × Paging
alloc_early l p =
    if leb pool_tables p.pool_used
    then (none, p)
    else (let table = l.pool + p.pool_used * page_size in
        (some table, record p { pool_used = p.pool_used + 1; words = clear_table table p.words }))

unfoldable pub paging_alloc_table : Layout → Paging → Option (Option ℕ × Paging)
paging_alloc_table l p =
    if p.pmm.ready
    then elim (page_alloc 0 p.pmm) [
      | none ↦ none
      | some (none, pmm) ↦ some (alloc_early l (record p { pmm = pmm }))
      | some (some page, pmm) ↦
          let table = phys_to_virt l.offset (pfndb_page_to_phys pmm.db (some page)) in
          some (some table, record p { pmm = pmm; words = clear_table table p.words })
    ]
    else some (alloc_early l p)

-- The address of `table[index]`.
abbrev pub slot : (table index : ℕ) → ℕ
slot table index = table + 8 * index

unfoldable pub map_leaf : (table virt phys flags : ℕ) → Paging → Bool × Paging
map_leaf table virt phys flags p =
    let at = slot table (paging_level_index virt 0) in
    let entry = p.words at in
    if has_bits entry pte_v && paging_entry_covers entry virt phys flags 0
    then (true, p)
    else (let leaf = bit_or (u64 (phys / page_size * 2 ^ 10)) (paging_leaf_flags flags) in
        (true, record p { words = update p.words at leaf }))

-- The entry for a new table, and its write, if there is a table.
unfoldable pub install_table : Layout → (at : ℕ) → Option ℕ → Paging → Option ℕ × Paging
install_table l at none p = (none, p)
install_table l at (some table) p =
    let entry = paging_table_pte (virt_to_phys l.offset table) in
    (some entry, record p { words = update p.words at entry })

-- `if (!f(...)) return false;` and what follows.
abbrev pub and_then :
    Option (Bool × Paging) → (Paging → Option (Bool × Paging)) → Option (Bool × Paging)
and_then none rest = none
and_then (some (false, p)) rest = some (false, p)
and_then (some (true, p)) rest = rest p

-- The entry of a level, which is made to point to a new table if it is not valid. The second
-- component is `none` if there is no table to be had.
unfoldable pub map_enter : Layout → (at : ℕ) → Paging → Option (Option ℕ × Paging)
map_enter l at p =
    if bit_and (p.words at) pte_v == 0
    then elim (paging_alloc_table l p) [
      | none ↦ none
      | some (table, p') ↦ some (install_table l at table p')
    ]
    else some (some (p.words at), p)

-- The loop from `level` down to 1, and then the leaf.
unfoldable pub map_walk :
    Layout → (level table virt phys flags : ℕ) → Paging → Option (Bool × Paging)
map_walk l zero table virt phys flags p = some (map_leaf table virt phys flags p)
map_walk l (suc level) table virt phys flags p =
    elim (map_enter l (slot table (paging_level_index virt (suc level))) p) [
      | none ↦ none
      | some (none, p') ↦ some (false, p')
      | some (some entry, p') ↦
          let table' = phys_to_virt l.offset (paging_pte_to_phys entry) in
          let next = map_walk l level table' virt phys flags p' in
          if has_bits entry rwx
          then some (paging_entry_covers entry virt phys flags (suc level), p')
          else next
    ]

-- `g_levels - 1` on `unsigned`.
unfoldable pub paging_map_one :
    Layout → (root virt phys flags : ℕ) → Paging → Option (Bool × Paging)
paging_map_one l root virt phys flags p =
    map_walk l (u32 (p.levels + (2 ^ 32 - 1))) root virt phys flags p

unfoldable pub paging_map_page : Layout → (virt phys flags : ℕ) → Paging → Option (Bool × Paging)
paging_map_page l virt phys flags p =
    if not (virt % page_size == 0) || (not (phys % page_size == 0) || (p.root_phys == 0))
    then some (false, p)
    else paging_map_one l (phys_to_virt l.offset p.root_phys) virt phys flags p

-- `count` pages, one after the other, until one cannot be mapped.
unfoldable pub map_pages : Layout → (count virt phys flags : ℕ) → Paging → Option (Bool × Paging)
map_pages l zero virt phys flags p = some (true, p)
map_pages l (suc count) virt phys flags p =
    and_then (paging_map_page l virt phys flags p)
      (λ p'. map_pages l count (u64 (virt + page_size)) (u64 (phys + page_size)) flags p')

-- The rounds of `while (virt_addr < end)`. An address that is not at a page boundary ends the
-- first round, so `end - virt` is a multiple of the page size where there is a second one.
unfoldable pub paging_map_range :
    Layout → (virt phys size flags : ℕ) → Paging → Option (Bool × Paging)
paging_map_range l virt phys size flags p =
    let end = u64 (virt + page_align_up size) in
    if size == 0
    then some (true, p)
    else map_pages l ((end - virt + page_size - 1) / page_size) virt phys flags p

-- PAGING_PROT_RWG
abbrev pub prot_rwg : ℕ
prot_rwg = bit_or (bit_or flag_read flag_write) flag_global

unfoldable pub paging_map_mmio : Layout → (phys size : ℕ) → Paging → Option (Bool × Paging)
paging_map_mmio l phys size p =
    let start = page_align_down phys in
    let end = page_align_up (u64 (phys + size)) in
    if size == 0
    then some (false, p)
    else paging_map_range l (phys_to_virt l.offset start) start (sub64 end start) prot_rwg p

-- What the boot loader answered: the memory map, whether there is an offset of the higher-half
-- map, and the physical and virtual base of the kernel.
pub record Responses : Type 0 where
  pub memmap : Option (List Entry)
  pub hhdm : Bool
  pub executable : Option (ℕ × ℕ)

-- A `struct paging_segment` without its name.
pub record Segment : Type 0 where
  pub start : ℕ
  pub end : ℕ
  pub flags : ℕ

-- The symbols of the linker script around the parts of the kernel.
pub record Symbols : Type 0 where
  pub requests_start : ℕ
  pub text_start : ℕ
  pub text_end : ℕ
  pub rodata_start : ℕ
  pub rodata_end : ℕ
  pub data_start : ℕ
  pub bss_end : ℕ

-- PAGING_PROT_RXG and PAGING_PROT_RG
abbrev prot_rxg : ℕ
prot_rxg = bit_or (bit_or flag_read flag_exec) flag_global

abbrev prot_rg : ℕ
prot_rg = bit_or flag_read flag_global

-- PAGING_KERNEL_SEGMENT_LIST, without the names.
abbrev pub kernel_segments : Symbols → List Segment
kernel_segments s =
    record { start = s.requests_start; end = s.text_start; flags = prot_rwg }
    ∷ record { start = s.text_start; end = s.text_end; flags = prot_rxg }
    ∷ record { start = s.rodata_start; end = s.rodata_end; flags = prot_rg }
    ∷ record { start = s.data_start; end = s.bss_end; flags = prot_rwg }
    ∷ []

unfoldable pub map_hhdm_entries : Layout → List Entry → Paging → Option (Bool × Paging)
map_hhdm_entries l [] p = some (true, p)
map_hhdm_entries l (e ∷ es) p =
    let start = page_align_down e.base in
    let end = page_align_up (u64 (e.base + e.length)) in
    if start == end
    then map_hhdm_entries l es p
    else and_then
        (paging_map_range l (phys_to_virt l.offset start) start (sub64 end start) prot_rwg p)
        (λ p'. map_hhdm_entries l es p')

unfoldable pub paging_map_hhdm : Layout → Responses → Paging → Option (Bool × Paging)
paging_map_hhdm l r p = elim r.memmap [
  | none ↦ some (false, p)
  | some memmap ↦ if r.hhdm then map_hhdm_entries l memmap p else some (false, p)
]

-- `count` pages of a segment from `virt` on.
unfoldable pub map_segment_pages :
    Layout → (kernel_phys kernel_virt count virt flags : ℕ) → Paging → Option (Bool × Paging)
map_segment_pages l kernel_phys kernel_virt zero virt flags p = some (true, p)
map_segment_pages l kernel_phys kernel_virt (suc count) virt flags p =
    and_then (paging_map_page l virt (u64 (kernel_phys + sub64 virt kernel_virt)) flags p)
      (λ p'. map_segment_pages l kernel_phys kernel_virt count (u64 (virt + page_size)) flags p')

unfoldable pub paging_map_kernel_segment :
    Layout → Responses → Segment → Paging → Option (Bool × Paging)
paging_map_kernel_segment l r g p =
    let start = page_align_down g.start in
    let end = page_align_up g.end in
    if leb end start then some (true, p) else elim r.executable [
      | none ↦ some (true, p)
      | some (phys, virt) ↦
          map_segment_pages l phys virt ((end - start) / page_size) start g.flags p
    ]

-- The segments are `kernel_segments`, at the addresses of the linker script.
unfoldable pub paging_map_kernel_segments :
    Layout → Responses → List Segment → Paging → Option (Bool × Paging)
paging_map_kernel_segments l r [] p = some (true, p)
paging_map_kernel_segments l r (g ∷ gs) p =
    and_then (paging_map_kernel_segment l r g p) (λ p'. paging_map_kernel_segments l r gs p')

unfoldable pub paging_early_init : (satp : ℕ) → Responses → Paging → Bool × Paging
paging_early_init satp r p =
    let (ok, p') = paging_setup_root satp (record p { pool_used = 0 }) in
    if not ok then (false, p') else if not r.hhdm then (false, p') else (true, p')

abbrev pub is_there {ℓ} : {A : Type ℓ} → Option A → Bool
is_there none = false
is_there (some a) = true

unfoldable pub paging_init :
    (satp : ℕ) → Layout → Responses → List Segment → Paging → Option (Bool × Paging)
paging_init satp l r segments p =
    let (ok, p') = paging_setup_root satp (record p { pool_used = 0 }) in
    if not ok || (not r.hhdm || (not (is_there r.memmap) || not (is_there r.executable)))
    then some (false, p')
    else and_then (paging_map_hhdm l r p') (λ p2. paging_map_kernel_segments l r segments p2)
