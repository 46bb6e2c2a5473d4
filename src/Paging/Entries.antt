-- ===== src/Paging/Entries.antt =====
-- The fields of page table entries, and the indexes of the levels.
use risky.Base.{ℕ, ◌+◌, ◌*◌, ◌/◌, ◌%◌, ◌^◌, ◌<◌, ◌≡◌, arith, bit_or-one, u64}
use risky.Page.{page_size}
use risky.Paging.{paging_pte_to_phys, paging_table_pte, paging_level_index, pte_v}

-- The entry for a table at a page boundary below 2^56 leads back to the table, is valid, and has
-- none of the permission bits that would make it a leaf.
pub pte_to_phys-table_pte :
    (phys : ℕ)
    → phys % page_size ≡ 0
    → phys < 2 ^ 56
    → (paging_pte_to_phys (paging_table_pte phys) ≡ phys) × (paging_table_pte phys % 16 ≡ pte_v)
pte_to_phys-table_pte phys aligned small =
    let field = bit_or-one (u64 (phys / 2 ^ 12 * 2 ^ 10)) (omega arith) in
    rw field (omega arith, omega arith)

-- The indexes of the three levels of Sv39 and the offset in the page make up the low 39 bits of
-- an address.
level_index_sv39 :
    (virt : ℕ)
    → paging_level_index virt 2 * 2 ^ 30
        + paging_level_index virt 1 * 2 ^ 21
        + paging_level_index virt 0 * 2 ^ 12
        + virt % page_size
      ≡ virt % 2 ^ 39
level_index_sv39 virt = omega arith
