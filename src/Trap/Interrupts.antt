-- ===== src/Trap/Interrupts.antt =====
-- The control and status registers of kernel/src/platform/generic/csr.h that trap.c writes. A mask
-- is the list of its bits. The message of `trap_init` is left out.
use risky.Base.{
  ℕ, ◌+◌, ◌-◌, ◌*◌, ◌/◌, ◌%◌, ◌^◌, ◌<◌, ◌≤◌, ◌≡◌, arith, List, [], ◌∷◌, ◌==◌, if◌then◌else◌,
}
use risky.Trap.{bit}

pub record Csrs : Type 0 where
  pub sstatus : ℕ
  pub sie : ℕ
  pub stvec : ℕ

abbrev csr_set : List ℕ → ℕ → ℕ
csr_set [] x = x
csr_set (n ∷ mask) x = csr_set mask (if bit n x == 0 then x + 2 ^ n else x)

abbrev csr_clear : List ℕ → ℕ → ℕ
csr_clear [] x = x
csr_clear (n ∷ mask) x = csr_clear mask (if bit n x == 0 then x else x - 2 ^ n)

abbrev sstatus_sie : ℕ
sstatus_sie = 1

abbrev sie_ssie : ℕ
sie_ssie = 1

abbrev sie_stie : ℕ
sie_stie = 5

abbrev sie_seie : ℕ
sie_seie = 9

abbrev stvec_mode_direct : ℕ
stvec_mode_direct = 0

abbrev pub trap_enable_interrupts : Csrs → Csrs
trap_enable_interrupts r = record r { sstatus = csr_set (sstatus_sie ∷ []) r.sstatus }

abbrev pub trap_disable_interrupts : Csrs → Csrs
trap_disable_interrupts r = record r { sstatus = csr_clear (sstatus_sie ∷ []) r.sstatus }

abbrev pub trap_enable_interrupt_sources : Csrs → Csrs
trap_enable_interrupt_sources r = record r {
  sie = csr_set (sie_ssie ∷ sie_stie ∷ sie_seie ∷ []) r.sie;
}

abbrev pub trap_disable_interrupt_sources : Csrs → Csrs
trap_disable_interrupt_sources r = record r {
  sie = csr_clear (sie_ssie ∷ sie_stie ∷ sie_seie ∷ []) r.sie;
}

-- The address of the entry without its two mode bits.
abbrev pub trap_init : (trap_entry : ℕ) → Csrs → Csrs
trap_init trap_entry r = record (trap_disable_interrupt_sources (trap_disable_interrupts r)) {
  stvec = trap_entry / 4 * 4 + stvec_mode_direct;
}

clear_1 : (x : ℕ) → (if bit 1 x == 0 then x else x - 2 ^ 1) + bit 1 x * 2 ≡ x
clear_1 x = ground arith

clear_5 : (x : ℕ) → (if bit 5 x == 0 then x else x - 2 ^ 5) + bit 5 x * 32 ≡ x
clear_5 x = ground arith

clear_9 : (x : ℕ) → (if bit 9 x == 0 then x else x - 2 ^ 9) + bit 9 x * 512 ≡ x
clear_9 x = ground arith

-- The three bits of `sie` go, the others stay.
pub record Masked (x y : ℕ) : Type 0 where
  pub rest : y + bit 1 x * 2 + bit 5 x * 32 + bit 9 x * 512 ≡ x
  pub low : bit 1 y ≡ 0
  pub middle : bit 5 y ≡ 0
  pub high : bit 9 y ≡ 0

three_bits :
    (x y z w : ℕ) → y + bit 1 x * 2 ≡ x → z + bit 5 y * 32 ≡ y → w + bit 9 z * 512 ≡ z → Masked x w
three_bits x y z w a b c = record {
  rest = omega arith;
  low = omega arith;
  middle = omega arith;
  high = omega arith;
}

-- From the state that `trap_init` leaves, no interrupt is taken and no source is enabled, all other
-- bits of both registers are as they were, and the vector is the entry, rounded down to four bytes.
trap_init-Masked :
    (trap_entry : ℕ) (r : Csrs)
    → ((trap_init trap_entry r).sstatus + bit 1 r.sstatus * 2 ≡ r.sstatus)
      × (bit 1 (trap_init trap_entry r).sstatus ≡ 0)
      × Masked r.sie (trap_init trap_entry r).sie
      × ((trap_init trap_entry r).stvec % 4 ≡ 0)
      × ((trap_init trap_entry r).stvec ≤ trap_entry)
      × (trap_entry < (trap_init trap_entry r).stvec + 4)
trap_init-Masked trap_entry r =
    let kept = clear_1 r.sstatus in
    (
      kept,
      omega arith,
      three_bits r.sie _ _ _ (clear_1 r.sie) (clear_5 _) (clear_9 _),
      omega arith,
      omega arith,
      omega arith,
    )
