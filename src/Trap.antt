-- ===== src/Trap.antt =====
-- kernel/src/platform/generic/trap.c and trap.h: the handler of traps. What a handler prints is the
-- list of its calls of `klog`; the loop around `cpu_wfi` is the control `halts`.
use Prim.Native.String.{String}
use risky.Base.{
  ℕ, ◌+◌, ◌-◌, ◌*◌, ◌/◌, ◌%◌, ◌^◌, Bool, true, false, ◌||◌, Option, none, some, List, [], ◌∷◌, ◌++◌,
  ◌==◌, if◌then◌else◌, u64,
}
pub mod Interrupts
mod Dispatch
mod Tests

-- `struct trap_frame` without `padding`
pub record TrapFrame : Type 0 where
  pub ra : ℕ
  pub sp : ℕ
  pub gp : ℕ
  pub tp : ℕ
  pub t0 : ℕ
  pub t1 : ℕ
  pub t2 : ℕ
  pub s0 : ℕ
  pub s1 : ℕ
  pub a0 : ℕ
  pub a1 : ℕ
  pub a2 : ℕ
  pub a3 : ℕ
  pub a4 : ℕ
  pub a5 : ℕ
  pub a6 : ℕ
  pub a7 : ℕ
  pub s2 : ℕ
  pub s3 : ℕ
  pub s4 : ℕ
  pub s5 : ℕ
  pub s6 : ℕ
  pub s7 : ℕ
  pub s8 : ℕ
  pub s9 : ℕ
  pub s10 : ℕ
  pub s11 : ℕ
  pub t3 : ℕ
  pub t4 : ℕ
  pub t5 : ℕ
  pub t6 : ℕ
  pub sstatus : ℕ
  pub sepc : ℕ
  pub scause : ℕ
  pub stval : ℕ

-- A value that a format takes.
pub data Arg : Type 0 where
  word : ℕ → Arg
  str : String → Arg

-- A call of `klog`.
pub record Message : Type 0 where
  pub format : String
  pub args : List Arg

pub data Control : Type 0 where
  returns : Control
  halts : Control

-- The frame as it is left, what was printed, and how it ended.
pub record Trapped : Type 0 where
  pub frame : TrapFrame
  pub log : List Message
  pub control : Control

abbrev pub irq_s_software : ℕ
irq_s_software = 1

abbrev pub irq_s_timer : ℕ
irq_s_timer = 5

abbrev pub irq_s_external : ℕ
irq_s_external = 9

abbrev pub exc_inst_misaligned : ℕ
exc_inst_misaligned = 0

abbrev pub exc_inst_access : ℕ
exc_inst_access = 1

abbrev pub exc_illegal_inst : ℕ
exc_illegal_inst = 2

abbrev pub exc_breakpoint : ℕ
exc_breakpoint = 3

abbrev pub exc_load_misaligned : ℕ
exc_load_misaligned = 4

abbrev pub exc_load_access : ℕ
exc_load_access = 5

abbrev pub exc_store_misaligned : ℕ
exc_store_misaligned = 6

abbrev pub exc_store_access : ℕ
exc_store_access = 7

abbrev pub exc_ecall_from_u : ℕ
exc_ecall_from_u = 8

abbrev pub exc_ecall_from_s : ℕ
exc_ecall_from_s = 9

abbrev pub exc_inst_page_fault : ℕ
exc_inst_page_fault = 12

abbrev pub exc_load_page_fault : ℕ
exc_load_page_fault = 13

abbrev pub exc_store_page_fault : ℕ
exc_store_page_fault = 15

abbrev pub trap_interrupt_name : (cause : ℕ) → String
trap_interrupt_name cause =
    if cause == irq_s_software
    then "supervisor software interrupt"
    else if cause == irq_s_timer
    then "supervisor timer interrupt"
    else if cause == irq_s_external
    then "supervisor external interrupt"
    else "unknown supervisor interrupt"

abbrev pub trap_exception_name : (cause : ℕ) → String
trap_exception_name cause =
    if cause == exc_inst_misaligned
    then "instruction address misaligned"
    else if cause == exc_inst_access
    then "instruction access fault"
    else if cause == exc_illegal_inst
    then "illegal instruction"
    else if cause == exc_breakpoint
    then "breakpoint"
    else if cause == exc_load_misaligned
    then "load address misaligned"
    else if cause == exc_load_access
    then "load access fault"
    else if cause == exc_store_misaligned
    then "store/AMO address misaligned"
    else if cause == exc_store_access
    then "store/AMO access fault"
    else if cause == exc_ecall_from_u
    then "environment call from U-mode"
    else if cause == exc_ecall_from_s
    then "environment call from S-mode"
    else if cause == exc_inst_page_fault
    then "instruction page fault"
    else if cause == exc_load_page_fault
    then "load page fault"
    else if cause == exc_store_page_fault
    then "store/AMO page fault"
    else "unknown exception"

-- Bit `n` of a word.
abbrev pub bit : ℕ → ℕ → ℕ
bit n x = x / 2 ^ n % 2

abbrev pub scause_interrupt_bit : ℕ
scause_interrupt_bit = 63

abbrev pub sstatus_spp : ℕ
sstatus_spp = 8

abbrev pub scause_cause : ℕ → ℕ
scause_cause raw = raw % 2 ^ 63

abbrev pub trap_mode_name : TrapFrame → String
trap_mode_name tf = if bit sstatus_spp tf.sstatus == 0 then "U-mode" else "S-mode"

abbrev klog : String → List Arg → Message
klog format args = record { format = format; args = args }

unfoldable pub trap_dump_frame : TrapFrame → List Message
trap_dump_frame tf =
    klog "mode:    %s" (str (trap_mode_name tf) ∷ [])
    ∷ klog "sepc:    0x%016lx" (word tf.sepc ∷ [])
    ∷ klog "sstatus: 0x%016lx" (word tf.sstatus ∷ [])
    ∷ klog "scause:  0x%016lx" (word tf.scause ∷ [])
    ∷ klog "stval:   0x%016lx" (word tf.stval ∷ [])
    ∷ klog "ra: 0x%016lx  sp: 0x%016lx  gp: 0x%016lx  tp: 0x%016lx"
        (word tf.ra ∷ word tf.sp ∷ word tf.gp ∷ word tf.tp ∷ [])
    ∷ klog "t0: 0x%016lx  t1: 0x%016lx  t2: 0x%016lx" (word tf.t0 ∷ word tf.t1 ∷ word tf.t2 ∷ [])
    ∷ klog "s0: 0x%016lx  s1: 0x%016lx" (word tf.s0 ∷ word tf.s1 ∷ [])
    ∷ klog "a0: 0x%016lx  a1: 0x%016lx  a2: 0x%016lx  a3: 0x%016lx"
        (word tf.a0 ∷ word tf.a1 ∷ word tf.a2 ∷ word tf.a3 ∷ [])
    ∷ klog "a4: 0x%016lx  a5: 0x%016lx  a6: 0x%016lx  a7: 0x%016lx"
        (word tf.a4 ∷ word tf.a5 ∷ word tf.a6 ∷ word tf.a7 ∷ [])
    ∷ klog "s2: 0x%016lx  s3: 0x%016lx  s4: 0x%016lx  s5: 0x%016lx"
        (word tf.s2 ∷ word tf.s3 ∷ word tf.s4 ∷ word tf.s5 ∷ [])
    ∷ klog "s6: 0x%016lx  s7: 0x%016lx  s8: 0x%016lx  s9: 0x%016lx"
        (word tf.s6 ∷ word tf.s7 ∷ word tf.s8 ∷ word tf.s9 ∷ [])
    ∷ klog "s10:0x%016lx  s11:0x%016lx" (word tf.s10 ∷ word tf.s11 ∷ [])
    ∷ klog "t3: 0x%016lx  t4: 0x%016lx  t5: 0x%016lx  t6: 0x%016lx"
        (word tf.t3 ∷ word tf.t4 ∷ word tf.t5 ∷ word tf.t6 ∷ [])
    ∷ []

-- A panic with a frame.
unfoldable pub kpanic : TrapFrame → (format : String) → List Arg → Trapped
kpanic tf format args =
    let cause = scause_cause tf.scause in
    let interrupt = bit scause_interrupt_bit tf.scause in
    record {
      frame = tf;
      log =
          klog "" []
          ∷ klog "------------[ kernel panic ]------------" []
          ∷ klog format args
          ∷ klog "trap: %s cause=%lu <%s>" (
              str (if interrupt == 0 then "exception" else "interrupt")
              ∷ word cause
              ∷ str
                  (if interrupt == 0 then trap_exception_name cause else trap_interrupt_name cause)
              ∷ [])
          ∷ (trap_dump_frame tf ++ (klog "----------------------------------------" [] ∷ []));
      control = halts;
    }

unfoldable pub handle_interrupt : TrapFrame → (cause : ℕ) → Trapped
handle_interrupt tf cause = record {
  frame = tf;
  log =
      if cause == irq_s_timer
      then []
      else klog "trap: ignoring unhandled interrupt cause=%lu <%s> sepc=0x%lx stval=0x%lx"
          (word cause ∷ str (trap_interrupt_name cause) ∷ word tf.sepc ∷ word tf.stval ∷ [])
        ∷ [];
  control = returns;
}

abbrev pub next_instruction : TrapFrame → TrapFrame
next_instruction tf = record tf { sepc = u64 (tf.sepc + 4) }

-- The cases that leave the frame as it is; labels that share a body are a test with `||`.
unfoldable pub handle_fault : TrapFrame → (cause : ℕ) → Trapped
handle_fault tf cause =
    if cause == exc_breakpoint
    then kpanic tf "breakpoint" []
    else if cause == exc_illegal_inst
    then kpanic tf "illegal instruction at sepc=0x%lx" (word tf.sepc ∷ [])
    else if cause == exc_inst_page_fault
        || cause == exc_load_page_fault
        || cause == exc_store_page_fault
    then kpanic tf "page fault at sepc=0x%lx fault=0x%lx" (word tf.sepc ∷ word tf.stval ∷ [])
    else if cause == exc_inst_misaligned
        || cause == exc_inst_access
        || cause == exc_load_misaligned
        || cause == exc_load_access
        || cause == exc_store_misaligned
        || cause == exc_store_access
    then kpanic tf "%s" (str (trap_exception_name cause) ∷ [])
    else kpanic tf "unhandled exception cause=%lu" (word cause ∷ [])

unfoldable pub handle_exception : TrapFrame → (cause : ℕ) → Trapped
handle_exception tf cause =
    if cause == exc_ecall_from_u
    then kpanic (next_instruction tf) "U-mode ecall" []
    else if cause == exc_ecall_from_s
    then kpanic (next_instruction tf) "S-mode ecall" []
    else handle_fault tf cause

unfoldable pub trap_handler : TrapFrame → Trapped
trap_handler tf =
    if bit scause_interrupt_bit tf.scause == 0
    then handle_exception tf (scause_cause tf.scause)
    else handle_interrupt tf (scause_cause tf.scause)
