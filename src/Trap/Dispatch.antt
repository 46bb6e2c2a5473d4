-- ===== src/Trap/Dispatch.antt =====
-- What the handler does with every cause.
use Prim.Native.String.{String}
use risky.Base.{
  ℕ, ◌+◌, ◌^◌, ◌≤◌, ◌<◌, ◌≡◌, refl, arith, Bool, true, false, ◌||◌, some, List, [], ◌∷◌, length,
  get_elem?, ◌==◌, if◌then◌else◌, Bool-cases, ◌⊎◌, inl, inr,
}
use risky.Trap.{
  TrapFrame, Arg, word, str, returns, halts, Trapped, irq_s_timer, bit, scause_cause,
  scause_interrupt_bit, exc_ecall_from_u, exc_ecall_from_s, trap_exception_name, kpanic,
  next_instruction, handle_interrupt, handle_exception, handle_fault, trap_handler,
}

-- The handler of an interrupt returns with the frame that it was given. One
-- message is printed, none for the timer.
trap_handler_interrupt :
    (tf : TrapFrame)
    → 2 ^ 63 ≤ tf.scause
    → tf.scause < 2 ^ 64
    → ((trap_handler tf).control ≡ returns)
      × ((trap_handler tf).frame ≡ tf)
      × (length (trap_handler tf).log ≡ (if tf.scause == 2 ^ 63 + irq_s_timer then 0 else 1))
unfolding trap_handler handle_interrupt
trap_handler_interrupt tf lo hi =
    let interrupt : (bit scause_interrupt_bit tf.scause == 0) ≡ false = ground arith in
    rw interrupt (refl, refl, printed (Bool-cases (scause_cause tf.scause == irq_s_timer)))
  where
    printed :
        ((scause_cause tf.scause == irq_s_timer) ≡ true)
          ⊎ ((scause_cause tf.scause == irq_s_timer) ≡ false)
        → length (handle_interrupt tf (scause_cause tf.scause)).log
          ≡ (if tf.scause == 2 ^ 63 + irq_s_timer then 0 else 1)
    printed (inl e) =
        let timer : (tf.scause == 2 ^ 63 + irq_s_timer) ≡ true = ground arith in rw (e, timer) refl
    printed (inr e) =
        let other : (tf.scause == 2 ^ 63 + irq_s_timer) ≡ false = ground arith in rw (e, other) refl

-- The handler halts with the frame, and the fourth message names the exception.
pub record Panics (tf : TrapFrame) (t : Trapped) : Type 0 where
  pub halted : t.control ≡ halts
  pub left : t.frame ≡ tf
  pub named :
      get_elem? t.log 3
      ≡ some (record {
        format = "trap: %s cause=%lu <%s>";
        args = str "exception" ∷ word tf.scause ∷ str (trap_exception_name tf.scause) ∷ [];
      })

kpanic-Panics :
    (tf : TrapFrame) (format : String) (args : List Arg)
    → tf.scause < 2 ^ 63
    → Panics tf (kpanic tf format args)
unfolding kpanic
kpanic-Panics tf format args small =
    let exception : (bit scause_interrupt_bit tf.scause == 0) ≡ true = ground arith in
    let cause : scause_cause tf.scause ≡ tf.scause = omega arith in
    record { halted = refl; left = refl; named = rw (exception, cause) refl }

if-Panics :
    (tf : TrapFrame) (test : Bool) (x y : Trapped)
    → Panics tf x
    → Panics tf y
    → Panics tf (if test then x else y)
if-Panics tf true x y h k = h
if-Panics tf false x y h k = k

handle_fault-Panics :
    (tf : TrapFrame) (cause : ℕ) → tf.scause < 2 ^ 63 → Panics tf (handle_fault tf cause)
unfolding handle_fault
handle_fault-Panics tf cause small = search (if-Panics, kpanic-Panics)

-- An exception halts the kernel with the cause and its name printed. For a call of the environment
-- the frame is moved on to the next instruction, for any other cause it is as it was.
pub trap_handler_exception :
    (tf : TrapFrame)
    → tf.scause < 2 ^ 63
    → Panics
        (if tf.scause == exc_ecall_from_u || tf.scause == exc_ecall_from_s
          then next_instruction tf
          else tf)
        (trap_handler tf)
unfolding trap_handler handle_exception
trap_handler_exception tf small =
    let exception : (bit scause_interrupt_bit tf.scause == 0) ≡ true = ground arith in
    let cause : scause_cause tf.scause ≡ tf.scause = omega arith in
    rw (exception, cause)
      (elim (Bool-cases (tf.scause == exc_ecall_from_u)) [
        | inl u ↦ rw u (kpanic-Panics (next_instruction tf) "U-mode ecall" [] small)
        | inr not_u ↦ rw not_u (elim (Bool-cases (tf.scause == exc_ecall_from_s)) [
          | inl s ↦ rw s (kpanic-Panics (next_instruction tf) "S-mode ecall" [] small)
          | inr not_s ↦ rw not_s (handle_fault-Panics tf tf.scause small)
        ])
      ])
