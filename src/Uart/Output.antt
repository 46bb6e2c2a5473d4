-- ===== src/Uart/Output.antt =====
-- What `uart_putc` and `uart_puts` do to the registers.
use risky.Base.{
  ℕ, zero, suc, ◌+◌, ◌*◌, ◌≤◌, ◌≡◌, refl, ap, ◌∙◌, arith, Bool, true, false, List, [], ◌∷◌, length,
  u8, on_true,
}
use risky.Fdt.Blob.{Text}
use risky.Uart.{
  UartPort, Access, wrote, was_read, Uart, uart_thr, uart_lsr, reg_addr, uart_write_reg,
  uart_read_reg, tx_empty, uart_spins, wait_empty, uart_putc, uart_puts,
}

-- The writes among the accesses, by address and value.
abbrev pub writes : List Access → List (ℕ × ℕ)
writes [] = []
writes (wrote wide addr value ∷ trace) = (addr, value) ∷ writes trace
writes (was_read wide addr ∷ trace) = writes trace

-- The bytes, one by one, before what was there.
abbrev pub sends : (addr : ℕ) → Text → List (ℕ × ℕ) → List (ℕ × ℕ)
sends addr [] rest = rest
sends addr (c ∷ cs) rest = sends addr cs ((addr, u8 c) ∷ rest)

-- From the first state to the second only reads, `count` of them at most.
record Waited (count : ℕ) (u u' : Uart) : Type 0 where
  port : u'.uart0 ≡ u.uart0
  ready : u'.uart_ready ≡ u.uart_ready
  only_reads : writes u'.trace ≡ writes u.trace
  few : length u'.trace ≤ length u.trace + count

-- One write of the byte to the transmitter.
record Sent (c : ℕ) (u u' : Uart) : Type 0 where
  port : u'.uart0 ≡ u.uart0
  ready : u'.uart_ready ≡ u.uart_ready
  sent : writes u'.trace ≡ (reg_addr u.uart0 uart_thr, u8 c) ∷ writes u.trace
  few : length u'.trace ≤ length u.trace + (uart_spins + 1)

module _ (device : List Access → ℕ) where
  wait_empty-Waited : (spins : ℕ) (u : Uart) → Waited spins u (wait_empty spins device u)
  unfolding wait_empty uart_read_reg
  wait_empty-Waited zero u = record {
    port = refl;
    ready = refl;
    only_reads = refl;
    few = omega arith;
  }
  wait_empty-Waited (suc spins) u =
      go (tx_empty (u8 (device u.trace)))
        (wait_empty-Waited spins (uart_read_reg device uart_lsr u).1)
    where
      go :
          (empty : Bool)
          → Waited spins
              ((uart_read_reg device uart_lsr u).1)
              (wait_empty spins device ((uart_read_reg device uart_lsr u).1))
          → Waited (suc spins) u (elim empty as (λ _. Uart) [
            | true ↦ (uart_read_reg device uart_lsr u).1
            | false ↦ wait_empty spins device ((uart_read_reg device uart_lsr u).1)
          ])
      go true later = record { port = refl; ready = refl; only_reads = refl; few = omega arith }
      go false later = record {
        port = later.port;
        ready = later.ready;
        only_reads = later.only_reads;
        few = omega (arith, later.few);
      }

  putc_write :
      (c : ℕ) (u : Uart)
      → u.uart_ready ≡ true
      → uart_putc device c u ≡ uart_write_reg uart_thr (u8 c) (wait_empty uart_spins device u)
  unfolding uart_putc
  putc_write c u ready = on_true u.uart_ready _ u ready refl

  write-Sent :
      (c : ℕ) (u w : Uart) → Waited uart_spins u w → Sent c u (uart_write_reg uart_thr (u8 c) w)
  unfolding uart_write_reg
  write-Sent c u w waited =
      let once : u8 (u8 c) ≡ u8 c = omega arith in
      record {
        port = waited.port;
        ready = waited.ready;
        sent = rw (waited.only_reads, once, waited.port) refl;
        few = omega (arith, waited.few);
      }

  uart_putc-Sent : (c : ℕ) (u : Uart) → u.uart_ready ≡ true → Sent c u (uart_putc device c u)
  uart_putc-Sent c u ready =
      rw (putc_write c u ready) (write-Sent c u _ (wait_empty-Waited uart_spins u))

  pub uart_putc-ready :
      (c : ℕ) (u : Uart) → u.uart_ready ≡ true → (uart_putc device c u).uart_ready ≡ true
  uart_putc-ready c u ready = (uart_putc-Sent c u ready).ready ∙ ready

  pub uart_puts-port :
      (cs : Text) (u : Uart)
      → u.uart_ready ≡ true
      → ((uart_puts device cs u).uart0 ≡ u.uart0) × ((uart_puts device cs u).uart_ready ≡ true)
  unfolding uart_puts
  uart_puts-port [] u ready = (refl, ready)
  uart_puts-port (c ∷ cs) u ready =
      let one = uart_putc-Sent c u ready in
      let rest = uart_puts-port cs (uart_putc device c u) (one.ready ∙ ready) in
      (rest.0 ∙ one.port, rest.1)

  pub uart_puts_lem :
      (cs : Text) (u : Uart)
      → u.uart_ready ≡ true
      → (writes (uart_puts device cs u).trace
          ≡ sends (reg_addr u.uart0 uart_thr) cs (writes u.trace))
        × (length (uart_puts device cs u).trace ≤ length u.trace + (uart_spins + 1) * length cs)
  unfolding uart_puts
  uart_puts_lem [] u ready = (refl, omega arith)
  uart_puts_lem (c ∷ cs) u ready =
      let one = uart_putc-Sent c u ready in
      let rest = uart_puts_lem cs (uart_putc device c u) (one.ready ∙ ready) in
      (
        rest.0
            ∙ ap
                (λ (q : UartPort).
                  sends (reg_addr q uart_thr) cs (writes (uart_putc device c u).trace))
                one.port
            ∙ ap (sends (reg_addr u.uart0 uart_thr) cs) one.sent,
        omega (arith, rest.1, one.few),
      )
