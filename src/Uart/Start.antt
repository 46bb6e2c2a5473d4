-- ===== src/Uart/Start.antt =====
-- `uart_init` as a whole.
use risky.Base.{
  ℕ, suc, ◌≡◌, refl, ap, ◌∙◌, Bool, true, false, Option, none, some, List, ◌∷◌, if◌then◌else◌, u8,
  on_false, Outcome, done, fault, ◌>>=◌, or_else,
}
use risky.Pmm.Invariant.{View}
use risky.Fdt.Blob.{Text}
use risky.Paging.{Paging, Layout, paging_map_mmio}
use risky.Paging.Kept.{IsMapping, Kept}
use risky.Paging.Ranges.{map_mmio-Kept}
use risky.Dtb.{Dtb}
use risky.Uart.{
  UartPort, Access, Uart, uart_ier, uart_lcr, uart_dll, uart_dlm, uart_fcr, uart_lcr_dlab, uart_lsr,
  reg_addr, uart_write_reg, uart_read_reg, rx_ready, uart_find_port, default_port, uart_setup,
  uart_drain, map_registers, uart_puts, uart_thr, uart_open, uart_init,
}
use risky.Uart.Output.{writes, sends, uart_puts-port, uart_puts_lem}

-- The writes of the set-up, the last one first.
abbrev pub setup_writes : UartPort → List (ℕ × ℕ) → List (ℕ × ℕ)
setup_writes port rest =
    (reg_addr port uart_fcr, 7)
    ∷ (reg_addr port uart_lcr, 3)
    ∷ (reg_addr port uart_dlm, 0)
    ∷ (reg_addr port uart_dll, 2)
    ∷ (reg_addr port uart_lcr, uart_lcr_dlab)
    ∷ (reg_addr port uart_ier, 0)
    ∷ rest

-- The call returns what the mapping of the registers gave; the port is ready and set up, and the
-- message sent on it, if and only if they were mapped, and the memory manager is in order.
pub record Started (max_pfn : ℕ) (l : Layout) (message : Text) (v : View) (p : Paging)
    (port : UartPort) (u : Uart) (o : Outcome (Bool × (Paging × Uart))) : Type 0 where
  pub mapped : Bool
  pub state : Paging
  pub uart : Uart
  pub maps : paging_map_mmio l port.base port.size p ≡ some (mapped, state)
  pub returns : o ≡ done (mapped, (state, uart))
  pub kept : Kept max_pfn v p (some (mapped, state))
  pub ready : uart.uart_ready ≡ mapped
  pub port_is : uart.uart0 ≡ port
  pub set_up : writes uart.trace ≡ (
      if mapped
      then sends (reg_addr port uart_thr) message (setup_writes port (writes u.trace))
      else writes u.trace)

at_state :
    {max_pfn : ℕ} {v : View} {p : Paging} {r : Option (Bool × Paging)} (k : Kept max_pfn v p r)
    → Kept max_pfn v p (some (k.value, k.state))
at_state k = record {
  value = k.value;
  state = k.state;
  view = k.view;
  returns = refl;
  is_mapping = k.is_mapping;
  keeps = k.keeps;
  root = k.root;
  levels = k.levels;
  pool_le = k.pool_le;
}

module _ (device : List Access → ℕ)
    (quiet : (t : List Access) → rx_ready (u8 (device t)) ≡ false) where
  drain_quiet :
      (rounds : ℕ) (u : Uart)
      → uart_drain (suc rounds) device u ≡ done (uart_read_reg device uart_lsr u).1
  unfolding uart_drain uart_read_reg
  drain_quiet rounds u = on_false (rx_ready (u8 (device u.trace))) _ _ (quiet u.trace) refl

  -- The state in which the message is sent.
  abbrev set_up_port : UartPort → Uart → Uart
  set_up_port port u =
      record (uart_setup (record { uart0 = port; uart_ready = false; trace = u.trace })) {
        uart_ready = true;
      }

  setup_lem :
      (port : UartPort) (u : Uart)
      → ((set_up_port port u).uart0 ≡ port)
        × (writes (set_up_port port u).trace ≡ setup_writes port (writes u.trace))
  unfolding uart_setup uart_write_reg
  setup_lem port u = (refl, refl)

  open-Started :
      (rounds max_pfn : ℕ) (l : Layout) (message : Text) (v : View) (p state : Paging)
      (port : UartPort) (u : Uart) (mapped : Bool)
      → paging_map_mmio l port.base port.size p ≡ some (mapped, state)
      → Kept max_pfn v p (some (mapped, state))
      → Started max_pfn l message v p port u
          (uart_open (suc rounds) device message port (mapped, state) u)
  unfolding uart_open uart_read_reg
  open-Started rounds max_pfn l message v p state port u false maps kept = record {
    mapped = false;
    state = state;
    maps = maps;
    uart = record { uart0 = port; uart_ready = false; trace = u.trace };
    returns = refl;
    kept = kept;
    ready = refl;
    port_is = refl;
    set_up = refl;
  }
  open-Started rounds max_pfn l message v p state port u true maps kept =
      let u2 : Uart = uart_puts device message (set_up_port port u) in
      let sent = uart_puts_lem device message (set_up_port port u) refl in
      let same = uart_puts-port device message (set_up_port port u) refl in
      let first = setup_lem port u in
      record {
        mapped = true;
        state = state;
        maps = maps;
        uart = (uart_read_reg device uart_lsr u2).1;
        returns =
            ap (λ (o : Outcome Uart). o >>= λ u3. done (true, (state, u3))) (drain_quiet rounds u2);
        kept = kept;
        ready = same.1;
        port_is = same.0 ∙ first.0;
        set_up =
            sent.0
            ∙ ap
                (λ (q : UartPort).
                  sends (reg_addr q uart_thr) message (writes (set_up_port port u).trace))
                first.0
            ∙ ap (sends (reg_addr port uart_thr) message) first.1;
      }

  -- When the device has nothing received, and the search for the port gives one or falls back to
  -- the default, without a fault, `uart_init` returns within any number of rounds but 0. It returns
  -- what `paging_map_mmio` gives for the registers of that port. If they are mapped, its writes are
  -- the six of the set-up in their order and then the bytes of the log message to the transmitter,
  -- and the port is ready. If not, it writes nothing and the port is not ready. The memory manager is then again between two calls, with every busy block in place.
  pub uart_init-Started :
      (rounds max_pfn : ℕ) (message : Text) (l : Layout) (s : Dtb) (v : View) (p : Paging)
      (port : UartPort) (u : Uart)
      → or_else (uart_find_port s) (done default_port) ≡ done port
      → IsMapping max_pfn v p
      → Started max_pfn l message v p port u (uart_init (suc rounds) device message l s p u)
  unfolding uart_init
  uart_init-Started rounds max_pfn message l s v p port u found mapping =
      let k = map_mmio-Kept max_pfn l port.base port.size v p mapping in
      let open_ = uart_open (suc rounds) device message port in
      let steps : uart_init (suc rounds) device message l s p u ≡ open_ (k.value, k.state) u =
        ap
          (λ (o : Outcome UartPort).
            o >>= λ q. map_registers l q p >>= λ r. uart_open (suc rounds) device message q r u)
          found
        ∙ ap
            (λ (m : Option (Bool × Paging)).
              elim m as (λ _. Outcome (Bool × Paging)) [ none ↦ fault | some r ↦ done r ] >>= λ r.
              open_ r u)
            k.returns in
      rw steps
        (open-Started rounds max_pfn l message v p k.state port u k.value k.returns (at_state k))
