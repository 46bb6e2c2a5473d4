-- ===== src/Kernel/Console.antt =====
-- `printk_putc` over the bytes of a message: where they go.
use risky.Base.{
  ℕ, ◌≡◌, refl, ap, sym, ◌∙◌, Bool, true, false, List, [], ◌∷◌, if◌then◌else◌, Bool-cases, inl, inr,
}
use risky.Fdt.Blob.{Text}
use risky.Uart.{Access, Uart, uart_thr, reg_addr, uart_putc, uart_puts}
use risky.Uart.Output.{writes, sends, uart_puts_lem, uart_putc-ready}
use risky.Kernel.{Output, printk_putc}

-- The calls of the emitting functions, byte after byte.
abbrev pub put_all : (device : List Access → ℕ) → Text → Output → Output
put_all device [] o = o
put_all device (c ∷ cs) o = put_all device cs (printk_putc device c o)

-- The bytes before those of `out`, the last one first.
abbrev pub onto : Text → List ℕ → List ℕ
onto [] out = out
onto (c ∷ cs) out = onto cs (c ∷ out)

abbrev shows : Output → Text → List ℕ
shows o cs = if o.terminal then onto cs o.shown else o.shown

when_true {ℓ} : {A : Type ℓ} {b : Bool} (x y : A) → b ≡ true → (if b then x else y) ≡ x
when_true x y e = rw e refl

when_false {ℓ} : {A : Type ℓ} {b : Bool} (x y : A) → b ≡ false → (if b then x else y) ≡ y
when_false x y e = rw e refl

shows_none : (o : Output) → shows o [] ≡ o.shown
shows_none o = elim (Bool-cases o.terminal) [ inl on ↦ rw on refl | inr off ↦ rw off refl ]

module _ (device : List Access → ℕ) where
  printk_putc_ready :
      (c : ℕ) (o : Output)
      → o.uart.uart_ready ≡ true
      → printk_putc device c o
        ≡ record o { uart = uart_putc device c o.uart; shown = shows o (c ∷ []) }
  unfolding printk_putc
  printk_putc_ready c o ready = elim (Bool-cases o.terminal) [
    | inl on ↦ rw (ready, on) refl
    | inr off ↦ rw (ready, off) refl
  ]

  printk_putc_early :
      (c : ℕ) (o : Output)
      → o.uart.uart_ready ≡ false
      → printk_putc device c o ≡ record o { firmware = c ∷ o.firmware; shown = shows o (c ∷ []) }
  unfolding printk_putc
  printk_putc_early c o early = elim (Bool-cases o.terminal) [
    | inl on ↦ rw (early, on) refl
    | inr off ↦ rw (early, off) refl
  ]

  shows_step :
      (c : ℕ) (cs : Text) (o : Output) (u : Uart) (firmware : List ℕ)
      → shows (record o { uart = u; firmware = firmware; shown = shows o (c ∷ []) }) cs
        ≡ shows o (c ∷ cs)
  shows_step c cs o u firmware = elim (Bool-cases o.terminal) [
    | inl on ↦ rw on refl
    | inr off ↦ rw off refl
  ]

  put_all_ready :
      (cs : Text) (o : Output)
      → o.uart.uart_ready ≡ true
      → put_all device cs o ≡ record o { uart = uart_puts device cs o.uart; shown = shows o cs }
  unfolding uart_puts
  put_all_ready [] o ready = ap (λ (l : List ℕ). record o { shown = l }) (sym (shows_none o))
  put_all_ready (c ∷ cs) o ready =
      let u = uart_putc device c o.uart in
      let o1 : Output = record o { uart = u; shown = shows o (c ∷ []) } in
      ap (put_all device cs) (printk_putc_ready c o ready)
      ∙ put_all_ready cs o1 (uart_putc-ready device c o.uart ready)
      ∙ ap (λ (l : List ℕ). record o { uart = uart_puts device cs u; shown = l })
          (shows_step c cs o u o.firmware)

  put_all_early :
      (cs : Text) (o : Output)
      → o.uart.uart_ready ≡ false
      → put_all device cs o ≡ record o { firmware = onto cs o.firmware; shown = shows o cs }
  put_all_early [] o early = ap (λ (l : List ℕ). record o { shown = l }) (sym (shows_none o))
  put_all_early (c ∷ cs) o early =
      let o1 : Output = record o { firmware = c ∷ o.firmware; shown = shows o (c ∷ []) } in
      ap (put_all device cs) (printk_putc_early c o early)
      ∙ put_all_early cs o1 early
      ∙ ap (λ (l : List ℕ). record o { firmware = onto cs (c ∷ o.firmware); shown = l })
          (shows_step c cs o o.uart (c ∷ o.firmware))

  -- Every byte of a message goes, in its order, to exactly one of the serial port and the firmware:
  -- it is written to the register of the port once the port is ready, and given to the firmware
  -- before that. All bytes go to the terminal as well if there is one, and none does if not.
  pub put_all_lem :
      (cs : Text) (o : Output)
      → (writes (put_all device cs o).uart.trace ≡ (
          if o.uart.uart_ready
          then sends (reg_addr o.uart.uart0 uart_thr) cs (writes o.uart.trace)
          else writes o.uart.trace))
        × ((put_all device cs o).firmware
            ≡ (if o.uart.uart_ready then o.firmware else onto cs o.firmware))
        × ((put_all device cs o).shown ≡ (if o.terminal then onto cs o.shown else o.shown))
  put_all_lem cs o = elim (Bool-cases o.uart.uart_ready) [
    | inl ready ↦
        let all = put_all_ready cs o ready in
        (
          ap (λ (x : Output). writes x.uart.trace) all
              ∙ (uart_puts_lem device cs o.uart ready).0
              ∙ sym (when_true _ _ ready),
          ap (λ (x : Output). x.firmware) all ∙ sym (when_true _ _ ready),
          ap (λ (x : Output). x.shown) all,
        )
    | inr early ↦
        let all = put_all_early cs o early in
        (
          ap (λ (x : Output). writes x.uart.trace) all ∙ sym (when_false _ _ early),
          ap (λ (x : Output). x.firmware) all ∙ sym (when_false _ _ early),
          ap (λ (x : Output). x.shown) all,
        )
  ]
