-- ===== src/Uart.antt =====
-- kernel/src/platform/generic/uart.c: the driver of the serial port. `device` gives the value of a
-- read from the accesses before it, the last one first. Of the log messages only that of `uart_init` goes
-- to the port itself; its bytes are given, and the others are left out.
use risky.Base.{
  ℕ, zero, suc, ◌+◌, ◌*◌, ◌/◌, ◌%◌, ◌^◌, Bool, true, false, not, ◌||◌, Option, none, some, List, [],
  ◌∷◌, ◌==◌, if◌then◌else◌, u8, u64, Outcome, done, refused, fault, spent, ◌>>=◌, ◌>>◌, guard,
  attempt, or_else,
}
use risky.Fdt.Blob.{Text, text}
use risky.Paging.{Paging, Layout, paging_map_mmio}
use risky.Dtb.{
  Dtb, DtbNode, dtb_find_node_by_path, dtb_find_compatible, dtb_node_has_compatible, dtb_get_reg,
  dtb_get_stdout_path, dtb_resolve_alias, dtb_get_u32,
}
pub mod Output
pub mod Start
mod Tests

abbrev uart_rbr : ℕ
uart_rbr = 0

abbrev pub uart_thr : ℕ
uart_thr = 0

abbrev pub uart_dll : ℕ
uart_dll = 0

abbrev pub uart_ier : ℕ
uart_ier = 1

abbrev pub uart_dlm : ℕ
uart_dlm = 1

abbrev pub uart_fcr : ℕ
uart_fcr = 2

abbrev pub uart_lcr : ℕ
uart_lcr = 3

abbrev pub uart_lsr : ℕ
uart_lsr = 5

abbrev pub uart_lcr_dlab : ℕ
uart_lcr_dlab = 128

abbrev uart_path_max : ℕ
uart_path_max = 256

abbrev uart_default_base : ℕ
uart_default_base = 268435456

abbrev uart_default_size : ℕ
uart_default_size = 256

abbrev uart_compatibles : List Text
uart_compatibles = text "ns16550a" ∷ text "ns16550" ∷ text "snps,dw-apb-uart" ∷ text "uart8250" ∷ []

-- `struct uart_port`
pub record UartPort : Type 0 where
  pub base : ℕ
  pub size : ℕ
  pub reg_shift : ℕ
  pub reg_io_width : ℕ

-- An access to a register, of 32 bits or of 8.
pub data Access : Type 0 where
  wrote : (wide : Bool) → (addr value : ℕ) → Access
  was_read : (wide : Bool) → (addr : ℕ) → Access

-- `uart0`, `uart_ready`, and the accesses so far, the last one first.
pub record Uart : Type 0 where
  pub uart0 : UartPort
  pub uart_ready : Bool
  pub trace : List Access

abbrev pub reg_addr : UartPort → (reg : ℕ) → ℕ
reg_addr port reg = u64 (port.base + u64 (reg * 2 ^ port.reg_shift))

abbrev pub is_wide : UartPort → Bool
is_wide port = port.reg_io_width == 4

unfoldable pub uart_write_reg : (reg val : ℕ) → Uart → Uart
uart_write_reg reg val u = record u {
  trace = wrote (is_wide u.uart0) (reg_addr u.uart0 reg) (u8 val) ∷ u.trace;
}

-- The value, and the state with the access.
unfoldable pub uart_read_reg : (device : List Access → ℕ) → (reg : ℕ) → Uart → ℕ × Uart
uart_read_reg device reg u = (
  u8 (device u.trace),
  record u { trace = was_read (is_wide u.uart0) (reg_addr u.uart0 reg) ∷ u.trace },
)

-- `UART_LSR_RX_READY` and `UART_LSR_TX_EMPTY`
abbrev pub rx_ready : ℕ → Bool
rx_ready lsr = not (lsr % 2 == 0)

abbrev pub tx_empty : ℕ → Bool
tx_empty lsr = not (lsr / 32 % 2 == 0)

-- The loop over the names for the node of the stdout path.
unfoldable pub has_any : Dtb → DtbNode → List Text → Outcome (Unit {0})
has_any s node [] = refused
has_any s node (name ∷ names) = do
  matches ← attempt (dtb_node_has_compatible s node name)
  elim matches [ true ↦ done tt | false ↦ has_any s node names ]

-- The loop over the names for any node.
unfoldable pub find_any : Dtb → List Text → Outcome DtbNode
find_any s [] = refused
find_any s (name ∷ names) = or_else (dtb_find_compatible s name) (find_any s names)

abbrev starts_in_slash : Text → Bool
starts_in_slash [] = false
starts_in_slash (c ∷ cs) = c == 47

-- An alias, or the path itself.
unfoldable pub resolved : Dtb → (path : Text) → Outcome Text
resolved s path = elim (starts_in_slash path) [
  | true ↦ done path
  | false ↦ or_else (dtb_resolve_alias s path uart_path_max) (done path)
]

unfoldable pub stdout_node : Dtb → Outcome DtbNode
stdout_node s = do
  path ← dtb_get_stdout_path s uart_path_max
  p ← resolved s path
  node ← dtb_find_node_by_path s p
  has_any s node uart_compatibles
  done node

-- What the function leaves in the port when it returns `false` is overwritten by its caller.
unfoldable pub uart_find_port : Dtb → Outcome UartPort
uart_find_port s = do
  node ← or_else (stdout_node s) (find_any s uart_compatibles)
  (base, size) ← dtb_get_reg s node 0
  guard (not (size == 0))
  reg_shift ← or_else (dtb_get_u32 s node (text "reg-shift")) (done 0)
  reg_io_width ← or_else (dtb_get_u32 s node (text "reg-io-width")) (done 1)
  guard (reg_io_width == 1 || reg_io_width == 4)
  done (record { base = base; size = size; reg_shift = reg_shift; reg_io_width = reg_io_width })

abbrev pub default_port : UartPort
default_port = record {
  base = uart_default_base;
  size = uart_default_size;
  reg_shift = 0;
  reg_io_width = 1;
}

-- The six writes of `uart_init`.
unfoldable pub uart_setup : Uart → Uart
uart_setup u = uart_write_reg uart_fcr 7 (
    uart_write_reg uart_lcr 3 (
      uart_write_reg uart_dlm 0 (
        uart_write_reg uart_dll 2
          (uart_write_reg uart_lcr uart_lcr_dlab (uart_write_reg uart_ier 0 u)))))

-- The loop that drops what was received.
unfoldable pub uart_drain : (rounds : ℕ) → (device : List Access → ℕ) → Uart → Outcome Uart
uart_drain zero device u = spent
uart_drain (suc rounds) device u =
    let (lsr, u1) = uart_read_reg device uart_lsr u in
    elim (rx_ready lsr) [
      | false ↦ done u1
      | true ↦ uart_drain rounds device (uart_read_reg device uart_rbr u1).1
    ]

-- The mapping of the registers; a write through a null pointer is a fault.
abbrev pub map_registers : Layout → UartPort → Paging → Outcome (Bool × Paging)
map_registers l port p = elim (paging_map_mmio l port.base port.size p) [
  | none ↦ fault
  | some r ↦ done r
]

abbrev pub uart_spins : ℕ
uart_spins = 1000000

-- The loop of `uart_putc`, with the spins that are left.
unfoldable pub wait_empty : (spins : ℕ) → (device : List Access → ℕ) → Uart → Uart
wait_empty zero device u = u
wait_empty (suc spins) device u =
    let (lsr, u1) = uart_read_reg device uart_lsr u in
    elim (tx_empty lsr) [ true ↦ u1 | false ↦ wait_empty spins device u1 ]

unfoldable pub uart_putc : (device : List Access → ℕ) → (c : ℕ) → Uart → Uart
uart_putc device c u = elim u.uart_ready [
  | false ↦ u
  | true ↦ uart_write_reg uart_thr (u8 c) (wait_empty uart_spins device u)
]

unfoldable pub uart_puts : (device : List Access → ℕ) → Text → Uart → Uart
uart_puts device [] u = u
uart_puts device (c ∷ cs) u = uart_puts device cs (uart_putc device c u)

-- The rest of `uart_init` after the mapping, whose result and state are given. `message` has the
-- bytes that `klog` makes of the message; the port is ready by then, so they go to `uart_putc`.
unfoldable pub uart_open :
    (rounds : ℕ)
    → (device : List Access → ℕ) → (message : Text) → UartPort
    → Bool × Paging
    → Uart
    → Outcome (Bool × (Paging × Uart))
uart_open rounds device message port (mapped, p) u =
    let u1 : Uart = record { uart0 = port; uart_ready = false; trace = u.trace } in
    elim mapped [
      | false ↦ done (false, (p, u1))
      | true ↦ do
        u2 ←
            uart_drain rounds device
              (uart_puts device message (record (uart_setup u1) { uart_ready = true }))
        done (true, (p, u2))
    ]

unfoldable pub uart_init :
    (rounds : ℕ)
    → (device : List Access → ℕ) → (message : Text) → Layout
    → Dtb
    → Paging
    → Uart
    → Outcome (Bool × (Paging × Uart))
uart_init rounds device message l s p u = do
  port ← or_else (uart_find_port s) (done default_port)
  r ← map_registers l port p
  uart_open rounds device message port r u

-- The loop that waits for a byte has no bound in the source.
unfoldable pub wait_ready : (rounds : ℕ) → (device : List Access → ℕ) → Uart → Outcome Uart
wait_ready zero device u = spent
wait_ready (suc rounds) device u =
    let (lsr, u1) = uart_read_reg device uart_lsr u in
    elim (rx_ready lsr) [ true ↦ done u1 | false ↦ wait_ready rounds device u1 ]

unfoldable pub uart_getc : (rounds : ℕ) → (device : List Access → ℕ) → Uart → Outcome (ℕ × Uart)
uart_getc rounds device u = elim u.uart_ready [
  | false ↦ done (0, u)
  | true ↦ do u1 ← wait_ready rounds device u; done (uart_read_reg device uart_rbr u1)
]
