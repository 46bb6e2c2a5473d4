-- ===== src/Kernel.antt =====
-- kernel/src/main.c: the boot sequence. `Kernel` has the statics of the parts that it starts, and
-- `Machine` what comes from outside: the responses to the requests of kernel/src/boot/req.c, the
-- values of registers, the device behind the serial port, the bytes of the message of `uart_init`,
-- and the library of the terminal. The
-- calls of `klog` in main.c are recorded; those of the other parts are left out there. `fault` is a
-- fault of a part. The write through a null pointer in the test of a page is a halt of its own,
-- `null_write`, with the state just before it.
pub mod Boot
pub mod Console
mod Tests
use Prim.Native.String.{String}
use risky.Base.{
  ℕ, ◌+◌, ◌*◌, ◌/◌, ◌%◌, ◌^◌, Bool, true, false, Option, none, some, List, [], ◌∷◌, ◌==◌,
  if◌then◌else◌, u8, update, Outcome, done, fault, ◌>>=◌,
}
use risky.Fdt.Blob.{Blob, Text}
use risky.Time.{Ktime}
use risky.Pfndb.{Pfndb, Entry, pfndb_init}
use risky.Pmm.{Pmm, pmm_init, pmm_alloc, pmm_free}
use risky.Paging.{
  Paging, Layout, Responses, Symbols, kernel_segments, is_there, paging_early_init, paging_init,
}
use risky.Dtb.{Dtb, dtb_init}
use risky.Dtb.Clock.{ktime_start}
use risky.Uart.{Access, Uart, uart_init, uart_putc}
use risky.Trap.{Arg, word, Message}
use risky.Trap.Interrupts.{Csrs, trap_init}

-- What the boot loader and the machine give: whether the base revision is supported, the
-- responses, `none` being a missing one, and the number of framebuffers and of processors; and
-- whether `flanterm_fb_init` gives a terminal.
pub record Machine : Type 0 where
  pub supported : Bool
  pub memmap : Option (List Entry)
  pub hhdm : Option ℕ
  pub dtb : Option (Option Blob)
  pub executable : Option (ℕ × ℕ)
  pub framebuffers : Option ℕ
  pub mp : Option (ℕ × ℕ)
  pub satp : ℕ
  pub now : ℕ
  pub pool : ℕ
  pub symbols : Symbols
  pub trap_entry : ℕ
  pub device : List Access → ℕ
  pub uart_message : Text
  pub terminal : Bool

-- The statics of the parts, `g_ft_ctx != NULL`, and the messages of `kmain`, the last one first.
pub record Kernel : Type 0 where
  pub ktime : Ktime
  pub dtb : Dtb
  pub paging : Paging
  pub uart : Uart
  pub csrs : Csrs
  pub terminal : Bool
  pub log : List Message

-- The calls of `hlt` in `kmain`, in their order, and among them `null_write`, the write `*a = 42`
-- through a null pointer, after which nothing of `kmain` follows.
pub data Halt : Type 0 where
  unsupported no_memory no_root no_port no_mapping null_write no_processors at_end : Halt

abbrev pub klog : String → List Arg → Kernel → Kernel
klog format args k = record k { log = record { format = format; args = args } ∷ k.log }

abbrev pub layout_of : Machine → Layout
layout_of m = record { offset = elim m.hhdm [ none ↦ 0 | some offset ↦ offset ]; pool = m.pool }

abbrev pub responses_of : Machine → Option (List Entry) → Responses
responses_of m memmap = record {
  memmap = memmap;
  hhdm = is_there m.hhdm;
  executable = m.executable;
}

-- `*a = 42` on a word of memory, of which an `int` is the lower half.
abbrev pub store_int : (addr value : ℕ) → (ℕ → ℕ) → ℕ → ℕ
store_int addr value words = update words addr (words addr / 2 ^ 32 * 2 ^ 32 + value)

abbrev pub load_int : (addr : ℕ) → (ℕ → ℕ) → ℕ
load_int addr words = words addr % 2 ^ 32

-- From `trap_init` on.
unfoldable pub start_traps : Machine → Kernel → Halt × Kernel
start_traps m k =
    let k1 : Kernel =
      klog "early: setup trap handler" [] (record k { csrs = trap_init m.trap_entry k.csrs }) in
    elim m.mp [
      | none ↦ (no_processors, klog "early: failed to get mp info" [] k1)
      | some (cpu_count, bsp_hartid) ↦ (
        at_end,
        klog "early: CPU count=%d, bsp hartid=%d" (word cpu_count ∷ word bsp_hartid ∷ []) k1,
      )
    ]

-- What is done with the address that `pmm_alloc` returned. The flag says whether the sequence goes
-- on, and not into the write through a null pointer.
unfoldable pub try_page : Machine → (a : ℕ) → Kernel → Bool × Kernel
try_page m a k =
    let k1 = klog "test: allocated single page: %p" (word a ∷ []) k in
    let p : Paging = record k1.paging { words = store_int a 42 k1.paging.words } in
    let k2 =
      klog "test: value after write: %d" (word (load_int a p.words) ∷ [])
        (record k1 { paging = p }) in
    if a == 0
    then (false, k1)
    else (true, record k2 { paging = record p { pmm = pmm_free (layout_of m).offset a p.pmm } })

-- What follows `pmm_alloc`, by its result.
abbrev pub after_alloc : Machine → Kernel → Option (ℕ × Pmm) → Outcome (Bool × Kernel)
after_alloc m k none = fault
after_alloc m k (some (a, pmm)) =
    done (try_page m a (record k { paging = record k.paging { pmm = pmm } }))

-- The allocation of a page, and its return.
unfoldable pub test_memory : Machine → Kernel → Outcome (Bool × Kernel)
test_memory m k = after_alloc m k (pmm_alloc (layout_of m).offset 0 k.paging.pmm)

-- The terminal on the first framebuffer, if there is one.
unfoldable pub start_terminal : Machine → Kernel → Kernel
start_terminal m k =
    let missing = klog "early: failed to get framebuffer, no ramfb?" [] k in
    elim m.framebuffers [
      | none ↦ missing
      | some count ↦
          if count == 0
          then missing
          else if m.terminal
          then record k { terminal = true }
          else klog "early: failed to initialize flanterm" [] (record k { terminal = false })
    ]

-- What follows the test.
abbrev pub after_test : Machine → Bool × Kernel → Halt × Kernel
after_test m (true, k) = start_traps m k
after_test m (false, k) = (null_write, k)

-- From the framebuffer on.
unfoldable pub start_late : Machine → Kernel → Outcome (Halt × Kernel)
start_late m k = do
  r ← test_memory m (klog "early: Hello, World!" [] (start_terminal m k))
  done (after_test m r)

-- What follows `paging_init`, by its result.
unfoldable pub after_paging : Machine → Kernel → Option (Bool × Paging) → Outcome (Halt × Kernel)
after_paging m k none = fault
after_paging m k (some (false, p)) =
    done (no_mapping, klog "boot: paging_init failed" [] (record k { paging = p }))
after_paging m k (some (true, p)) = start_late m (record k { paging = p })

-- What follows `uart_init`, by its result.
unfoldable pub after_uart :
    Machine → Option (List Entry) → Kernel → Bool × (Paging × Uart) → Outcome (Halt × Kernel)
after_uart m memmap k (false, (p, u)) =
    done (no_port, klog "boot: uart_init failed" [] (record k { paging = p; uart = u }))
after_uart m memmap k (true, (p, u)) =
    after_paging m (record k { paging = p; uart = u })
      (paging_init m.satp (layout_of m) (responses_of m memmap) (kernel_segments m.symbols) p)

-- What follows `paging_early_init`, by its result. `rounds` bounds the rounds of the loop that
-- empties the receiver.
unfoldable pub after_early :
    (rounds : ℕ) → Machine → Option (List Entry) → Kernel → Bool × Paging → Outcome (Halt × Kernel)
after_early rounds m memmap k (false, p) =
    done (no_root, klog "boot: paging_early_init failed" [] (record k { paging = p }))
after_early rounds m memmap k (true, p) = do
  r ← uart_init rounds m.device m.uart_message (layout_of m) k.dtb p k.uart
  after_uart m memmap (record k { paging = p }) r

-- From `paging_early_init` on, with the memory map that `pfndb_init` left.
abbrev pub start_paging :
    (rounds : ℕ) → Machine → Option (List Entry) → Kernel → Outcome (Halt × Kernel)
start_paging rounds m memmap k =
    after_early rounds m memmap k (paging_early_init m.satp (responses_of m memmap) k.paging)

-- What follows `dtb_init`, by its result.
abbrev pub after_dtb : Kernel → Dtb × Bool → Kernel
after_dtb k (d, true) = record k { dtb = d }
after_dtb k (d, false) = klog "boot: dtb_init failed" [] (record k { dtb = d })

-- What follows `pmm_init`, by its result.
unfoldable pub after_pmm :
    (rounds : ℕ) → Machine → Option (List Entry) → Kernel → Bool × Pmm → Outcome (Halt × Kernel)
after_pmm rounds m memmap k (false, pmm) = done (
  no_memory,
  klog "boot: pmm_init failed" [] (record k { paging = record k.paging { pmm = pmm } }),
)
after_pmm rounds m memmap k (true, pmm) = do
  r ← dtb_init m.dtb k.dtb
  start_paging rounds m memmap (after_dtb (record k { paging = record k.paging { pmm = pmm } }) r)

-- What follows `ktime_init`, whose result is not tested.
abbrev pub start_memory : (rounds : ℕ) → Machine → Kernel → Bool × Ktime → Outcome (Halt × Kernel)
start_memory rounds m k (started, ktime) =
    let (db, memmap) = pfndb_init m.memmap m.hhdm k.paging.pmm.db in
    after_pmm rounds m memmap (record k { ktime = ktime })
      (pmm_init (record k.paging.pmm { db = db }))

unfoldable pub kmain : (rounds : ℕ) → Machine → Kernel → Outcome (Halt × Kernel)
kmain rounds m k = elim m.supported [
  | false ↦ done (unsupported, k)
  | true ↦ do t ← ktime_start k.dtb m.now k.ktime; start_memory rounds m k t
]

-- `printk_putc`, on the serial port, the bytes given to the firmware, and those given to the
-- terminal, the last one first; `g_ft_ctx != NULL` is `terminal`.
pub record Output : Type 0 where
  pub uart : Uart
  pub firmware : List ℕ
  pub terminal : Bool
  pub shown : List ℕ

unfoldable pub printk_putc : (device : List Access → ℕ) → (c : ℕ) → Output → Output
printk_putc device c o =
    let o1 : Output =
      if o.uart.uart_ready
      then record o { uart = uart_putc device c o.uart }
      else record o { firmware = c ∷ o.firmware } in
    if o1.terminal then record o1 { shown = c ∷ o1.shown } else o1
