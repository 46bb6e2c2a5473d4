-- ===== src/Kernel/Boot.antt =====
-- The boot sequence as a whole.
use mathlib.Core.Path.{subst}
use mathlib.Core.Bool.{true≢false}
use risky.Base.{
  ℕ, suc, ◌^◌, ◌<◌, ◌≡◌, ◌⊎◌, inl, inr, refl, ap, sym, ◌∙◌, Bool, true, false, Option, none, some,
  List, [], ◌∷◌, ◌==◌, arith, u8, Bool-cases, Option-cases, Outcome, done, ◌>>=◌, or_else, on_true,
}
use risky.Time.{Ktime, ktime_fallback_freq}
use risky.Pfndb.{Pfndb, Entry, pfndb_init, pfndb_reserve_storage}
use risky.Pfndb.Init.{Fits}
use risky.Pfndb.Storage.{Aligned, Apart}
use risky.Pfndb.Made.{storage_of}
use risky.Pmm.{Pmm, pmm_init, pmm_alloc, pmm_free}
use risky.Pmm.Invariant.{View}
use risky.Pmm.Ready.{IsReady}
use risky.Pmm.Cycle.{pmm_alloc_lem, pmm_free-pmm_alloc}
use risky.Pmm.Bringup.{boot-IsStarted}
use risky.Paging.{Paging, kernel_segments, is_there, paging_early_init, paging_setup_root}
use risky.Paging.Kept.{IsMapping}
use risky.Paging.Refines.{some_eq}
use risky.Paging.Ranges.{paging_init-Kept}
use risky.Dtb.{Dtb, dtb_init}
use risky.Dtb.Clock.{ktime_start_fallback}
use risky.Uart.{Access, Uart, UartPort, uart_find_port, default_port, rx_ready}
use risky.Uart.Start.{uart_init-Started}
use risky.Trap.{word, Message}
use risky.Kernel.{
  Machine, Kernel, Halt, null_write, unsupported, no_memory, no_root, no_port, no_mapping,
  no_processors, at_end, klog, layout_of, responses_of, start_traps, try_page, after_alloc,
  test_memory, after_test, start_terminal, start_late, after_paging, after_uart, after_early,
  start_paging, after_dtb, after_pmm, start_memory, kmain,
}

-- The memory manager is between two calls.
pub record IsUp (p : Paging) : Type 0 where
  pub max_pfn : ℕ
  pub view : View
  pub is_ready : IsReady max_pfn view p.pmm

-- The memory manager, in order, gave a null pointer for the test page, and that address was logged.
pub record GaveNull (m : Machine) (k : Kernel) : Type 0 where
  pub max_pfn : ℕ
  pub view : View
  pub pmm : Pmm
  pub is_ready : IsReady max_pfn view pmm
  pub gave_null : pmm_alloc (layout_of m).offset 0 pmm ≡ some (0, k.paging.pmm)
  pub before : List Message
  pub logged :
      k.log ≡ record { format = "test: allocated single page: %p"; args = word 0 ∷ [] } ∷ before

-- What holds where the sequence stops; it does not stop at the first two halts.
abbrev pub AtHalt : Machine → Halt → Kernel → Type 0
AtHalt m unsupported k = ⊥
AtHalt m no_memory k = ⊥
AtHalt m no_root k = Unit {0}
AtHalt m no_port k = Unit {0}
AtHalt m no_mapping k = Unit {0}
AtHalt m null_write k = GaveNull m k
AtHalt m no_processors k = m.mp ≡ none
AtHalt m at_end k = is_there m.mp ≡ true

-- The clock from `now` on, at the frequency that the kernel takes when the device tree gives none.
abbrev pub fallback_clock : Machine → Ktime
fallback_clock m = record { boot_ticks = m.now; tick_freq = ktime_fallback_freq; ready = true }

-- The sequence does not fault: it stops at a halt, with `t` as its clock.
abbrev pub Ends : Machine → Ktime → Outcome (Halt × Kernel) → Type 0
Ends m t o =
    (h : Halt) × (k : Kernel) × (o ≡ done (h, k)) × AtHalt m h k × IsUp k.paging × (k.ktime ≡ t)

-- The test of a page goes on, or comes to the write through a null pointer.
abbrev Tested : Machine → Ktime → Outcome (Bool × Kernel) → Type 0
Tested m t o =
    ((k : Kernel) × (o ≡ done (true, k)) × IsUp k.paging × (k.ktime ≡ t))
    ⊎ ((k : Kernel) × (o ≡ done (false, k)) × GaveNull m k × IsUp k.paging × (k.ktime ≡ t))

module _ (m : Machine) (small : (layout_of m).offset < 2 ^ 64) where
  try_page-IsUp :
      (k : Kernel) (a : ℕ)
      → (a == 0) ≡ false
      → (k' : Kernel) × (try_page m a k ≡ (true, k'))
        × (k'.paging.pmm ≡ pmm_free (layout_of m).offset a k.paging.pmm)
        × (k'.ktime ≡ k.ktime)
  unfolding try_page
  try_page-IsUp k a e = rw e (_, refl, refl, refl)

  try_page_null :
      (k : Kernel)
      → try_page m 0 k ≡ (false, klog "test: allocated single page: %p" (word 0 ∷ []) k)
  unfolding try_page
  try_page_null k = refl

  -- The manager is in order after the allocation, whether it gave a block or not.
  allocated-IsUp :
      (p : Paging) (up : IsUp p) (a : ℕ) (s : Pmm)
      → pmm_alloc (layout_of m).offset 0 p.pmm ≡ some (a, s)
      → IsUp (record p { pmm = s })
  allocated-IsUp p up a s e =
      elim (pmm_alloc_lem up.is_ready (layout_of m).offset 0 (omega arith)) [
        | inl b ↦
            let state : s ≡ b.block.state = cc (b.returns) in
            record {
              max_pfn = up.max_pfn;
              view = b.block.view;
              is_ready = rw state b.block.is_ready;
            }
        | inr (none_left, _) ↦
            let state : s ≡ p.pmm = cc none_left in
            record { max_pfn = up.max_pfn; view = up.view; is_ready = rw state up.is_ready }
      ]

  -- The test of a page after its allocation.
  allocated-Tested :
      (k : Kernel) (up : IsUp k.paging) (a : ℕ) (s : Pmm)
      → pmm_alloc (layout_of m).offset 0 k.paging.pmm ≡ some (a, s)
      → Tested m k.ktime (test_memory m k)
  allocated-Tested k up a s e = elim (Bool-cases (a == 0)) [
    | inl null ↦
        let is : a ≡ 0 = ground arith in
        inr (
          klog "test: allocated single page: %p" (word 0 ∷ []) with_page,
          goes ∙ ap done (ap (λ (n : ℕ). try_page m n with_page) is ∙ try_page_null with_page),
          record {
            max_pfn = up.max_pfn;
            view = up.view;
            pmm = k.paging.pmm;
            is_ready = up.is_ready;
            gave_null = e ∙ ap (λ (n : ℕ). some (n, s)) is;
            before = k.log;
            logged = refl;
          },
          allocated-IsUp k.paging up a s e,
          refl,
        )
    | inr there ↦
        let (view, ready, _, _) =
          pmm_free-pmm_alloc up.is_ready (layout_of m).offset 0 (omega arith) a s small
            (ground arith) e in
        let (k', tried, freed, clock) = try_page-IsUp with_page a there in
        inl (
          k',
          goes ∙ ap done tried,
          record { max_pfn = up.max_pfn; view = view; is_ready = rw freed ready },
          clock,
        )
  ]
    where
      with_page : Kernel
      with_page = record k { paging = record k.paging { pmm = s } }

      goes : test_memory m k ≡ done (try_page m a with_page)
      goes = unfold test_memory in ap (after_alloc m k) e

  test_memory-Tested : (k : Kernel) → IsUp k.paging → Tested m k.ktime (test_memory m k)
  test_memory-Tested k up = elim (pmm_alloc_lem up.is_ready (layout_of m).offset 0 (omega arith)) [
    | inl a ↦ allocated-Tested k up _ _ a.returns
    | inr (none_left, _) ↦ allocated-Tested k up _ _ none_left
  ]

  start_traps-AtHalt :
      (k : Kernel)
      → IsUp k.paging
      → AtHalt m (start_traps m k).0 (start_traps m k).1
        × IsUp (start_traps m k).1.paging
        × ((start_traps m k).1.ktime ≡ k.ktime)
  unfolding start_traps
  start_traps-AtHalt k up = elim (Option-cases m.mp) [
    | inl missing ↦ rw missing (refl, up, refl)
    | inr (mp, given) ↦ rw given (refl, up, refl)
  ]

  terminal_same :
      (k : Kernel)
      → ((start_terminal m k).paging ≡ k.paging) × ((start_terminal m k).ktime ≡ k.ktime)
  unfolding start_terminal
  terminal_same k = elim (Option-cases m.framebuffers) [
    | inl missing ↦ rw missing (refl, refl)
    | inr (count, given) ↦ elim (Bool-cases (count == 0)) [
      | inl zero_count ↦ rw (given, zero_count) (refl, refl)
      | inr some_count ↦ elim (Bool-cases m.terminal) [
        | inl on ↦ rw (given, some_count, on) (refl, refl)
        | inr off ↦ rw (given, some_count, off) (refl, refl)
      ]
    ]
  ]

  start_late-Ends : (k : Kernel) → IsUp k.paging → Ends m k.ktime (start_late m k)
  unfolding start_late
  start_late-Ends k up =
      let k1 = klog "early: Hello, World!" [] (start_terminal m k) in
      let next : Outcome (Bool × Kernel) → Outcome (Halt × Kernel) =
        λ o. o >>= λ r. done (after_test m r) in
      elim (test_memory-Tested k1 (rw ((terminal_same k).0) up)) [
        | inr (k', bad, null, up', clock) ↦
            (null_write, k', ap next bad, null, up', clock ∙ (terminal_same k).1)
        | inl (k', good, up', clock) ↦
            let end = start_traps-AtHalt k' up' in
            (
              (start_traps m k').0,
              (start_traps m k').1,
              ap next good,
              end.0,
              end.1,
              end.2 ∙ clock ∙ (terminal_same k).1,
            )
      ]

  after_paging-Ends :
      (k : Kernel) (ok : Bool) (p : Paging)
      → IsUp p
      → Ends m k.ktime (after_paging m k (some (ok, p)))
  unfolding after_paging
  after_paging-Ends k true p up = start_late-Ends (record k { paging = p }) up
  after_paging-Ends k false p up = (no_mapping, _, refl, tt, up, refl)

  after_uart-Ends :
      (memmap : Option (List Entry)) (k : Kernel) (ok : Bool) (p : Paging) (u : Uart) (max_pfn : ℕ)
      (v : View)
      → IsMapping max_pfn v p
      → Ends m k.ktime (after_uart m memmap k (ok, (p, u)))
  unfolding after_uart
  after_uart-Ends memmap k false p u max_pfn v is =
      (no_port, _, refl, tt, record { max_pfn = max_pfn; view = v; is_ready = is.is_ready }, refl)
  after_uart-Ends memmap k true p u max_pfn v is =
      let kept =
        paging_init-Kept max_pfn (layout_of m) m.satp (responses_of m memmap)
          (kernel_segments m.symbols) v p is.is_ready in
      let k1 : Kernel = record k { paging = p; uart = u } in
      rw kept.returns (
        after_paging-Ends k1 kept.value kept.state
          (record { max_pfn = max_pfn; view = kept.view; is_ready = kept.is_mapping.is_ready }))

  -- The early step reads the root and resets the pool; the memory manager stays.
  early_init-IsMapping :
      (memmap : Option (List Entry)) (p : Paging) {max_pfn : ℕ} {v : View}
      → IsReady max_pfn v p.pmm
      → IsMapping max_pfn v (paging_early_init m.satp (responses_of m memmap) p).1
  unfolding paging_early_init paging_setup_root
  early_init-IsMapping memmap p ready =
      let ok = (paging_setup_root m.satp (record p { pool_used = 0 })).0 in
      elim (Bool-cases ok) [
        | inr bad ↦ rw bad (record { is_ready = ready; pool = omega arith })
        | inl good ↦ elim (Option-cases m.hhdm) [
          | inl missing ↦ rw (good, missing) (record { is_ready = ready; pool = omega arith })
          | inr (offset, given) ↦ rw (good, given) (record { is_ready = ready; pool = omega arith })
        ]
      ]

  module _ (quiet : (t : List Access) → rx_ready (u8 (m.device t)) ≡ false) (rounds : ℕ) where
    after_early-Ends :
        (memmap : Option (List Entry)) (k : Kernel) (port : UartPort) (ok : Bool) (p : Paging)
        {max_pfn : ℕ} {v : View}
        → IsMapping max_pfn v p
        → or_else (uart_find_port k.dtb) (done default_port) ≡ done port
        → Ends m k.ktime (after_early (suc rounds) m memmap k (ok, p))
    unfolding after_early
    after_early-Ends memmap k port false p {max_pfn} {v} is found =
        (no_root, _, refl, tt, record { max_pfn = max_pfn; view = v; is_ready = is.is_ready }, refl)
    after_early-Ends memmap k port true p {max_pfn} {v} is found =
        let u =
          uart_init-Started m.device quiet rounds max_pfn m.uart_message (layout_of m) k.dtb v p
            port k.uart found is in
        let same : u.kept.state ≡ u.state =
          ap (λ (r : Bool × Paging). r.1) (some_eq (sym u.kept.returns)) in
        rw u.returns (
          after_uart-Ends memmap (record k { paging = p }) u.mapped u.state u.uart max_pfn
            u.kept.view (subst (IsMapping max_pfn u.kept.view) same u.kept.is_mapping))

    start_paging-Ends :
        (memmap : Option (List Entry)) (k : Kernel) (port : UartPort)
        → IsUp k.paging
        → or_else (uart_find_port k.dtb) (done default_port) ≡ done port
        → Ends m k.ktime (start_paging (suc rounds) m memmap k)
    start_paging-Ends memmap k port up found =
        let early = paging_early_init m.satp (responses_of m memmap) k.paging in
        after_early-Ends memmap k port (early.0) (early.1)
          (early_init-IsMapping memmap k.paging up.is_ready) found

    after_dtb-Ends :
        (memmap : Option (List Entry)) (k : Kernel) (port : UartPort) (d : Dtb) (accepted : Bool)
        → IsUp k.paging
        → or_else (uart_find_port d) (done default_port) ≡ done port
        → Ends m k.ktime (start_paging (suc rounds) m memmap (after_dtb k (d, accepted)))
    after_dtb-Ends memmap k port d true up found = start_paging-Ends memmap _ port up found
    after_dtb-Ends memmap k port d false up found = start_paging-Ends memmap _ port up found

    after_pmm-Ends :
        (memmap : Option (List Entry)) (k : Kernel) (port : UartPort) (d : Dtb) (accepted : Bool)
        (pmm : Pmm)
        → IsUp (record k.paging { pmm = pmm })
        → dtb_init m.dtb k.dtb ≡ done (d, accepted)
        → or_else (uart_find_port d) (done default_port) ≡ done port
        → Ends m k.ktime (after_pmm (suc rounds) m memmap k (true, pmm))
    unfolding after_pmm
    after_pmm-Ends memmap k port d accepted pmm up parsed found = rw parsed (
        after_dtb-Ends memmap (record k { paging = record k.paging { pmm = pmm } }) port d accepted
          up found)

    after_pmm_pair :
        (memmap : Option (List Entry)) (k : Kernel) (port : UartPort) (d : Dtb) (accepted : Bool)
        (r : Bool × Pmm)
        → r.0 ≡ true
        → IsUp (record k.paging { pmm = r.1 })
        → dtb_init m.dtb k.dtb ≡ done (d, accepted)
        → or_else (uart_find_port d) (done default_port) ≡ done port
        → Ends m k.ktime (after_pmm (suc rounds) m memmap k r)
    after_pmm_pair memmap k port d accepted (true, pmm) ok up parsed found =
        after_pmm-Ends memmap k port d accepted pmm up parsed found
    after_pmm_pair memmap k port d accepted (false, pmm) ok up parsed found =
        absurd (true≢false (sym ok))

-- The sequence up to the memory manager, with the responses of a bootable machine.
module _ (m : Machine) (k : Kernel) (rounds : ℕ) where
  abbrev clocked : Kernel
  clocked = record k { ktime = fallback_clock m }

  abbrev with_frames : Pfndb × Option (List Entry) → Outcome (Halt × Kernel)
  with_frames r = after_pmm rounds m (r.1) clocked (pmm_init (record k.paging.pmm { db = r.0 }))

  kmain_steps :
      (memmap : List Entry) (offset : ℕ)
      → m.supported ≡ true
      → m.memmap ≡ some memmap
      → m.hhdm ≡ some offset
      → k.dtb.dtb_ready ≡ false
      → kmain rounds m k ≡ with_frames (pfndb_init (some memmap) (some offset) k.paging.pmm.db)
  unfolding kmain
  kmain_steps memmap offset supported memmap_is offset_is fresh =
      on_true m.supported _ _ supported (
        ap (λ (o : Outcome (Bool × Ktime)). o >>= start_memory rounds m k)
          (ktime_start_fallback k.dtb m.now k.ktime fresh)
        ∙ ap (λ (a : Option (List Entry)). with_frames (pfndb_init a m.hhdm k.paging.pmm.db))
            memmap_is
        ∙ ap (λ (a : Option ℕ). with_frames (pfndb_init (some memmap) a k.paging.pmm.db)) offset_is)

layout_offset : (m : Machine) (offset : ℕ) → m.hhdm ≡ some offset → (layout_of m).offset ≡ offset
layout_offset m offset e = ap (λ (h : Option ℕ). elim h as (λ _. ℕ) [ none ↦ 0 | some o ↦ o ]) e

-- The machine supports the kernel, its memory map is as `pfndb_init` and `pmm_init` need it, with
-- the storage at `base`, and there is an offset of 64 bits. The device tree gives `port` for the
-- serial port, or none and it is the default, and nothing has been received on it.
pub record IsBootable (m : Machine) (dtb : Dtb) (memmap : List Entry) (base : ℕ) : Type 0 where
  pub supported : m.supported ≡ true
  pub memmap_is : m.memmap ≡ some memmap
  pub offset : ℕ
  pub offset_is : m.hhdm ≡ some offset
  pub offset_lt : offset < 2 ^ 64
  pub fits : Fits memmap
  pub aligned : Aligned memmap
  pub apart : Apart memmap
  pub found : (pfndb_reserve_storage (storage_of memmap) memmap).0 ≡ some base
  pub some_base : 0 < base
  pub tree : Dtb
  pub accepted : Bool
  pub parsed : dtb_init m.dtb dtb ≡ done (tree, accepted)
  pub port : UartPort
  pub port_is : or_else (uart_find_port tree) (done default_port) ≡ done port
  pub quiet : (t : List Access) → rx_ready (u8 (m.device t)) ≡ false

-- On a bootable machine, with no device tree accepted before, the boot sequence does not fault. It
-- gets past the start of the memory manager and stops at one of the later halts, or at the write of
-- the test through a null pointer, with the memory manager between two calls. At that write, the
-- memory manager was in order and returned a null pointer for the test page, which is the address
-- logged last. The halt for missing processors comes only without a response about them. The clock
-- runs at the fallback frequency, whatever frequency the device tree gives. A bootable
-- machine supports the kernel; the usable entries of its memory map start at page boundaries, no
-- frame is offered twice, no rounded end wraps, and the search for the storage of the page frames
-- finds a region that is not at address 0; there is an offset of 64 bits; reading the device tree
-- does not fault, and the search in it gives a serial port or falls back to the default; and
-- nothing has been received on that port.
pub kmain-Ends :
    (m : Machine) (k : Kernel) (rounds : ℕ) (memmap : List Entry) (base : ℕ)
    → IsBootable m k.dtb memmap base
    → k.dtb.dtb_ready ≡ false
    → Ends m (fallback_clock m) (kmain (suc rounds) m k)
kmain-Ends m k rounds memmap base b fresh =
    let (made, ok, started) =
      boot-IsStarted memmap b.offset base k.paging.pmm b.fits b.aligned b.apart b.found
        b.some_base in
    let small : (layout_of m).offset < 2 ^ 64 =
      omega (arith, layout_offset m b.offset b.offset_is, b.offset_lt) in
    subst (Ends m (fallback_clock m))
      (sym (kmain_steps m k (suc rounds) memmap b.offset b.supported b.memmap_is b.offset_is fresh))
      (after_pmm_pair m small b.quiet rounds _ (clocked m k rounds) b.port b.tree b.accepted _ ok
        (record { max_pfn = _; view = started.view; is_ready = started.is_ready }) b.parsed
        b.port_is)
