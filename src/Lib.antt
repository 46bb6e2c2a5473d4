-- ===== src/Lib.antt =====
-- The risky kernel for 64-bit RISC-V: a verification library.
--
-- The kernel is booted by Limine. `kmain` in kernel/src/main.c reads the responses of the boot
-- loader, starts the clock (kernel/src/lib/time.c), builds the page frame database over the memory
-- map (kernel/src/mm/pfndb.c), starts the physical memory manager on it (kernel/src/mm/pmm.c), and
-- goes on with the device tree, paging, the serial port, the terminal and the trap handler. The
-- database is an array of `page_t` (kernel/src/mm/page.h), one for each frame. The memory manager
-- keeps its free lists as links inside these pages, so both share one store: here the field `db` of
-- the record `Pmm`.
--
-- Files and code:
--   Base, Base/*       words of C, lists over the native numbers, and lemmas on bits.
--   Page               kernel/src/mm/page.h, and PHYS_TO_VIRT and VIRT_TO_PHYS of
--                      kernel/src/platform/generic/cpu.h. Page/Align and Page/Flags: their laws.
--   Pfndb              kernel/src/mm/pfndb.c, each function under its name. Pfndb/Lookup: numbers,
--                      pages and addresses. Pfndb/Mark: `pfndb_mark_range`. Pfndb/Init, Pfndb/Max,
--                      Pfndb/Storage, Pfndb/Made: the parts of `pfndb_init` and the whole.
--   Pmm                kernel/src/mm/pmm.c, each function under its name; the loops have names of
--                      their own: `free_block_loop` and `free_block_merge` of `pmm_free_block`,
--                      `init_retire` and `init_release` of `pmm_init`, `alloc_scan`, `alloc_take`
--                      and `alloc_split` of `pmm_alloc` and `page_alloc`, which have one body.
--   Pmm/Links, Lists   the doubly linked lists in the pages, against lists of frame numbers.
--   Pmm/Buddy, Tiling  the arithmetic of buddies, and blocks that tile the frames.
--   Pmm/Invariant      the abstract state `View` (blocks, their kinds, the free lists) and `IsSound`,
--                      which relates it to the pages. Pmm/Moves, Steps, Halves: the single moves
--                      keep it. Pmm/Ready: the state between two calls.
--   Pmm/Merge, Pairs, Free, Return    a round of the merging loop, free buddies, `pmm_free_block`,
--                      and `pmm_free`.
--   Pmm/Split, Alloc, Cycle      the splitting loop, `page_alloc`, and `pmm_alloc` with `pmm_free`.
--   Pmm/Retire, Boot, Release, Start, Bringup    the loops of `pmm_init`, and `pmm_init` after
--                      `pfndb_init`.
--   Strings            kernel/src/lib/string.c, each function under its name, on a memory of bytes.
--                      Strings/Copy, Compare and Scan: their laws.
--   Time               kernel/src/lib/time.c. Time/Laws: the clock after `ktime_init`.
--   Paging             kernel/src/mm/paging.c and paging.h, each function under its name. The loop
--                      of `paging_map_one` is `map_walk` with `map_enter` and `map_leaf`, that of
--                      `paging_map_range` is `map_pages`. Paging/Entries: the fields of entries.
--                      Paging/Kept, Ranges: what mapping does to the memory manager.
--                      Paging/Translate: the translation of addresses by the processor, written
--                      down from the RISC-V privileged specification. Paging/Space, Trail: the
--                      tables of an address space as a tree, and the indexes of addresses.
--                      Paging/Enter, Graft, Extend: a new table. Paging/Leaf, Covers: the entry
--                      of a page. Paging/Refines, Walk: the loop of `paging_map_one`.
--                      Paging/Remap, Spans, Mmio: a page, a range and the registers of a
--                      device as updates of the translation.
--   Printk             the emitting functions of kernel/src/lib/printk.c. Printk/Format: the
--                      interpreter of formats; the loop of `vprintk_internal` is `vprintk_loop` with
--                      `conversion` and `convert`. Printk/Digits, Output: the digits of numbers, and
--                      what `emit_unsigned` puts out. Printk/Stops, Message: the rounds of the
--                      interpreter, and what a format with a number puts out.
--   Fdt                kernel/src/dev/fdt.c, each function under its name. Fdt/Blob: reads and
--                      `fdt_init`. Fdt/Walk: `fdt_walk_next_node`, a round of which is
--                      `walk_token`. Fdt/Property: what is read of a node; a round of the loop of
--                      `fdt_get_property` is `property_token`. Fdt/Find: the searches.
--                      Fdt/Reads, Steps, Search, Payload, Texts: all reads stay in the blob, for
--                      any bytes. Fdt/Tree, Lookup: a tree as data, the bytes that encode it, and
--                      `fdt_get_property` as a lookup in it. Base/Results: the outcomes of reads.
--   Dtb                kernel/src/dev/dtb.c, each function under its name. Dtb/Safe: the queries after
--                      `dtb_init`. Dtb/Clock: `ktime_init` with its questions to the device tree.
--   Trap               kernel/src/platform/generic/trap.c and trap.h, each function under its name;
--                      `handle_fault` is the part of `handle_exception` that keeps the frame.
--                      Trap/Dispatch: every cause. Trap/Interrupts: the control registers.
--   Uart               kernel/src/platform/generic/uart.c, each function under its name; the loops are
--                      `has_any`, `find_any`, `uart_drain`, `wait_empty` and `wait_ready`.
--                      Uart/Output, Start: what is sent, and `uart_init`.
--   Kernel             kernel/src/main.c: `kmain`, cut at the calls whose result it tests, each part
--                      under the name of what it starts or what it comes after, and `printk_putc`.
--                      The responses to the requests of kernel/src/boot/req.c are the record
--                      `Machine`. Kernel/Boot: where the sequence ends. Kernel/Console: where the
--                      bytes of a message go.
--   Pmm/Sample, Tests, Pfndb/Sample, Tests       small states, and the theorems at them.
--
-- State: `g_pfndb[i]` is `page i`, and a `page_t *` is the number of the page or `none` for `NULL`.
-- Words are natural numbers with the wrap-around of each operation written out: `u64` for sums
-- and `sub64` for differences. An operation that would write through a null page pointer has the
-- result `none`.
--
-- Loops: those over frames and orders count down the rounds that are left, so they need no
-- fuel. The loop of `pmm_free_block` has `pmm_max_order` rounds, which is enough because the
-- order grows in each round and stays below that number. `alloc_scan` has one round for each order
-- from the wanted one on.
--
-- `strlen`, `strcmp` and `strchr` have a bound on their rounds; one more than the length of
-- the string is enough. `map_pages` has one round for each page of the range. The loop
-- that fills the buffer of a number has 64 rounds, one for each byte of the buffer, which is enough
-- because each round halves the number at least.
--
-- The loops over the structure block of a device tree have one round more than it has bytes,
-- which is enough because each round passes a token. A pointer into a tree is its address, the sum
-- of a base and an offset, and is not reduced modulo 2^64.
--
-- A trap handler gives the calls of `klog` as formats with arguments, and says whether it returned
-- or halted. The driver of the serial port keeps its accesses to the registers in a list, and the
-- values that the device answers are a parameter. The loop of `uart_putc` has 1,000,000 rounds in the
-- source too; those of `uart_init` and `uart_getc` have no bound there, so they take one.
--
-- Taken from outside the source: the memory map and the offset of the higher-half map are
-- arguments. Where a theorem needs it, the memory map is assumed to be as the protocol of
-- Limine describes it: usable entries start at page boundaries and do not overlap. Entries of other
-- types may start anywhere.
--
-- The theorems on translation speak of mappings that take their tables from the memory manager. A
-- table of the early pool lies in the image of the kernel, and the source computes its physical
-- address as if it were in the direct map.
--
-- The bytes that `klog` makes of the last message of `uart_init` are a parameter too, since they go
-- to the registers that the driver has just set up.
--
-- Not modelled: log messages, but for that one and those of traps and of `kmain`; that the tables of the paging
-- code and the pages of the database lie in one memory; the fences after a change of the tables;
-- the terminal library; a panic without a frame; and what is assembly or a single instruction.
pub mod Base
pub mod Page
pub mod Pfndb
pub mod Pmm
pub mod Strings
pub mod Time
pub mod Paging
pub mod Printk
pub mod Fdt
pub mod Dtb
pub mod Trap
pub mod Uart
pub mod Kernel
