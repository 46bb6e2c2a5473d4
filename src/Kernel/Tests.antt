-- ===== src/Kernel/Tests.antt =====
-- The boot sequence on a small machine, with no device tree and a port on which nothing comes in.
use risky.Base.{◌+◌, ◌*◌, ◌^◌, ◌≡◌, refl, true, false, none, some, [], ◌∷◌, arith}
use risky.Fdt.Blob.{text}
use risky.Pfndb.Sample.{memmap, blank_db, memmap-Fits, memmap-Aligned, memmap-Apart, memmap-found}
use risky.Pmm.{empty_list}
use risky.Dtb.{cleared, dtb_init, dtb_find_compatible, dtb_get_stdout_path}
use risky.Uart.{default_port, uart_find_port, stdout_node, find_any}
use risky.Uart.Output.{writes}
use risky.Kernel.{Machine, Kernel, Output, kmain}
use risky.Kernel.Boot.{IsBootable, Ends, fallback_clock, kmain-Ends}
use risky.Kernel.Console.{put_all, put_all_lem}

abbrev machine : Machine
machine = record {
  supported = true;
  memmap = some memmap;
  hhdm = some 65536;
  dtb = none;
  executable = some (2 ^ 21, 2 ^ 41);
  framebuffers = none;
  mp = some (1, 0);
  satp = 8 * 2 ^ 60 + 1;
  now = 7;
  pool = 2 ^ 41;
  symbols = record {
    requests_start = 2 ^ 41;
    text_start = 2 ^ 41 + 4096;
    text_end = 2 ^ 41 + 8192;
    rodata_start = 2 ^ 41 + 8192;
    rodata_end = 2 ^ 41 + 8192;
    data_start = 2 ^ 41 + 12288;
    bss_end = 2 ^ 41 + 20480;
  };
  trap_entry = 4096;
  device = λ _. 0;
  uart_message = text "ok";
  terminal = false;
}

abbrev kernel : Kernel
kernel = record {
  ktime = record { boot_ticks = 0; tick_freq = 0; ready = false };
  dtb = cleared;
  paging = record {
    root_phys = 0;
    levels = 0;
    pool_used = 0;
    pmm = record {
      db = blank_db;
      lists = λ _. empty_list;
      free_pages = 0;
      total_pages = 0;
      ready = false;
    };
    words = λ _. 0;
  };
  uart = record { uart0 = default_port; uart_ready = false; trace = [] };
  csrs = record { sstatus = 0; sie = 0; stvec = 0 };
  terminal = false;
  log = [];
}

machine-IsBootable : IsBootable machine cleared memmap 4096
unfolding dtb_init uart_find_port stdout_node find_any dtb_find_compatible dtb_get_stdout_path
machine-IsBootable = record {
  supported = refl;
  memmap_is = refl;
  offset = 65536;
  offset_is = refl;
  offset_lt = omega arith;
  fits = memmap-Fits;
  aligned = memmap-Aligned;
  apart = memmap-Apart;
  found = memmap-found;
  some_base = omega arith;
  tree = cleared;
  accepted = false;
  parsed = refl;
  port = default_port;
  port_is = refl;
  quiet = λ t. refl;
}

kmain-Ends_example : Ends machine (fallback_clock machine) (kmain 1 machine kernel)
kmain-Ends_example = kmain-Ends machine kernel 0 memmap 4096 machine-IsBootable refl

abbrev output : Output
output = record { uart = kernel.uart; firmware = []; terminal = true; shown = [] }

put_all_lem_example :
    (writes (put_all (λ _. 32) (text "ok") output).uart.trace ≡ [])
    × ((put_all (λ _. 32) (text "ok") output).firmware ≡ (107 ∷ 111 ∷ []))
    × ((put_all (λ _. 32) (text "ok") output).shown ≡ (107 ∷ 111 ∷ []))
put_all_lem_example = put_all_lem (λ _. 32) (text "ok") output
