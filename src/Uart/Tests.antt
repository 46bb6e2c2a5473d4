-- ===== src/Uart/Tests.antt =====
-- A port whose transmitter is empty from the third access on, and the port of the small tree.
use risky.Base.{
  ℕ, ◌*◌, ◌^◌, ◌≡◌, refl, arith, true, false, List, [], ◌∷◌, length, ltb, if◌then◌else◌, done,
  or_else,
}
use risky.Fdt.Blob.{
  text, load, fdt_read_be32, strnlen_at, fdt_bounded_strlen, scan_nul, fdt_prop_name_valid, text_is,
  fdt_prop_is_string, fdt_prop_get_u32, prop_header,
}
use risky.Fdt.Walk.{
  fdt_walk_init, copy_bytes, ends_in_slash, extend_path, begin_node, end_node, note_cells,
  walk_prop, walk_case, walk_token, fdt_walk_next_node,
}
use risky.Fdt.Property.{
  fdt_node_payload, skip_child, property_here, property_case, property_token, property_loop,
  fdt_get_property, strlen_at, compatible_loop, fdt_node_has_compatible, read_cells, fdt_get_reg,
  fdt_get_u32,
}
use risky.Fdt.Find.{
  find_path_loop, fdt_find_node_by_path, same_text, colon_at, fdt_copy_string, fdt_get_stdout_path,
  fdt_resolve_alias,
}
use risky.Fdt.Sample.{small_fdt}
use risky.Dtb.{
  Dtb, dtb_find_node_by_path, dtb_node_has_compatible, dtb_get_reg, dtb_get_stdout_path,
  dtb_resolve_alias, dtb_get_u32,
}
use risky.Pmm.Sample.{sample, sample_view, sample-IsReady}
use risky.Paging.{Paging, Layout}
use risky.Paging.Kept.{IsMapping}
use risky.Uart.{
  UartPort, Access, wrote, was_read, Uart, uart_write_reg, uart_read_reg, wait_empty, uart_putc,
  default_port, uart_init, uart_find_port, stdout_node, resolved, has_any,
}
use risky.Uart.Start.{Started, uart_init-Started}

abbrev device : List Access → ℕ
device trace = if ltb (length trace) 2 then 0 else 33

abbrev port : Uart
port = record { uart0 = default_port; uart_ready = true; trace = [] }

putc_test : (uart_putc device 65 port).trace ≡ (
    wrote false 268435456 65
    ∷ was_read false 268435461
    ∷ was_read false 268435461
    ∷ was_read false 268435461
    ∷ [])
unfolding uart_putc wait_empty uart_write_reg uart_read_reg
putc_test = refl

abbrev tree : Dtb
tree = record { dtb_fdt = small_fdt; dtb_ready = true }

-- The stdout path is the alias `s`, which stands for `/u`.
abbrev tree_port : UartPort
tree_port = record { base = 7 * 2 ^ 32; size = 9; reg_shift = 0; reg_io_width = 1 }

port_found : or_else (uart_find_port tree) (done default_port) ≡ done tree_port
unfolding uart_find_port stdout_node resolved has_any dtb_find_node_by_path dtb_node_has_compatible
    dtb_get_reg dtb_get_stdout_path dtb_resolve_alias dtb_get_u32 find_path_loop
    fdt_find_node_by_path same_text colon_at fdt_copy_string fdt_get_stdout_path fdt_resolve_alias
    fdt_node_payload skip_child property_here property_case property_token property_loop
    fdt_get_property strlen_at compatible_loop fdt_node_has_compatible read_cells fdt_get_reg
    fdt_get_u32 fdt_walk_init copy_bytes ends_in_slash extend_path begin_node end_node note_cells
    walk_prop walk_case walk_token fdt_walk_next_node load fdt_read_be32 strnlen_at
    fdt_bounded_strlen scan_nul fdt_prop_name_valid text_is fdt_prop_is_string fdt_prop_get_u32
    prop_header
port_found = refl

abbrev layout : Layout
layout = record { offset = 2 ^ 40; pool = 2 ^ 41 }

abbrev paging : Paging
paging = record { root_phys = 4096; levels = 3; pool_used = 0; pmm = sample; words = λ _. 0 }

paging-IsMapping : IsMapping 3 sample_view paging
paging-IsMapping = record { is_ready = sample-IsReady; pool = omega arith }

abbrev off : Uart
off = record { uart0 = default_port; uart_ready = false; trace = [] }

uart_init-Started_example :
    Started 3 layout
      (text "ok")
      sample_view
      paging
      tree_port
      off
      (uart_init 1 (λ _. 96) (text "ok") layout tree paging off)
uart_init-Started_example =
    uart_init-Started (λ _. 96) (λ _. refl) 0 3 (text "ok") layout tree sample_view paging tree_port
      off port_found paging-IsMapping
