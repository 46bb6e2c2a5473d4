-- ===== src/Fdt/Tests.antt =====
-- The parser on the small tree.
use risky.Base.{ℕ, ◌+◌, ◌*◌, ◌^◌, ◌<◌, ◌≡◌, refl, length, arith, leb, true, done, Returns, ◌>>=◌}
use risky.Fdt.Blob.{
  Fdt, text, fdt_init, load, fdt_read_be32, strnlen_at, fdt_bounded_strlen, fdt_range_valid,
  scan_nul, fdt_prop_name_valid, text_is, fdt_prop_is_string, fdt_prop_get_u32, prop_header,
}
use risky.Fdt.Walk.{
  Node, fdt_walk_init, copy_bytes, ends_in_slash, extend_path, begin_node, end_node, note_cells,
  walk_prop, walk_case, walk_token, fdt_walk_next_node,
}
use risky.Fdt.Property.{
  fdt_get_reg, read_cells, fdt_node_has_compatible, compatible_loop, strlen_at, fdt_node_payload,
  skip_child, property_here, property_case, property_token, property_loop, fdt_get_property,
}
use risky.Fdt.Find.{
  find_path_loop, fdt_find_node_by_path, same_text, find_compatible_loop, fdt_find_compatible,
  colon_at, fdt_copy_string, fdt_get_stdout_path, fdt_resolve_alias,
}
use risky.Fdt.Reads.{IsParsed}
use risky.Fdt.Search.{IsNode, fdt_find_node_by_path-IsNode}
use risky.Fdt.Payload.{IsAligned, fdt_get_reg-Returns}
use risky.Fdt.Texts.{fdt_texts-fit}
use risky.Fdt.Tree.{Items, nothing, property, child, Token, Encodes, ends, has, holds}
use risky.Fdt.Sample.{small_blob, small_fdt, sample_total}
use risky.Fdt.Lookup.{fdt_get_property-lookup}

fdt_init_test : fdt_init small_blob ≡ done small_fdt
unfolding fdt_init load fdt_read_be32 fdt_range_valid
fdt_init_test = refl

find_test :
    fdt_find_node_by_path small_fdt (text "/u")
    ≡ done (record { struct_offset = 72; parent_address_cells = 2; parent_size_cells = 1 })
unfolding find_path_loop fdt_find_node_by_path same_text fdt_walk_init copy_bytes ends_in_slash
    extend_path begin_node end_node note_cells walk_prop walk_case walk_token fdt_walk_next_node
    load fdt_read_be32 strnlen_at fdt_bounded_strlen fdt_range_valid scan_nul fdt_prop_name_valid
    text_is fdt_prop_is_string fdt_prop_get_u32 prop_header
find_test = refl

compatible_test :
    fdt_find_compatible small_fdt (text "ns16550a")
    ≡ done (record { struct_offset = 72; parent_address_cells = 2; parent_size_cells = 1 })
unfolding fdt_find_compatible find_compatible_loop fdt_node_has_compatible compatible_loop strlen_at
    fdt_node_payload skip_child property_here property_case property_token property_loop
    fdt_get_property fdt_walk_init copy_bytes ends_in_slash extend_path begin_node end_node
    note_cells walk_prop walk_case walk_token fdt_walk_next_node load fdt_read_be32 strnlen_at
    fdt_bounded_strlen fdt_range_valid scan_nul fdt_prop_name_valid text_is fdt_prop_is_string
    fdt_prop_get_u32 prop_header
compatible_test = refl

reg_test :
    fdt_get_reg small_fdt
      (record { struct_offset = 72; parent_address_cells = 2; parent_size_cells = 1 })
      0
    ≡ done (7 * 2 ^ 32, 9)
unfolding fdt_get_reg read_cells fdt_node_payload skip_child property_here property_case
    property_token property_loop fdt_get_property load fdt_read_be32 strnlen_at fdt_bounded_strlen
    fdt_range_valid scan_nul fdt_prop_name_valid text_is fdt_prop_is_string fdt_prop_get_u32
    prop_header
reg_test = refl

stdout_test : fdt_get_stdout_path small_fdt 256 ≡ done (text "s")
unfolding fdt_get_stdout_path fdt_copy_string colon_at strlen_at find_path_loop
    fdt_find_node_by_path same_text fdt_node_payload skip_child property_here property_case
    property_token property_loop fdt_get_property fdt_walk_init copy_bytes ends_in_slash extend_path
    begin_node end_node note_cells walk_prop walk_case walk_token fdt_walk_next_node load
    fdt_read_be32 strnlen_at fdt_bounded_strlen fdt_range_valid scan_nul fdt_prop_name_valid text_is
    fdt_prop_is_string fdt_prop_get_u32 prop_header
stdout_test = refl

alias_test : fdt_resolve_alias small_fdt (text "s") 256 ≡ done (text "/u")
unfolding fdt_resolve_alias fdt_copy_string strlen_at find_path_loop fdt_find_node_by_path same_text
    fdt_node_payload skip_child property_here property_case property_token property_loop
    fdt_get_property fdt_walk_init copy_bytes ends_in_slash extend_path begin_node end_node
    note_cells walk_prop walk_case walk_token fdt_walk_next_node load fdt_read_be32 strnlen_at
    fdt_bounded_strlen fdt_range_valid scan_nul fdt_prop_name_valid text_is fdt_prop_is_string
    fdt_prop_get_u32 prop_header
alias_test = refl

small_fdt-IsAligned : IsAligned small_fdt
small_fdt-IsAligned = record {
  parsed = record {
    starts = omega arith;
    ordered = omega arith;
    ends = omega arith;
    strings_start = omega arith;
    strings_end = omega arith;
    room = omega arith;
    small = omega arith;
  };
  whole = refl;
}

fdt_find_node_by_path-IsNode_example :
    Returns
      (λ (r : Fdt × Node). IsParsed (r.0) × IsNode (r.0) (r.1))
      (fdt_init small_blob >>= λ f. fdt_find_node_by_path f (text "/u") >>= λ node. done (f, node))
fdt_find_node_by_path-IsNode_example =
    fdt_find_node_by_path-IsNode small_blob (text "/u") (omega arith) (omega arith) sample_total

abbrev u_node : Node
u_node = record { struct_offset = 72; parent_address_cells = 2; parent_size_cells = 1 }

fdt_get_reg-Returns_example :
    Returns (λ (r : ℕ × ℕ). (r.0 < 2 ^ 64) × (r.1 < 2 ^ 64)) (fdt_get_reg small_fdt u_node 0)
fdt_get_reg-Returns_example =
    fdt_get_reg-Returns small_fdt u_node 0 small_fdt-IsAligned (omega arith)

fdt_texts-fit_example :
    Returns (λ cs. length cs < 256) (fdt_get_stdout_path small_fdt 256)
    × Returns (λ cs. length cs < 256) (fdt_resolve_alias small_fdt (text "s") 256)
fdt_texts-fit_example = fdt_texts-fit small_fdt (text "s") 256 small_fdt-IsAligned refl

-- The root holds three children, and then a property.
abbrev root_items : Items
root_items = child (property (text "stdout-path") (record { value = 4168; len = 4 }) nothing) (
    child (property (text "s") (record { value = 4200; len = 3 }) nothing) (
      child
        (property (text "compatible") (record { value = 4228; len = 9 })
          (property (text "reg") (record { value = 4252; len = 12 }) nothing))
        (property (text "reg") (record { value = 4280; len = 4 }) nothing)))

token :
    {f : Fdt} {cursor t : ℕ}
    → leb (cursor + 4) f.struct_block_end ≡ true
    → fdt_read_be32 f.blob cursor ≡ done t
    → Token f cursor t
token fits read = record { left = ground arith; read = read }

root_encodes : Encodes small_fdt 4144 root_items 4284
unfolding load fdt_read_be32 strnlen_at fdt_bounded_strlen fdt_range_valid scan_nul
    fdt_prop_name_valid text_is fdt_prop_is_string fdt_prop_get_u32 prop_header
root_encodes =
    holds 6 (token refl refl) refl
      (has (text "stdout-path") 4 0 (token refl refl) refl
        (
          refl,
          (
            refl,
            (refl, (refl, (refl, (refl, (refl, (refl, (refl, (refl, (refl, (refl, refl)))))))))),
          ),
        )
        (ends (token refl refl)))
      (holds 7 (token refl refl) refl
        (has (text "s") 3 12 (token refl refl) refl (refl, (refl, refl)) (ends (token refl refl)))
        (holds 1 (token refl refl) refl
          (has (text "compatible") 9 14 (token refl refl) refl
            (
              refl,
              (refl, (refl, (refl, (refl, (refl, (refl, (refl, (refl, (refl, (refl, refl)))))))))),
            )
            (has (text "reg") 12 25 (token refl refl) refl (refl, (refl, (refl, (refl, refl))))
              (ends (token refl refl))))
          (has (text "reg") 4 25 (token refl refl) refl (refl, (refl, (refl, (refl, refl))))
            (ends (token refl refl)))))

fdt_get_property-lookup_example :
    fdt_get_property small_fdt
      (record { struct_offset = 0; parent_address_cells = 2; parent_size_cells = 1 })
      (text "reg")
    ≡ done (record { value = 4280; len = 4 })
unfolding fdt_node_payload load fdt_read_be32 strnlen_at fdt_bounded_strlen same_text
fdt_get_property-lookup_example =
    fdt_get_property-lookup small_fdt
      (record { struct_offset = 0; parent_address_cells = 2; parent_size_cells = 1 }) (text "reg")
      4144 4284 root_items small_fdt-IsAligned.parsed refl refl root_encodes
