-- ===== src/Dtb.antt =====
-- kernel/src/dev/dtb.c: the tree of the boot loader, which the queries read once it is accepted. The
-- tests of arguments against `NULL` are left out. Clock: what kernel/src/lib/time.c asks of it.
use risky.Base.{
  ℕ, Bool, true, false, Option, none, some, Outcome, done, refused, fault, spent, ◌>>=◌, ◌>>◌,
  guard,
}
use risky.Fdt.Blob.{Blob, Fdt, Text, fdt_init}
use risky.Fdt.Walk.{Node}
use risky.Fdt.Property.{fdt_node_has_compatible, fdt_get_reg, fdt_get_u32}
use risky.Fdt.Find.{
  fdt_find_node_by_path, fdt_find_compatible, fdt_get_stdout_path, fdt_resolve_alias,
}
pub mod Clock
mod Safe
mod Tests

-- `dtb_fdt` and `dtb_ready`
pub record Dtb : Type 0 where
  pub dtb_fdt : Fdt
  pub dtb_ready : Bool

pub record DtbNode : Type 0 where
  pub struct_offset : ℕ
  pub parent_address_cells : ℕ
  pub parent_size_cells : ℕ

abbrev pub dtb_node_to_fdt : DtbNode → Node
dtb_node_to_fdt src = record {
  struct_offset = src.struct_offset;
  parent_address_cells = src.parent_address_cells;
  parent_size_cells = src.parent_size_cells;
}

abbrev pub fdt_node_to_dtb : Node → DtbNode
fdt_node_to_dtb src = record {
  struct_offset = src.struct_offset;
  parent_address_cells = src.parent_address_cells;
  parent_size_cells = src.parent_size_cells;
}

-- `memset(&dtb_fdt, 0, sizeof(dtb_fdt))`
abbrev pub no_fdt : Fdt
no_fdt = record {
  blob = record { base = 0; extent = 0; byte = λ _. 0 };
  struct_block = 0;
  struct_block_end = 0;
  strings_block = 0;
  strings_size = 0;
}

abbrev pub cleared : Dtb
cleared = record { dtb_fdt = no_fdt; dtb_ready = false }

-- The state and the result after `fdt_init`.
abbrev pub accept : Outcome Fdt → Outcome (Dtb × Bool)
accept (done f) = done (record { dtb_fdt = f; dtb_ready = true }, true)
accept refused = done (cleared, false)
accept fault = fault
accept spent = spent

-- The response is missing, or has no pointer, or points to a blob.
unfoldable pub dtb_init : Option (Option Blob) → Dtb → Outcome (Dtb × Bool)
dtb_init none s = done (cleared, false)
dtb_init (some none) s = done (cleared, false)
dtb_init (some (some b)) s = accept (fdt_init b)

unfoldable pub dtb_find_node_by_path : Dtb → Text → Outcome DtbNode
dtb_find_node_by_path s path = do
  guard s.dtb_ready
  node ← fdt_find_node_by_path s.dtb_fdt path
  done (fdt_node_to_dtb node)

unfoldable pub dtb_find_compatible : Dtb → Text → Outcome DtbNode
dtb_find_compatible s compatible = do
  guard s.dtb_ready
  node ← fdt_find_compatible s.dtb_fdt compatible
  done (fdt_node_to_dtb node)

unfoldable pub dtb_node_has_compatible : Dtb → DtbNode → Text → Outcome (Unit {0})
dtb_node_has_compatible s node compatible = do
  guard s.dtb_ready
  fdt_node_has_compatible s.dtb_fdt (dtb_node_to_fdt node) compatible

unfoldable pub dtb_get_reg : Dtb → DtbNode → (index : ℕ) → Outcome (ℕ × ℕ)
dtb_get_reg s node index = do guard s.dtb_ready; fdt_get_reg s.dtb_fdt (dtb_node_to_fdt node) index

unfoldable pub dtb_get_stdout_path : Dtb → (buffer_size : ℕ) → Outcome Text
dtb_get_stdout_path s buffer_size = do guard s.dtb_ready; fdt_get_stdout_path s.dtb_fdt buffer_size

unfoldable pub dtb_resolve_alias : Dtb → Text → (buffer_size : ℕ) → Outcome Text
dtb_resolve_alias s alias buffer_size = do
  guard s.dtb_ready
  fdt_resolve_alias s.dtb_fdt alias buffer_size

unfoldable pub dtb_get_u32 : Dtb → DtbNode → Text → Outcome ℕ
dtb_get_u32 s node name = do guard s.dtb_ready; fdt_get_u32 s.dtb_fdt (dtb_node_to_fdt node) name
