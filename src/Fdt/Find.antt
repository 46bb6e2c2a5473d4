-- ===== src/Fdt/Find.antt =====
-- Searches over the nodes, and the texts of `/chosen` and `/aliases`.
use risky.Base.{
  ℕ, zero, suc, ◌+◌, Bool, true, false, not, ◌&&◌, ◌||◌, Option, none, some, [], ◌∷◌, ltb, ◌==◌,
  Outcome, done, spent, ◌>>=◌, ◌>>◌, guard, attempt, or_else,
}
use risky.Fdt.Blob.{Blob, Fdt, Text, text, load, fdt_prop_is_string}
use risky.Fdt.Walk.{Walk, Node, fdt_walk_init, fdt_walk_next_node, struct_rounds, copy_bytes}
use risky.Fdt.Property.{fdt_get_property, fdt_node_has_compatible, text_len}

-- `strcmp(state.path, path) == 0`
unfoldable pub same_text : Text → Text → Bool
same_text [] [] = true
same_text [] (d ∷ ds) = false
same_text (c ∷ cs) [] = false
same_text (c ∷ cs) (d ∷ ds) = (c == d) && same_text cs ds

unfoldable pub find_path_loop : (rounds : ℕ) → Fdt → Text → Walk → Outcome Node
find_path_loop zero f path w = spent
find_path_loop (suc rounds) f path w = do
  (w', node) ← fdt_walk_next_node (struct_rounds f) f w
  elim (same_text w'.path path) [ true ↦ done node | false ↦ find_path_loop rounds f path w' ]

unfoldable pub fdt_find_node_by_path : Fdt → Text → Outcome Node
fdt_find_node_by_path f path = find_path_loop (struct_rounds f) f path (fdt_walk_init f)

unfoldable pub find_compatible_loop : (rounds : ℕ) → Fdt → Text → Walk → Outcome Node
find_compatible_loop zero f compatible w = spent
find_compatible_loop (suc rounds) f compatible w = do
  (w', node) ← fdt_walk_next_node (struct_rounds f) f w
  matches ← attempt (fdt_node_has_compatible f node compatible)
  elim matches [ true ↦ done node | false ↦ find_compatible_loop rounds f compatible w' ]

unfoldable pub fdt_find_compatible : Fdt → Text → Outcome Node
fdt_find_compatible f compatible =
    find_compatible_loop (struct_rounds f) f compatible (fdt_walk_init f)

-- The text that is left in the buffer.
unfoldable pub fdt_copy_string : Blob → (buffer_size s len : ℕ) → Outcome Text
fdt_copy_string b buffer_size s len = do
  guard (not (buffer_size == 0 || ltb buffer_size (len + 1)))
  copy_bytes b s len

-- `strchr(s, ':')`, as the length of the text before it.
unfoldable pub colon_at : Blob → (rounds len s : ℕ) → Outcome (Option ℕ)
colon_at b zero len s = spent
colon_at b (suc rounds) len s = do
  c ← load b (s + len)
  elim (c == 58) [
    | true ↦ done (some len)
    | false ↦ elim (c == 0) [ true ↦ done none | false ↦ colon_at b rounds (len + 1) s ]
  ]

unfoldable pub fdt_get_stdout_path : Fdt → (buffer_size : ℕ) → Outcome Text
fdt_get_stdout_path f buffer_size = do
  chosen ← fdt_find_node_by_path f (text "/chosen")
  prop ←
      or_else (fdt_get_property f chosen (text "stdout-path"))
        (fdt_get_property f chosen (text "linux,stdout-path"))
  fdt_prop_is_string f.blob prop
  colon ← colon_at f.blob (f.blob.extent + 1) 0 prop.value
  len ← elim colon [ none ↦ text_len f.blob prop.value | some len ↦ done len ]
  fdt_copy_string f.blob buffer_size prop.value len

unfoldable pub fdt_resolve_alias : Fdt → Text → (buffer_size : ℕ) → Outcome Text
fdt_resolve_alias f alias buffer_size = do
  aliases ← fdt_find_node_by_path f (text "/aliases")
  prop ← fdt_get_property f aliases alias
  fdt_prop_is_string f.blob prop
  len ← text_len f.blob prop.value
  fdt_copy_string f.blob buffer_size prop.value len
