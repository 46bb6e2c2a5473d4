-- ===== src/Fdt/Walk.antt =====
-- The walk over the nodes: `fdt_walk_next_node`.
use risky.Base.{
  ℕ, zero, suc, ◌+◌, ◌-◌, Bool, true, false, not, ◌||◌, Option, none, some, List, [], ◌∷◌, ◌++◌,
  length, ltb, leb, ◌==◌, if◌then◌else◌, u32, sub64, Outcome, done, refused, spent, ◌>>=◌, ◌>>◌,
  guard,
}
use risky.Fdt.Blob.{
  Blob, Fdt, Property, Text, text, load, fdt_read_be32, fdt_align4, fdt_bounded_strlen, text_is,
  prop_header, fdt_prop_get_u32,
}

abbrev pub fdt_begin_node : ℕ
fdt_begin_node = 1

abbrev pub fdt_end_node : ℕ
fdt_end_node = 2

abbrev pub fdt_prop : ℕ
fdt_prop = 3

abbrev pub fdt_nop : ℕ
fdt_nop = 4

abbrev pub default_address_cells : ℕ
default_address_cells = 2

abbrev pub default_size_cells : ℕ
default_size_cells = 1

abbrev pub fdt_max_depth : ℕ
fdt_max_depth = 32

abbrev pub fdt_max_path : ℕ
fdt_max_path = 256

-- `struct fdt_walk_frame`
pub record Frame : Type 0 where
  pub path_len : ℕ
  pub address_cells : ℕ
  pub size_cells : ℕ

-- `struct fdt_walk_state` without `fdt`. The path is the text in the buffer, so `path_len` is its
-- length; the frames below `depth` are a list, the last one first, so `depth` is its length.
pub record Walk : Type 0 where
  pub cursor : ℕ
  pub path : Text
  pub frames : List Frame

-- What `fdt_walk_next_node` gives by its out parameters, `struct fdt_node`.
pub record Node : Type 0 where
  pub struct_offset : ℕ
  pub parent_address_cells : ℕ
  pub parent_size_cells : ℕ

unfoldable pub fdt_walk_init : Fdt → Walk
fdt_walk_init f = record { cursor = f.struct_block; path = []; frames = [] }

-- `memcpy` of a name.
unfoldable pub copy_bytes : Blob → (s len : ℕ) → Outcome Text
copy_bytes b s zero = done []
copy_bytes b s (suc len) = do c ← load b s; cs ← copy_bytes b (s + 1) len; done (c ∷ cs)

unfoldable pub ends_in_slash : Text → Bool
ends_in_slash [] = false
ends_in_slash (c ∷ []) = c == 47
ends_in_slash (c ∷ d ∷ cs) = ends_in_slash (d ∷ cs)

abbrev pub take : ℕ → Text → Text
take zero cs = []
take (suc n) [] = []
take (suc n) (c ∷ cs) = c ∷ take n cs

-- The path of a child; its name is the `len` bytes at `name`.
unfoldable pub extend_path : Blob → (name len : ℕ) → Text → Outcome Text
extend_path b name len path = do
  let slashed = ends_in_slash path
  guard (slashed || not (leb fdt_max_path (length path + 1)))
  let path' = if slashed then path else path ++ (47 ∷ [])
  guard (not (leb fdt_max_path (length path' + len)))
  cs ← copy_bytes b name len
  done (path' ++ cs)

abbrev pub parent_frame : List Frame → Frame
parent_frame [] = record {
  path_len = 0;
  address_cells = default_address_cells;
  size_cells = default_size_cells;
}
parent_frame (frame ∷ frames) = frame

-- `case FDT_BEGIN_NODE`, with the cursor behind the token at `token_ptr`.
unfoldable pub begin_node : Fdt → (token_ptr : ℕ) → Walk → Outcome (Walk × Node)
begin_node f token_ptr w = do
  guard (not (leb fdt_max_depth (length w.frames)))
  len ← fdt_bounded_strlen f.blob w.cursor f.struct_block_end
  path ← (if length w.frames == 0 then done (47 ∷ []) else extend_path f.blob w.cursor len w.path)
  let frame : Frame = record {
    path_len = length w.path;
    address_cells = default_address_cells;
    size_cells = default_size_cells;
  }
  let cursor = fdt_align4 (w.cursor + len + 1)
  guard (not (ltb f.struct_block_end cursor))
  done (
    record { cursor = cursor; path = path; frames = frame ∷ w.frames },
    record {
      struct_offset = u32 (token_ptr - f.struct_block);
      parent_address_cells = (parent_frame w.frames).address_cells;
      parent_size_cells = (parent_frame w.frames).size_cells;
    },
  )

-- `case FDT_END_NODE`
unfoldable pub end_node : Walk → Outcome Walk
end_node w = elim w.frames [
  | [] ↦ refused
  | frame ∷ frames ↦ done (record w { path = take frame.path_len w.path; frames = frames })
]

-- The frame of the node that the property is in.
abbrev pub top_frame : (Frame → Frame) → List Frame → List Frame
top_frame change [] = []
top_frame change (frame ∷ frames) = change frame ∷ frames

-- What a property of this name and value does to the frames.
unfoldable pub note_cells : Fdt → (name : ℕ) → Property → List Frame → Outcome (List Frame)
note_cells f name prop frames = do
  address ← text_is f.blob name (text "#address-cells")
  elim address [
    | true ↦ do
      v ← fdt_prop_get_u32 f.blob prop
      done (top_frame (λ frame. record frame { address_cells = v }) frames)
    | false ↦ do
      size ← text_is f.blob name (text "#size-cells")
      elim size [
        | true ↦ do
          v ← fdt_prop_get_u32 f.blob prop
          done (top_frame (λ frame. record frame { size_cells = v }) frames)
        | false ↦ done frames
      ]
  ]

-- `case FDT_PROP`
unfoldable pub walk_prop : Fdt → Walk → Outcome Walk
walk_prop f w = do
  (len, nameoff) ← prop_header f w.cursor
  guard (not (length w.frames == 0))
  let prop : Property = record { value = w.cursor + 8; len = len }
  frames ← note_cells f (f.strings_block + nameoff) prop w.frames
  done (record w { cursor = fdt_align4 (w.cursor + 8 + len); frames = frames })

-- The `switch` on a token that was read at `token_ptr`; the cursor of `w` is behind it.
unfoldable pub walk_case : Fdt → (token token_ptr : ℕ) → Walk → Outcome (Walk × Option Node)
walk_case f token token_ptr w =
    if token == fdt_begin_node
    then (begin_node f token_ptr w >>= λ r. done (r.0, some r.1))
    else if token == fdt_end_node
    then (end_node w >>= λ w'. done (w', none))
    else if token == fdt_prop
    then (walk_prop f w >>= λ w'. done (w', none))
    else if token == fdt_nop
    then done (w, none)
    else refused

-- One round of the loop: the node with which the function returns, if it does.
unfoldable pub walk_token : Fdt → Walk → Outcome (Walk × Option Node)
walk_token f w = do
  guard (not (ltb (sub64 f.struct_block_end w.cursor) 4))
  token ← fdt_read_be32 f.blob w.cursor
  walk_case f token w.cursor (record w { cursor = w.cursor + 4 })

unfoldable pub fdt_walk_next_node : (rounds : ℕ) → Fdt → Walk → Outcome (Walk × Node)
fdt_walk_next_node zero f w = spent
fdt_walk_next_node (suc rounds) f w = elim (ltb w.cursor f.struct_block_end) [
  | true ↦ do
    (w', found) ← walk_token f w
    elim found [ none ↦ fdt_walk_next_node rounds f w' | some node ↦ done (w', node) ]
  | false ↦ refused
]

-- One more than the bytes of the structure block: each round takes some.
abbrev pub struct_rounds : Fdt → ℕ
struct_rounds f = f.struct_block_end - f.struct_block + 1
