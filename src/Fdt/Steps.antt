-- ===== src/Fdt/Steps.antt =====
-- The walk stays in the blob and always goes on.
use risky.Base.{
  length-append, ℕ, zero, suc, ◌+◌, ◌^◌, ◌≤◌, ◌<◌, ◌≡◌, refl, ap, ◌∙◌, Bool, true, false, not, ◌||◌,
  Option, none, some, List, [], ◌∷◌, ◌++◌, length, ltb, leb, ◌==◌, if◌then◌else◌, sub64, arith,
  done, Returns, Returns-bind, guard-Returns-bind, test-Returns, if-Returns,
}
use risky.Fdt.Blob.{
  Blob, Fdt, Property, Text, text, fdt_read_be32, fdt_align4, fdt_bounded_strlen, text_is,
  prop_header, fdt_prop_get_u32,
}
use risky.Fdt.Walk.{
  Frame, Walk, Node, fdt_begin_node, fdt_end_node, fdt_prop, fdt_nop, fdt_max_depth, fdt_max_path,
  copy_bytes, ends_in_slash, take, extend_path, begin_node, end_node, note_cells, top_frame,
  walk_prop, walk_case, walk_token,
}
use risky.Fdt.Property.{fdt_node_payload}
use risky.Fdt.Reads.{
  IsParsed, Ends, load_lem, be32-Returns, bounded_strlen-Returns, text_is-Returns, header-Returns,
}

-- The lengths in the frames are those of the paths of the ancestors, each a start of the next.
abbrev pub Nested : ℕ → List Frame → Type 0
Nested n [] = n ≡ 0
Nested n (frame ∷ frames) = (frame.path_len ≤ n) × Nested frame.path_len frames

-- The path and its NUL fit the buffer, the depth fits the frames, and no length is past the path.
pub record Fits (w : Walk) : Type 0 where
  pub nested : Nested (length w.path) w.frames
  pub path_fits : length w.path < fdt_max_path
  pub depth_fits : length w.frames ≤ fdt_max_depth

abbrev pub AtPayload : Fdt → Walk → Option Node → Type 0
AtPayload f w none = Unit {0}
AtPayload f w (some node) = fdt_node_payload f node ≡ done w.cursor

-- A round goes on by at least the token, keeps to the buffers, and the node that it returns has
-- its payload at the new cursor.
pub record Goes (f : Fdt) (from : ℕ) (w' : Walk) (found : Option Node) : Type 0 where
  pub onward : from + 4 ≤ w'.cursor
  pub fits : Fits w'
  pub at_payload : AtPayload f w' found

pub copy_bytes-Returns :
    (b : Blob) (s len : ℕ)
    → b.base ≤ s
    → s + len ≤ b.base + b.extent
    → Returns (λ cs. length cs ≡ len) (copy_bytes b s len)
unfolding copy_bytes
copy_bytes-Returns b s zero lo hi = refl
copy_bytes-Returns b s (suc len) lo hi = rw (load_lem b s lo (omega arith)) (
    Returns-bind (λ cs. length cs ≡ len) (λ cs. length cs ≡ suc len) (copy_bytes b (s + 1) len) _
      (copy_bytes-Returns b (s + 1) len (omega arith) (omega arith)) λ cs _ e. omega arith)

length-take : (n : ℕ) (cs : Text) → n ≤ length cs → length (take n cs) ≡ n
length-take zero cs h = refl
length-take (suc n) [] h = absurd (omega arith)
length-take (suc n) (c ∷ cs) h = ap suc (length-take n cs (omega arith))

slash_longer :
    (path : Text) (slashed : Bool)
    → length path ≤ length (if slashed then path else path ++ (47 ∷ []))
slash_longer path true = omega arith
slash_longer path false = omega (arith, length-append path (47 ∷ []))

extend_path-Returns :
    (b : Blob) (name len : ℕ) (path : Text)
    → b.base ≤ name
    → name + len ≤ b.base + b.extent
    → Returns
        (λ cs. (length path ≤ length cs) × (length cs < fdt_max_path))
        (extend_path b name len path)
unfolding extend_path
extend_path-Returns b name len path lo hi =
    guard-Returns-bind _ (ends_in_slash path || not (leb fdt_max_path (length path + 1))) _ λ _.
      let path' = if ends_in_slash path then path else path ++ (47 ∷ []) in
      guard-Returns-bind _ (not (leb fdt_max_path (length path' + len))) _ λ room.
        Returns-bind (λ cs. length cs ≡ len) _ (copy_bytes b name len) _
          (copy_bytes-Returns b name len lo hi)
          λ cs _ e.
            let whole = length-append path' cs in
            (omega (arith, slash_longer path (ends_in_slash path)), ground arith)

root_path : (n : ℕ) (frames : List Frame) → Nested n frames → (length frames == 0) ≡ true → n ≡ 0
root_path n [] nested e = nested
root_path n (frame ∷ frames) nested e = absurd (ground arith)

-- What is kept of the frames when the cells of the last one change.
record Same (frames frames' : List Frame) : Type 0 where
  nesting : (n : ℕ) → Nested n frames → Nested n frames'
  depth : length frames' ≡ length frames

top_frame-Same :
    (change : Frame → Frame) (frames : List Frame)
    → ((frame : Frame) → (change frame).path_len ≡ frame.path_len)
    → Same frames (top_frame change frames)
top_frame-Same change [] keeps = record { nesting = λ n h. h; depth = refl }
top_frame-Same change (frame ∷ frames) keeps = record {
  nesting = λ n h. rw (keeps frame) h;
  depth = refl;
}

pub get_u32-Returns :
    (b : Blob) (prop : Property)
    → b.base ≤ prop.value
    → prop.value + prop.len ≤ b.base + b.extent
    → Returns (λ v. v < 2 ^ 32) (fdt_prop_get_u32 b prop)
unfolding fdt_prop_get_u32
get_u32-Returns b prop lo hi =
    guard-Returns-bind _ (prop.len == 4) _ λ four. be32-Returns b prop.value lo (ground arith)

module _ (f : Fdt) (is : IsParsed f) where
  payload_lem :
      (node : Node) (at cursor len : ℕ)
      → f.struct_block + node.struct_offset ≡ at
      → at + 4 ≡ cursor
      → at + 4 ≤ f.struct_block_end
      → fdt_read_be32 f.blob at ≡ done fdt_begin_node
      → fdt_bounded_strlen f.blob cursor f.struct_block_end ≡ done len
      → fdt_align4 (cursor + len + 1) ≤ f.struct_block_end
      → fdt_node_payload f node ≡ done (fdt_align4 (cursor + len + 1))
  unfolding fdt_node_payload
  payload_lem node at cursor len here there inside token name fits =
      let test : ltb f.struct_block_end (at + 4) ≡ false = ground arith in
      let test2 : ltb f.struct_block_end (fdt_align4 (cursor + len + 1)) ≡ false = ground arith in
      rw (here, test, token, there, name, test2) refl

  begin_node-Returns :
      (token_ptr : ℕ) (w : Walk)
      → f.struct_block ≤ token_ptr
      → token_ptr + 4 ≤ f.struct_block_end
      → fdt_read_be32 f.blob token_ptr ≡ done fdt_begin_node
      → w.cursor ≡ token_ptr + 4
      → Fits w
      → Returns (λ r. Goes f token_ptr (r.0) (some r.1)) (begin_node f token_ptr w)
  unfolding begin_node
  begin_node-Returns token_ptr w lo hi token at fits =
      guard-Returns-bind _ (not (leb fdt_max_depth (length w.frames))) _ λ shallow.
        Returns-bind (λ len. w.cursor + len < f.struct_block_end) _
          (fdt_bounded_strlen f.blob w.cursor f.struct_block_end) _
          (bounded_strlen-Returns f.blob w.cursor f.struct_block_end (omega (arith, is.starts))
            (omega arith) is.ends (omega (arith, is.room)))
          λ len name inside.
            Returns-bind (λ cs. (length w.path ≤ length cs) × (length cs < fdt_max_path)) _
              (if length w.frames == 0
                then done (47 ∷ [])
                else extend_path f.blob w.cursor len w.path)
              _
              (if-Returns _ (length w.frames == 0) _ _
                (λ e.
                  (omega (arith, root_path (length w.path) w.frames fits.nested e), omega arith))
                λ _.
                  extend_path-Returns f.blob w.cursor len w.path (omega (arith, is.starts))
                    (omega (arith, is.ends)))
              λ path _ longer.
                guard-Returns-bind _
                  (not (ltb f.struct_block_end (fdt_align4 (w.cursor + len + 1)))) _
                  λ stays. record {
                    onward = omega arith;
                    fits = record {
                      nested = (longer.0, fits.nested);
                      path_fits = longer.1;
                      depth_fits = ground arith;
                    };
                    at_payload =
                        payload_lem _ token_ptr w.cursor len (omega (arith, is.small, is.ordered))
                          (omega arith) hi token name (ground arith);
                  }

  end_node-Returns :
      (w : Walk) → Fits w → Returns (λ w'. (w'.cursor ≡ w.cursor) × Fits w') (end_node w)
  unfolding end_node
  end_node-Returns w fits = go w.frames fits.nested fits.depth_fits
    where
      go :
          (frames : List Frame)
          → Nested (length w.path) frames
          → length frames ≤ fdt_max_depth
          → Returns
              (λ w'. (w'.cursor ≡ w.cursor) × Fits w')
              (end_node (record w { frames = frames }))
      go [] nested depth = tt
      go (frame ∷ frames) nested depth =
          let shorter = length-take frame.path_len w.path (nested.0) in
          (
            refl,
            record {
              nested = rw shorter (nested.1);
              path_fits = omega (arith, nested.0, fits.path_fits);
              depth_fits = omega arith;
            },
          )

  note_cells-Returns :
      (name : ℕ) (prop : Property) (frames : List Frame)
      → f.blob.base ≤ name
      → Ends f.blob name (f.blob.base + f.blob.extent)
      → f.blob.base ≤ prop.value
      → prop.value + prop.len ≤ f.blob.base + f.blob.extent
      → Returns (Same frames) (note_cells f name prop frames)
  unfolding note_cells
  note_cells-Returns name prop frames lo ends vlo vhi =
      Returns-bind _ _ (text_is f.blob name (text "#address-cells")) _
        (text_is-Returns f.blob (text "#address-cells") name refl lo ends)
        λ address _ _.
          test-Returns _ address _ _
            (λ _.
              Returns-bind _ _ (fdt_prop_get_u32 f.blob prop) _
                (get_u32-Returns f.blob prop vlo vhi)
                λ v _ _.
                  top_frame-Same (λ frame. record frame { address_cells = v }) frames (λ _. refl))
            λ _.
              Returns-bind _ _ (text_is f.blob name (text "#size-cells")) _
                (text_is-Returns f.blob (text "#size-cells") name refl lo ends)
                λ size _ _.
                  test-Returns _ size _ _
                    (λ _.
                      Returns-bind _ _ (fdt_prop_get_u32 f.blob prop) _
                        (get_u32-Returns f.blob prop vlo vhi)
                        λ v _ _.
                          top_frame-Same (λ frame. record frame { size_cells = v }) frames
                            (λ _. refl))
                    λ _. record { nesting = λ n h. h; depth = refl }

  walk_prop-Returns :
      (w : Walk)
      → f.blob.base ≤ w.cursor
      → w.cursor ≤ f.struct_block_end
      → Fits w
      → Returns (λ w'. (w.cursor ≤ w'.cursor) × Fits w') (walk_prop f w)
  unfolding walk_prop
  walk_prop-Returns w lo hi fits =
      Returns-bind _ _ (prop_header f w.cursor) _ (header-Returns f is w.cursor lo hi) λ h _ good.
        guard-Returns-bind _ (not (length w.frames == 0)) _ λ _.
          Returns-bind (Same w.frames) _
            (note_cells f (f.strings_block + h.1) (record { value = w.cursor + 8; len = h.0 })
              w.frames)
            _
            (note_cells-Returns _ _ w.frames (omega (arith, is.strings_start)) (good.1)
              (omega arith) (omega (arith, good.0, is.ends)))
            λ frames _ same. (
              omega (arith, good.0, is.room, is.ends),
              record {
                nested = same.nesting (length w.path) fits.nested;
                path_fits = fits.path_fits;
                depth_fits = omega (arith, same.depth, fits.depth_fits);
              },
            )

  pub walk_token-Returns :
      (w : Walk)
      → f.struct_block ≤ w.cursor
      → w.cursor < f.struct_block_end
      → Fits w
      → Returns (λ r. Goes f w.cursor (r.0) (r.1)) (walk_token f w)
  unfolding walk_token walk_case
  walk_token-Returns w lo hi fits =
      guard-Returns-bind _ (not (ltb (sub64 f.struct_block_end w.cursor) 4)) _ λ four.
        let inside : w.cursor + 4 ≤ f.struct_block_end = ground (arith, is.room, is.ends) in
        let start : f.blob.base ≤ w.cursor = omega (arith, is.starts) in
        let w1 : Walk = record w { cursor = w.cursor + 4 } in
        let fits1 : Fits w1 = record {
          nested = fits.nested;
          path_fits = fits.path_fits;
          depth_fits = fits.depth_fits;
        } in
        Returns-bind _ _ (fdt_read_be32 f.blob w.cursor) _
          (be32-Returns f.blob w.cursor start (omega (arith, is.ends)))
          λ token e _.
            if-Returns _ (token == fdt_begin_node) _ _
              (λ begins.
                let is_begin : token ≡ fdt_begin_node = ground arith in
                Returns-bind _ _ (begin_node f w.cursor w1) _
                  (begin_node-Returns w.cursor w1 lo inside (e ∙ ap done is_begin) refl fits1)
                  λ r _ h. h)
              λ _.
                if-Returns _ (token == fdt_end_node) _ _
                  (λ _.
                    Returns-bind _ _ (end_node w1) _ (end_node-Returns w1 fits1)
                      λ w2 _ h. record { onward = omega (arith, h.0); fits = h.1; at_payload = tt })
                  λ _.
                    if-Returns _ (token == fdt_prop) _ _
                      (λ _.
                        Returns-bind _ _ (walk_prop f w1) _
                          (walk_prop-Returns w1 (omega arith) inside fits1)
                          λ w2 _ h. record {
                            onward = omega (arith, h.0);
                            fits = h.1;
                            at_payload = tt;
                          })
                      λ _.
                        if-Returns _ (token == fdt_nop) _ _
                          (λ _. record { onward = omega arith; fits = fits1; at_payload = tt })
                          λ _. tt
