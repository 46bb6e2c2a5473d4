-- ===== src/Fdt/Search.antt =====
-- The searches end, stay in the blob, and give nodes with a payload.
use risky.Base.{
  ℕ, zero, suc, ◌+◌, ◌-◌, ◌^◌, ◌≤◌, ◌<◌, ◌≡◌, refl, Option, none, some, ltb, arith, Outcome, done,
  ◌>>=◌, Returns, Returns-bind, test-Returns, weaken-Returns,
}
use risky.Fdt.Blob.{Blob, Fdt, Text, fdt_init, fdt_read_be32}
use risky.Fdt.Walk.{Walk, Node, walk_token, fdt_walk_next_node, struct_rounds, fdt_walk_init}
use risky.Fdt.Property.{fdt_node_payload}
use risky.Fdt.Find.{find_path_loop, fdt_find_node_by_path, same_text}
use risky.Fdt.Reads.{IsParsed, header-IsParsed}
use risky.Fdt.Steps.{Fits, Goes, walk_token-Returns}

-- The node has a payload: `fdt_node_payload` gives a place in the structure block.
pub record IsNode (f : Fdt) (node : Node) : Type 0 where
  pub payload : ℕ
  pub at_payload : fdt_node_payload f node ≡ done payload
  pub behind : f.struct_block + 4 ≤ payload

module _ (f : Fdt) (is : IsParsed f) where
  -- What a call that returns a node has done.
  abbrev pub Reached : Walk → Walk × Node → Type 0
  Reached w r = (w.cursor < f.struct_block_end) × Goes f w.cursor (r.0) (some r.1)

  reach_lem :
      (rounds : ℕ) (w : Walk)
      → f.struct_block ≤ w.cursor
      → Fits w
      → f.struct_block_end - w.cursor < rounds
      → Returns (Reached w) (fdt_walk_next_node rounds f w)
  unfolding fdt_walk_next_node
  reach_lem zero w lo fits enough = absurd (omega arith)
  reach_lem (suc rounds) w lo fits enough =
      test-Returns _ (ltb w.cursor f.struct_block_end) _ _
        (λ left.
          let inside : w.cursor < f.struct_block_end = ground arith in
          Returns-bind _ _ (walk_token f w) _ (walk_token-Returns f is w lo inside fits) λ r _ goes.
            go inside (r.0) (r.1) goes (
              reach_lem rounds (r.0) (omega (arith, goes.onward)) goes.fits
                (omega (arith, goes.onward))))
        λ _. tt
    where
      go :
          (w.cursor < f.struct_block_end)
          → (w' : Walk) (found : Option Node) → Goes f w.cursor w' found
          → Returns (Reached w') (fdt_walk_next_node rounds f w')
          → Returns (Reached w) (elim found as (λ _. Outcome (Walk × Node)) [
            | none ↦ fdt_walk_next_node rounds f w'
            | some node ↦ done (w', node)
          ])
      go inside w' (some node) goes later = (inside, goes)
      go inside w' none goes later =
          weaken-Returns (Reached w') _ _
            (λ r next. (
              inside,
              record {
                onward = omega (arith, goes.onward, (next.1).onward);
                fits = (next.1).fits;
                at_payload = (next.1).at_payload;
              },
            ))
            later

  pub walk_next-Returns :
      (w : Walk)
      → f.struct_block ≤ w.cursor
      → Fits w
      → Returns (Reached w) (fdt_walk_next_node (struct_rounds f) f w)
  walk_next-Returns w lo fits = reach_lem (struct_rounds f) w lo fits (omega (arith, is.ordered))

  pub start-Fits : Fits (fdt_walk_init f)
  unfolding fdt_walk_init
  start-Fits = record { nested = refl; path_fits = omega arith; depth_fits = omega arith }

  find_path_loop-Returns :
      (rounds : ℕ) (path : Text) (w : Walk)
      → f.struct_block ≤ w.cursor
      → Fits w
      → f.struct_block_end - w.cursor < rounds
      → Returns (IsNode f) (find_path_loop rounds f path w)
  unfolding find_path_loop
  find_path_loop-Returns zero path w lo fits enough = absurd (omega arith)
  find_path_loop-Returns (suc rounds) path w lo fits enough =
      Returns-bind _ _ (fdt_walk_next_node (struct_rounds f) f w) _ (walk_next-Returns w lo fits)
        λ r _ goes.
          test-Returns _ (same_text (r.0).path path) _ _
            (λ _. record {
              payload = (r.0).cursor;
              at_payload = (goes.1).at_payload;
              behind = omega (arith, (goes.1).onward);
            })
            λ _.
              find_path_loop-Returns rounds path (r.0) (omega (arith, (goes.1).onward))
                (goes.1).fits (omega (arith, (goes.1).onward, goes.0))

  pub find_path-Returns : (path : Text) → Returns (IsNode f) (fdt_find_node_by_path f path)
  unfolding fdt_find_node_by_path fdt_walk_init
  find_path-Returns path =
      find_path_loop-Returns (struct_rounds f) path (fdt_walk_init f) (omega arith) start-Fits
        (omega arith)

-- For a blob of any content whose memory holds the header and the total size that it claims,
-- parsing it and looking a path up reads no byte outside that memory and ends; the blocks of a
-- blob that is accepted lie in the memory, and a node that is found has a payload.
pub fdt_find_node_by_path-IsNode :
    (b : Blob) (path : Text)
    → 40 ≤ b.extent
    → b.base + b.extent + 8 ≤ 2 ^ 64
    → ((total : ℕ) → fdt_read_be32 b (b.base + 4) ≡ done total → total ≤ b.extent)
    → Returns
        (λ (r : Fdt × Node). IsParsed (r.0) × IsNode (r.0) (r.1))
        (fdt_init b >>= λ f. fdt_find_node_by_path f path >>= λ node. done (f, node))
fdt_find_node_by_path-IsNode b path header room whole =
    Returns-bind _ _ (fdt_init b) _ (header-IsParsed b header room whole) λ f _ is.
      Returns-bind _ _ (fdt_find_node_by_path f path) _ (find_path-Returns f is path)
        λ node _ h. (is, h)
