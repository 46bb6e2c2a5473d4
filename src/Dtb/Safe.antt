-- ===== src/Dtb/Safe.antt =====
-- The queries after `dtb_init`.
use risky.Base.{
  ℕ, ◌+◌, ◌^◌, ◌≤◌, ◌≡◌, refl, Bool, true, false, some, Outcome, done, refused, fault, spent, ◌>>=◌,
  Returns, Returns-bind, guard-Returns-bind,
}
use risky.Fdt.Blob.{Blob, Fdt, Text, fdt_init, fdt_read_be32}
use risky.Fdt.Find.{fdt_find_node_by_path}
use risky.Fdt.Reads.{IsParsed, header-IsParsed}
use risky.Fdt.Search.{IsNode, find_path-Returns}
use risky.Dtb.{Dtb, DtbNode, dtb_node_to_fdt, accept, dtb_init, dtb_find_node_by_path}

-- The result of `dtb_init` says whether the tree can be read, and then it was accepted.
abbrev pub IsStarted : Dtb × Bool → Type 0
IsStarted (s, true) = (s.dtb_ready ≡ true) × IsParsed s.dtb_fdt
IsStarted (s, false) = s.dtb_ready ≡ false

accept-IsStarted : (o : Outcome Fdt) → Returns IsParsed o → Returns IsStarted (accept o)
accept-IsStarted (done f) h = (refl, h)
accept-IsStarted refused h = refl
accept-IsStarted fault h = h
accept-IsStarted spent h = h

dtb_init-IsStarted :
    (b : Blob) (s : Dtb)
    → 40 ≤ b.extent
    → b.base + b.extent + 8 ≤ 2 ^ 64
    → ((total : ℕ) → fdt_read_be32 b (b.base + 4) ≡ done total → total ≤ b.extent)
    → Returns IsStarted (dtb_init (some (some b)) s)
unfolding dtb_init
dtb_init-IsStarted b s header room whole =
    accept-IsStarted (fdt_init b) (header-IsParsed b header room whole)

find-IsNode :
    (r : Dtb × Bool) (path : Text)
    → IsStarted r
    → Returns
        (λ node. IsNode (r.0).dtb_fdt (dtb_node_to_fdt node))
        (dtb_find_node_by_path (r.0) path)
unfolding dtb_find_node_by_path
find-IsNode (s, true) path is = guard-Returns-bind _ s.dtb_ready _ λ _.
    Returns-bind _ _ (fdt_find_node_by_path s.dtb_fdt path) _
      (find_path-Returns s.dtb_fdt (is.1) path) λ node _ h. h
find-IsNode (s, false) path is = rw is tt

-- For a blob of any content whose memory holds the header and the total size that it claims,
-- `dtb_init` returns whether the tree can be read, and a lookup of a path after it ends, reads no
-- byte outside the blob and gives a node with a payload.
pub dtb_init-find :
    (b : Blob) (s : Dtb) (path : Text)
    → 40 ≤ b.extent
    → b.base + b.extent + 8 ≤ 2 ^ 64
    → ((total : ℕ) → fdt_read_be32 b (b.base + 4) ≡ done total → total ≤ b.extent)
    → Returns IsStarted (dtb_init (some (some b)) s)
      × Returns
          (λ (q : Dtb × DtbNode). IsNode (q.0).dtb_fdt (dtb_node_to_fdt (q.1)))
          (dtb_init (some (some b)) s >>= λ r.
            dtb_find_node_by_path (r.0) path >>= λ node. done (r.0, node))
dtb_init-find b s path header room whole =
    let started = dtb_init-IsStarted b s header room whole in
    (
      started,
      Returns-bind _ _ (dtb_init (some (some b)) s) _ started λ r _ is.
          Returns-bind _ _ (dtb_find_node_by_path (r.0) path) _ (find-IsNode r path is)
            λ node _ h. h,
    )
