-- ===== src/Dtb/Tests.antt =====
-- A boot with the small tree of the parser's tests.
use risky.Base.{arith, false, some, done, ◌>>=◌, Returns}
use risky.Fdt.Blob.{text}
use risky.Fdt.Sample.{small_blob, sample_total}
use risky.Fdt.Search.{IsNode}
use risky.Time.{Ktime}
use risky.Dtb.{Dtb, DtbNode, dtb_node_to_fdt, dtb_init, dtb_find_node_by_path, cleared}
use risky.Dtb.Safe.{IsStarted, dtb_init-find}

dtb_init-find_example :
    Returns IsStarted (dtb_init (some (some small_blob)) cleared)
    × Returns
        (λ (q : Dtb × DtbNode). IsNode (q.0).dtb_fdt (dtb_node_to_fdt (q.1)))
        (dtb_init (some (some small_blob)) cleared >>= λ r.
          dtb_find_node_by_path (r.0) (text "/u") >>= λ node. done (r.0, node))
dtb_init-find_example =
    dtb_init-find small_blob cleared (text "/u") (omega arith) (omega arith) sample_total

abbrev stopped : Ktime
stopped = record { boot_ticks = 0; tick_freq = 0; ready = false }
