-- ===== src/Dtb/Clock.antt =====
-- `ktime_init` of kernel/src/lib/time.c with its questions to the device tree.
use risky.Base.{
  ℕ, ◌≡◌, refl, Bool, true, false, Option, none, some, Outcome, done, refused, fault, spent, ◌>>=◌,
}
use risky.Fdt.Blob.{text}
use risky.Time.{Ktime, ktime_init, ktime_fallback_freq}
use risky.Dtb.{Dtb, dtb_find_node_by_path, dtb_get_u32}

unfoldable pub timebase_frequency : Dtb → Outcome ℕ
timebase_frequency s = do
  cpus ← dtb_find_node_by_path s (text "/cpus")
  dtb_get_u32 s cpus (text "timebase-frequency")

-- The answer to the questions: the frequency, if there is one.
abbrev pub answer : Outcome ℕ → Outcome (Option ℕ)
answer (done f) = done (some f)
answer refused = done none
answer fault = fault
answer spent = spent

unfoldable pub ktime_start : Dtb → (now : ℕ) → Ktime → Outcome (Bool × Ktime)
ktime_start s now k = do dtb_freq ← answer (timebase_frequency s); done (ktime_init dtb_freq now k)

-- As long as no device tree has been accepted, the clock starts at the fallback frequency: this
-- is what the order of the calls in `kmain` leads to, whatever the device tree says.
pub ktime_start_fallback :
    (s : Dtb) (now : ℕ) (k : Ktime)
    → s.dtb_ready ≡ false
    → ktime_start s now k
      ≡ done (true, record { boot_ticks = now; tick_freq = ktime_fallback_freq; ready = true })
unfolding ktime_start timebase_frequency dtb_find_node_by_path ktime_init
ktime_start_fallback s now k e = rw e refl
