-- ===== src/Time.antt =====
-- kernel/src/lib/time.c: the clock. The statics are the record `Ktime`; the time CSR that
-- `cpu_read_time` reads is an argument, and so is what the device tree gives for
-- `timebase-frequency` of `/cpus`, `none` if the node or the property is missing.
pub mod Laws
pub mod Tests
use risky.Base.{ℕ, ◌*◌, ◌/◌, Bool, true, Option, none, some, ◌==◌, if◌then◌else◌, u64, sub64}

pub record Ktime : Type 0 where
  pub boot_ticks : ℕ
  pub tick_freq : ℕ
  pub ready : Bool

abbrev pub ktime_fallback_freq : ℕ
ktime_fallback_freq = 10000000

-- With its result.
unfoldable pub ktime_init : (dtb_freq : Option ℕ) (now : ℕ) → Ktime → Bool × Ktime
ktime_init dtb_freq now k =
    let freq : ℕ = elim dtb_freq [
      | none ↦ ktime_fallback_freq
      | some f ↦ if f == 0 then ktime_fallback_freq else f
    ] in
    (true, record { boot_ticks = now; tick_freq = freq; ready = true })

unfoldable pub ktime_get_ticks : (now : ℕ) → Ktime → ℕ
ktime_get_ticks now k = if k.ready then sub64 now k.boot_ticks else 0

-- The quotient is not used when the frequency is 0.
unfoldable pub ktime_get_ms : (now : ℕ) → Ktime → ℕ
ktime_get_ms now k =
    if k.tick_freq == 0 then 0 else u64 (ktime_get_ticks now k * 1000) / k.tick_freq
