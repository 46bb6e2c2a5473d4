-- ===== src/Time/Laws.antt =====
-- What the clock shows after `ktime_init`.
use native.Mathlib.Nat.{div-mul-le_self, lt-div-mul-add}
use risky.Base.{
  ℕ, ◌+◌, ◌-◌, ◌*◌, ◌/◌, ◌^◌, ◌≤◌, ◌<◌, ◌≡◌, ◌==◌, refl, Option, none, some, true, arith,
  if◌then◌else◌, u64, ap,
}
use risky.Time.{Ktime, ktime_fallback_freq, ktime_init, ktime_get_ticks, ktime_get_ms}

-- The frequency of the device tree, if it gives one, and it is not 0.
abbrev pub frequency : Option ℕ → ℕ
frequency none = ktime_fallback_freq
frequency (some f) = if f == 0 then ktime_fallback_freq else f

frequency_pos : (dtb_freq : Option ℕ) → 0 < frequency dtb_freq
frequency_pos none = omega arith
frequency_pos (some f) = ground arith

init_lem :
    (dtb_freq : Option ℕ) (boot : ℕ) (k : Ktime)
    → ktime_init dtb_freq boot k
      ≡ (true, record { boot_ticks = boot; tick_freq = frequency dtb_freq; ready = true })
unfolding ktime_init
init_lem none boot k = refl
init_lem (some f) boot k = refl

ms_lem :
    (boot now freq : ℕ)
    → 0 < freq
    → boot ≤ now
    → now < 2 ^ 64
    → (now - boot) * 1000 < 2 ^ 64
    → ktime_get_ms now (record { boot_ticks = boot; tick_freq = freq; ready = true })
      ≡ (now - boot) * 1000 / freq
unfolding ktime_get_ms ktime_get_ticks
ms_lem boot now freq pos le lt fits =
    let ticks : u64 (u64 (now + 2 ^ 64 - boot) * 1000) ≡ (now - boot) * 1000 = omega arith in
    ground (arith, ap (λ (x : ℕ). x / freq) ticks)

-- After `ktime_init` at `boot`, as long as a thousand times the ticks since then fit in 64 bits,
-- the milliseconds shown are the ticks since `boot` over the frequency, rounded down.
pub ktime_get_ms_lem :
    (dtb_freq : Option ℕ) (boot now : ℕ) (k : Ktime)
    → boot ≤ now
    → now < 2 ^ 64
    → (now - boot) * 1000 < 2 ^ 64
    → (ktime_get_ms now (ktime_init dtb_freq boot k).1 * frequency dtb_freq ≤ (now - boot) * 1000)
      × ((now - boot) * 1000
          < ktime_get_ms now (ktime_init dtb_freq boot k).1 * frequency dtb_freq
            + frequency dtb_freq)
ktime_get_ms_lem dtb_freq boot now k le lt fits =
    let pos = frequency_pos dtb_freq in
    rw (init_lem dtb_freq boot k, ms_lem boot now (frequency dtb_freq) pos le lt fits)
      (
        div-mul-le_self ((now - boot) * 1000) (frequency dtb_freq),
        lt-div-mul-add {a = (now - boot) * 1000} pos,
      )
