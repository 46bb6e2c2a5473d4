-- ===== src/Time/Tests.antt =====
-- The clock at one moment.
use risky.Base.{◌+◌, ◌-◌, ◌*◌, ◌≤◌, ◌<◌, some, false, arith}
use risky.Time.{Ktime, ktime_init, ktime_get_ms}
use risky.Time.Laws.{frequency, ktime_get_ms_lem}

abbrev off : Ktime
off = record { boot_ticks = 0; tick_freq = 0; ready = false }

ktime_get_ms_lem_example :
    (ktime_get_ms 500000 (ktime_init (some 0) 20000 off).1 * frequency (some 0)
      ≤ (500000 - 20000) * 1000)
    × ((500000 - 20000) * 1000
        < ktime_get_ms 500000 (ktime_init (some 0) 20000 off).1 * frequency (some 0)
          + frequency (some 0))
ktime_get_ms_lem_example =
    ktime_get_ms_lem (some 0) 20000 500000 off (omega arith) (omega arith) (omega arith)
