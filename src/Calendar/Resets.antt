-- ===== src/Calendar/Resets.antt =====
-- When the quota windows end.
use native.Mathlib.Decide.{dec_lt}
use sovereignstack.Prelude.{◌+◌, ◌≤◌, ◌<◌, ◌≡◌, true, false, arith}
use sovereignstack.Calendar.{
  Instant, IsDate, days_in_month, after, next_month, next_daily_reset, next_monthly_reset,
}
use sovereignstack.Calendar.Order.{days_in_month_bounds}

-- The daily reset of a date of the calendar lies behind it.
pub after-next_daily_reset : (now : Instant) → IsDate now → after (next_daily_reset now) now ≡ true
unfolding after next_daily_reset
after-next_daily_reset now v = ground (arith, days_in_month_bounds now.year now.month)

-- within a month
first_of_day :
    (now midnight : Instant)
    → midnight.nanos ≡ 0
    → after midnight now ≡ true
    → after (record now { day = now.day + 1; nanos = 0 }) midnight ≡ false
unfolding after
first_of_day now midnight z h = ground arith

-- at the end of a month
first_of_month :
    (now midnight : Instant)
    → now.day ≡ days_in_month now.year now.month
    → midnight.month ≤ 12
    → 1 ≤ midnight.day
    → 1 ≤ midnight.month
    → midnight.nanos ≡ 0
    → midnight.day ≤ days_in_month midnight.year midnight.month
    → after midnight now ≡ true
    → after (next_month now) midnight ≡ false
unfolding after next_month
first_of_month now midnight e m d p z w h = ground arith

next_daily_reset_inside :
    (now : Instant)
    → now.day < days_in_month now.year now.month
    → next_daily_reset now ≡ record now { day = now.day + 1; nanos = 0 }
unfolding next_daily_reset
next_daily_reset_inside now h = ground arith

next_daily_reset_last :
    (now : Instant)
    → now.day ≡ days_in_month now.year now.month
    → next_daily_reset now ≡ next_month now
unfolding next_daily_reset next_month
next_daily_reset_last now h = ground arith

-- No midnight of the calendar lies between a date and its daily reset.
pub next_daily_reset_first :
    (now midnight : Instant)
    → IsDate now
    → IsDate midnight
    → midnight.nanos ≡ 0
    → after midnight now ≡ true
    → after (next_daily_reset now) midnight ≡ false
next_daily_reset_first now midnight v w z h =
    elim (dec_lt now.day (days_in_month now.year now.month)) [
      | yes inside ↦ rw (next_daily_reset_inside now inside) (first_of_day now midnight z h)
      | no last ↦
          let e : now.day ≡ days_in_month now.year now.month = omega (arith, v.day_le) in
          rw (next_daily_reset_last now e)
            (first_of_month now midnight e w.month_le w.day_pos w.month_pos z w.day_le h)
    ]

-- The monthly reset is the first of the next month, where that month has the day.
pub next_monthly_reset-eq-next_month :
    (now : Instant)
    → now.day ≤ days_in_month (next_month now).year (next_month now).month
    → next_monthly_reset now ≡ next_month now
unfolding next_monthly_reset
next_monthly_reset-eq-next_month now h = ground arith

-- On a day that the next month lacks, the monthly reset skips that month: it is the first of the
-- month after.
pub next_monthly_reset_skips :
    (now : Instant)
    → days_in_month (next_month now).year (next_month now).month < now.day
    → next_monthly_reset now ≡ next_month (next_month now)
unfolding next_monthly_reset next_month
next_monthly_reset_skips now h = ground arith

-- The monthly reset lies behind the instant.
pub after-next_monthly_reset : (now : Instant) → after (next_monthly_reset now) now ≡ true
unfolding after next_monthly_reset
after-next_monthly_reset now = ground arith
