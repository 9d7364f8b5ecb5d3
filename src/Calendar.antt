-- ===== src/Calendar.antt =====
-- The civil dates of core/gateway/quota_backend.go: instants in UTC, their order, and the part of
-- time.AddDate and time.Date that the quota windows use.
pub mod Order
pub mod Resets
use sovereignstack.Prelude.{
  ℕ, suc, ◌+◌, ◌-◌, ◌%◌, ◌≤◌, ◌<◌, ◌≡◌, Bool, true, false, ◌&&◌, ◌||◌, ◌==◌, ltb, leb,
  if◌then◌else◌,
}

-- time.Time in UTC: a date, and the nanoseconds since its midnight
pub record Instant : Type 0 where
  pub year : ℕ
  pub month : ℕ
  pub day : ℕ
  pub nanos : ℕ

abbrev pub is_leap : ℕ → Bool
is_leap y = (y % 400 == 0) || (ltb 0 (y % 100) && (y % 4 == 0))

-- the days of a month, 1 for January
unfoldable pub days_in_month : ℕ → ℕ → ℕ
days_in_month y m =
    if (m == 11) || (m == 9) || (m == 6) || (m == 4)
    then 30
    else if ltb 2 m || ltb m 2
    then 31
    else if is_leap y
    then 29
    else 28

-- t.After(u)
unfoldable pub after : Instant → Instant → Bool
after t u =
    if ltb u.year t.year
    then true
    else if ltb t.year u.year
    then false
    else if ltb u.month t.month
    then true
    else if ltb t.month u.month
    then false
    else if ltb u.day t.day
    then true
    else if ltb t.day u.day
    then false
    else ltb u.nanos t.nanos

-- the first of the month behind a month
unfoldable pub next_month : Instant → Instant
next_month t =
    if t.month == 12
    then record { year = t.year + 1; month = 1; day = 1; nanos = 0 }
    else record { year = t.year; month = t.month + 1; day = 1; nanos = 0 }

-- A day past the end of its month runs over into the next month, as time.Date has it. One step is
-- enough: a day number is at most 32, and every month has 28 days.
unfoldable pub normalise : Instant → Instant
unfolding next_month
normalise t =
    let n = days_in_month t.year t.month in
    if ltb n t.day then record (next_month t) { day = t.day - n; nanos = t.nanos } else t

-- now.AddDate(0, 0, 1) and now.AddDate(0, 1, 0)
unfoldable pub add_day : Instant → Instant
unfolding normalise
add_day t = normalise (record t { day = t.day + 1 })

unfoldable pub add_month : Instant → Instant
unfolding normalise
add_month t = normalise (record (next_month t) { day = t.day; nanos = t.nanos })

unfoldable pub next_daily_reset : Instant → Instant
unfolding add_day
next_daily_reset now =
    let tomorrow = add_day now in
    record { year = tomorrow.year; month = tomorrow.month; day = tomorrow.day; nanos = 0 }

unfoldable pub next_monthly_reset : Instant → Instant
unfolding add_month
next_monthly_reset now =
    let later = add_month now in
    record { year = later.year; month = later.month; day = 1; nanos = 0 }

-- A date of the calendar.
pub record IsDate (t : Instant) : Type 0 where
  pub month_pos : 1 ≤ t.month
  pub month_le : t.month ≤ 12
  pub day_pos : 1 ≤ t.day
  pub day_le : t.day ≤ days_in_month t.year t.month
