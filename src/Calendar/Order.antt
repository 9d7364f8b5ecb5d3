-- ===== src/Calendar/Order.antt =====
-- Lengths of months and the order of instants.
use sovereignstack.Prelude.{ℕ, ◌≤◌, ◌≡◌, true, false, arith}
use sovereignstack.Calendar.{Instant, days_in_month, after}

pub days_in_month_bounds : (y m : ℕ) → (28 ≤ days_in_month y m) × (days_in_month y m ≤ 31)
unfolding days_in_month
days_in_month_bounds y m = ground arith

pub after_irrefl : (t : Instant) → after t t ≡ false
unfolding after
after_irrefl t = ground arith

pub after_trans : (t u v : Instant) → after t u ≡ true → after u v ≡ true → after t v ≡ true
unfolding after
after_trans t u v h k = ground arith

pub after_asymm : (t u : Instant) → after t u ≡ true → after u t ≡ false
unfolding after
after_asymm t u h = ground arith
