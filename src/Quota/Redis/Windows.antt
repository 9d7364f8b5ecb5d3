-- ===== src/Quota/Redis/Windows.antt =====
-- The counters of different days and months in Redis are different keys: a window starts at zero by
-- itself, and a late request touches none but its own.
use sovereignstack.Prelude.{append-cancel, append-injective, ◌≡◌, refl, ap, ◌∷◌, arith}
use sovereignstack.Text.{Text, codes}
use sovereignstack.Int64.{ℤ}
use sovereignstack.Calendar.{Instant}
use sovereignstack.Quota.Keys.{
  IsCivil, day_key, month_key, day_key-injective, month_key-injective, length-day_key,
  length-month_key,
}
use sovereignstack.Quota.Redis.{
  Redis, colon, daily_rest, monthly_rest, daily_key, monthly_key, counted, redis_backend,
}
use sovereignstack.Quota.Redis.Laws.{RedisLaws, get-pipeline_ne}

daily_key-day_key :
    (key_prefix : Text) (t now : Instant) (u v : Text)
    → daily_key key_prefix t u ≡ daily_key key_prefix now v
    → day_key t ≡ day_key now
unfolding daily_key
daily_key-day_key key_prefix t now u v e =
    let rest = append-cancel key_prefix (daily_rest t u) (daily_rest now v) e in
    let (_, ends) =
      append-injective u v (colon ∷ day_key t) (colon ∷ day_key now)
        (rw (length-day_key t, length-day_key now) refl)
        (append-cancel (codes "daily:") _ _ rest) in
    cc

monthly_key-month_key :
    (key_prefix : Text) (t now : Instant) (u v : Text)
    → monthly_key key_prefix t u ≡ monthly_key key_prefix now v
    → month_key t ≡ month_key now
unfolding monthly_key
monthly_key-month_key key_prefix t now u v e =
    let rest = append-cancel key_prefix (monthly_rest t u) (monthly_rest now v) e in
    let (_, ends) =
      append-injective u v (colon ∷ month_key t) (colon ∷ month_key now)
        (rw (length-month_key t, length-month_key now) refl)
        (append-cancel (codes "monthly:") _ _ rest) in
    cc

abbrev SameMonth : Instant → Instant → Type 0
SameMonth t now = (t.year ≡ now.year) × (t.month ≡ now.month)

module _ {S : Type 0} (r : Redis S) (laws : RedisLaws r) (key_prefix : Text) (t now : Instant)
    (civil_t : IsCivil t) (civil_now : IsCivil now) where
  -- With a Redis that keeps its documented behaviour, tokens that are recorded on one civil day are
  -- on no counter of another day, whichever users they are.
  pub redis_get_daily-add_daily_later :
      (u v : Text) (n : ℤ) (s : S)
      → ¬ (SameMonth t now × (t.day ≡ now.day))
      → (redis_backend r key_prefix now).get_daily v
          ((redis_backend r key_prefix t).add_daily u n s).1
        ≡ (redis_backend r key_prefix now).get_daily v s
  unfolding redis_backend
  redis_get_daily-add_daily_later u v n s different = ap counted (
      get-pipeline_ne r laws 48 (omega arith) (daily_key key_prefix t u) n s
        (daily_key key_prefix now v)
        (λ e.
          let (years, months, days) =
            day_key-injective t now civil_t civil_now (daily_key-day_key key_prefix t now u v e) in
          different ((years, months), days)))

  -- The same for the counters of the months.
  pub redis_get_monthly-add_monthly_later :
      (u v : Text) (n : ℤ) (s : S)
      → ¬ SameMonth t now
      → (redis_backend r key_prefix now).get_monthly v
          ((redis_backend r key_prefix t).add_monthly u n s).1
        ≡ (redis_backend r key_prefix now).get_monthly v s
  unfolding redis_backend
  redis_get_monthly-add_monthly_later u v n s different = ap counted (
      get-pipeline_ne r laws 1680 (omega arith) (monthly_key key_prefix t u) n s
        (monthly_key key_prefix now v)
        (λ e. different (
          month_key-injective t now civil_t civil_now
            (monthly_key-month_key key_prefix t now u v e))))
