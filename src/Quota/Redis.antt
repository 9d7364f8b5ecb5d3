-- ===== src/Quota/Redis.antt =====
-- core/gateway/quota_redis.go: counters in Redis, one key for each user and day or month. The client
-- is a parameter, over a state of its own; a call reads the clock once.
pub mod Laws
pub mod Windows
use sovereignstack.Prelude.{
  ℕ, ◌*◌, Option, none, some, ◌++◌, ◌∷◌, [], Result, ok, err, if◌then◌else◌, is_empty,
}
use sovereignstack.Text.{Text, codes}
use sovereignstack.Int64.{ℤ, pos}
use sovereignstack.Calendar.{Instant}
use sovereignstack.Quota.Backend.{QuotaBackend, BackendError}
use sovereignstack.Quota.Keys.{day_key, month_key}

-- *redis.Client: INCRBY, EXPIRE in hours, and GET with `Int64`, `none` for redis.Nil.
pub record Redis (S : Type 0) : Type 0 where
  pub incr_by : Text → ℤ → S → Result BackendError (Unit {0}) × S
  pub expire : Text → ℕ → S → Result BackendError (Unit {0}) × S
  pub get : Text → S → Result BackendError (Option ℤ)

-- the prefix that the constructor settles on
abbrev pub prefix_or_default : Text → Text
prefix_or_default key_prefix = if is_empty key_prefix then codes "sovstack:quota:" else key_prefix

-- the byte ':'
abbrev pub colon : ℕ
colon = 58

-- what stands behind the prefix
abbrev pub daily_rest : Instant → Text → Text
daily_rest now u = codes "daily:" ++ (u ++ colon ∷ day_key now)

abbrev pub monthly_rest : Instant → Text → Text
monthly_rest now u = codes "monthly:" ++ (u ++ colon ∷ month_key now)

unfoldable pub daily_key : Text → Instant → Text → Text
daily_key key_prefix now u = key_prefix ++ daily_rest now u

unfoldable pub monthly_key : Text → Instant → Text → Text
monthly_key key_prefix now u = key_prefix ++ monthly_rest now u

-- the first error of a pipeline's two commands
abbrev pub first_error :
    Result BackendError (Unit {0}) → Result BackendError (Unit {0}) → Result BackendError (Unit {0})
first_error (err x) later = err x
first_error (ok done) later = later

-- The pipeline of `AddDaily` and `AddMonthly`: both commands run.
unfoldable pub pipeline :
    {S : Type 0} → Redis S → ℕ → Text → ℤ → S → Result BackendError (Unit {0}) × S
pipeline r hours key tokens s =
    let added = r.incr_by key tokens s in
    let expiring = r.expire key hours added.1 in (first_error added.0 expiring.0, expiring.1)

abbrev pub count_or_zero : Option ℤ → ℤ
count_or_zero none = pos 0
count_or_zero (some n) = n

abbrev pub counted : Result BackendError (Option ℤ) → Result BackendError ℤ
counted (err x) = err x
counted (ok v) = ok (count_or_zero v)

unfoldable pub redis_backend : {S : Type 0} → Redis S → Text → Instant → QuotaBackend S
unfolding pipeline
redis_backend r key_prefix now = record {
  add_daily = λ u tokens s. pipeline r 48 (daily_key key_prefix now u) tokens s;
  add_monthly = λ u tokens s. pipeline r (70 * 24) (monthly_key key_prefix now u) tokens s;
  get_daily = λ u s. counted (r.get (daily_key key_prefix now u) s);
  get_monthly = λ u s. counted (r.get (monthly_key key_prefix now u) s);
}
