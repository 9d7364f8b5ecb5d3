-- ===== src/Quota/Examples.antt =====
-- The theorems of the quotas and their windows at concrete inputs.
use sovereignstack.Prelude.{◌≡◌, ◌≢◌, ap, refl, true, false, ◌∷◌, [], Option, some, arith, ok, err}
use sovereignstack.Text.{Text, codes, text_eq, text_eq_refl}
use sovereignstack.Int64.{ℤ, pos, add64}
use sovereignstack.Dict.{Dict, get, put, get-put, get-put_ne}
use sovereignstack.Keys.Profile.{UserProfile}
use sovereignstack.Calendar.{Instant, IsDate, days_in_month, next_month, next_monthly_reset}
use sovereignstack.Calendar.Resets.{next_monthly_reset_skips}
use sovereignstack.Quota.Backend.{QuotaBackend, BackendLaws}
use sovereignstack.Quota.Memory.{
  MemoryCounter, MemoryQuotaBackend, new_memory_quota_backend, memory_backend,
}
use sovereignstack.Quota.Memory.Implements.{memory_backend-BackendLaws}
use sovereignstack.Quota.Keys.{IsCivil}
use sovereignstack.Quota.Redis.{Redis, count_or_zero, redis_backend}
use sovereignstack.Quota.Redis.Laws.{RedisLaws, redis_backend-BackendLaws}
use sovereignstack.Quota.Redis.Windows.{redis_get_daily-add_daily_later}
use sovereignstack.Quota.Manager.{check_quota, record_usage, daily_exceeded}
use sovereignstack.Quota.Manager.Enforce.{daily_limit_enforced}

abbrev noon : Instant
noon = record { year = 2024; month = 2; day = 29; nanos = 43200000000000 }

abbrev midnight : Instant
midnight = record { year = 2024; month = 3; day = 2; nanos = 0 }

noon-IsDate : IsDate noon
unfolding days_in_month
noon-IsDate = record {
  month_pos = omega arith;
  month_le = omega arith;
  day_pos = omega arith;
  day_le = omega arith;
}

midnight-IsDate : IsDate midnight
unfolding days_in_month
midnight-IsDate = record {
  month_pos = omega arith;
  month_le = omega arith;
  day_pos = omega arith;
  day_le = omega arith;
}

abbrev january_31 : Instant
january_31 = record { year = 2023; month = 1; day = 31; nanos = 0 }

-- from 31 January to 1 March
next_monthly_reset_skips_example :
    next_monthly_reset january_31 ≡ next_month (next_month january_31)
next_monthly_reset_skips_example =
    next_monthly_reset_skips january_31 (unfold days_in_month next_month in omega arith)

abbrev counter : MemoryCounter
counter = record { used = pos 5; reset_at = midnight }

abbrev table : Dict MemoryCounter
table = (codes "bob", counter) ∷ []

memory_backend-BackendLaws_example : BackendLaws (memory_backend noon)
memory_backend-BackendLaws_example = memory_backend-BackendLaws noon

abbrev bob : UserProfile
bob = record {
  id = codes "bob";
  key = codes "k";
  key_index = [];
  department = [];
  team = [];
  role = [];
  ip_allowlist = [];
  allowed_models = [];
  rate_limit_per_min = 0;
  max_tokens_per_day = pos 10;
  max_tokens_per_month = pos 0;
  created_at = 0;
  last_used_at = 0;
}

abbrev profiles : Text → Option UserProfile
profiles u = some bob

abbrev backend : QuotaBackend MemoryQuotaBackend
backend = memory_backend noon

abbrev fresh : MemoryQuotaBackend
fresh = new_memory_quota_backend

daily_zero : backend.get_daily (codes "bob") fresh ≡ ok (pos 0)
unfolding memory_backend get
daily_zero = refl

monthly_zero : backend.get_monthly (codes "bob") fresh ≡ ok (pos 0)
unfolding memory_backend get
monthly_zero = refl

daily_ok : (u : Text) (t : ℤ) (s : MemoryQuotaBackend) → (backend.add_daily u t s).0 ≡ ok tt
unfolding memory_backend
daily_ok u t s = refl

monthly_ok : (u : Text) (t : ℤ) (s : MemoryQuotaBackend) → (backend.add_monthly u t s).0 ≡ ok tt
unfolding memory_backend
monthly_ok u t s = refl

bob_ne_eve : codes "bob" ≢ codes "eve"
unfolding text_eq
bob_ne_eve e = let apart : true ≡ false = ap (λ t. text_eq (codes "bob") t) e in cc

daily_limit_enforced_example :
    check_quota backend profiles
      (codes "bob")
      (record_usage backend (codes "bob") (pos 6) (pos 7) fresh)
    ≡ err (daily_exceeded (add64 (pos 0) (add64 (pos 6) (pos 7))) (pos 10))
daily_limit_enforced_example =
    daily_limit_enforced backend (memory_backend-BackendLaws noon) daily_ok monthly_ok profiles
      (codes "bob") bob fresh (pos 0) (pos 0) (pos 6) (pos 7) refl refl daily_zero monthly_zero refl
      (unfold add64 in refl)

-- A Redis that keeps its counts in an association list.
abbrev toy_redis : Redis (Dict ℤ)
toy_redis = record {
  incr_by = λ k t s. (ok tt, put s k (add64 (count_or_zero (get s k)) t));
  expire = λ k hours s. (ok tt, s);
  get = λ k s. ok (get s k);
}

toy_redis-RedisLaws : RedisLaws toy_redis
toy_redis-RedisLaws = record {
  get-incr_by = λ k t s v found h.
      let same : get s k ≡ v = cc in
      ground (
        arith,
        same,
        get-put s k (add64 (count_or_zero (get s k)) t) k,
        text_eq_refl k,
        ap (λ o. some (add64 (count_or_zero o) t)) same,
      );
  get-incr_by_ne = λ k j t s ne. ap ok (get-put_ne s k (add64 (count_or_zero (get s k)) t) j ne);
  get-expire = λ k j hours s lasts. refl;
}

redis_backend-BackendLaws_example :
    BackendLaws (redis_backend toy_redis (codes "sovstack:quota:") noon)
redis_backend-BackendLaws_example =
    redis_backend-BackendLaws toy_redis toy_redis-RedisLaws (codes "sovstack:quota:") noon

noon-IsCivil : IsCivil noon
noon-IsCivil = record { year_lt = omega arith; month_lt = omega arith; day_lt = omega arith }

midnight-IsCivil : IsCivil midnight
midnight-IsCivil = record { year_lt = omega arith; month_lt = omega arith; day_lt = omega arith }

redis_get_daily-add_daily_later_example :
    (redis_backend toy_redis (codes "q:") midnight).get_daily
      (codes "alice")
      ((redis_backend toy_redis (codes "q:") noon).add_daily (codes "alice") (pos 7) []).1
    ≡ (redis_backend toy_redis (codes "q:") midnight).get_daily (codes "alice") []
redis_get_daily-add_daily_later_example =
    redis_get_daily-add_daily_later toy_redis toy_redis-RedisLaws (codes "q:") noon midnight
      noon-IsCivil midnight-IsCivil (codes "alice") (codes "alice") (pos 7) []
      (λ (month, day). absurd (omega (arith, day)))
