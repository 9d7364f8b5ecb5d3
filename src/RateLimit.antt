-- ===== src/RateLimit.antt =====
-- `RateLimiter` of core/gateway/proxy.go: a token bucket for each user. The limiter's mutex is held
-- through a call, so a call is one step; its two reads of the clock return the same time.
pub mod Bucket
pub mod Burst
use sovereignstack.Prelude.{ℕ, ◌-◌, Bool, true, false, ◌&&◌, Option, none, some, if◌then◌else◌}
use sovereignstack.Text.{Text}
use sovereignstack.Dict.{Dict, get, put}
use sovereignstack.Float.{Float, float_eq}

module _ (fl : Float) where
  open fl use {F}

  pub record UserRateLimit : Type 0 where
    pub tokens : F
    pub last_refill_at : ℕ

module _ (fl : Float) where
  open fl use {F, of_ℕ, add, sub, mul, lt, le}

  abbrev pub Limits : Type 0
  Limits = Dict (UserRateLimit fl)

  -- now.Sub(lastRefillAt).Minutes(), of times in nanoseconds that do not go back
  abbrev pub Minutes : Type 0
  Minutes = ℕ → F

  -- the refill: what the time passed is worth, capped at one minute's requests
  unfoldable pub refill : Minutes → F → ℕ → UserRateLimit fl → UserRateLimit fl
  refill minutes per_min now limit =
      let new_tokens = add limit.tokens (mul (minutes (now - limit.last_refill_at)) per_min) in
      record {
        tokens = if lt per_min new_tokens then per_min else new_tokens;
        last_refill_at = now;
      }

  -- `if limit.tokens >= 1 { limit.tokens--; return true }`
  unfoldable pub take_token : UserRateLimit fl → UserRateLimit fl × Bool
  take_token limit =
      if le (of_ℕ 1) limit.tokens
      then (record limit { tokens = sub limit.tokens (of_ℕ 1) }, true)
      else (limit, false)

  -- the user's bucket, or a full one
  abbrev pub bucket : F → ℕ → Option (UserRateLimit fl) → UserRateLimit fl
  bucket per_min now none = record { tokens = per_min; last_refill_at = now }
  bucket per_min now (some limit) = limit

  unfoldable pub allow : Minutes → ℕ → Text → F → Limits → Limits × Bool
  allow minutes now user_id per_min limits =
      if float_eq fl per_min (of_ℕ 0)
      then (limits, true)
      else let (limit, granted) =
          take_token (refill minutes per_min now (bucket per_min now (get limits user_id))) in
        (put limits user_id limit, granted)
