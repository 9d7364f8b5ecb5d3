-- ===== src/Quota/Manager.antt =====
-- `TokenQuotaManager` of core/gateway/quota.go: the limits of the key store against the counters of
-- a backend. The percentages of `GetUsage` are floats that nothing reads: the division is a parameter.
pub mod Enforce
use sovereignstack.Prelude.{
  Bool, true, false, Option, none, some, if◌then◌else◌, is_empty, Result, ok, err,
}
use sovereignstack.Text.{Text}
use sovereignstack.Int64.{ℤ, pos, add64, ltb_ℤ, leb_ℤ}
use sovereignstack.Calendar.{Instant, next_daily_reset, next_monthly_reset}
use sovereignstack.Keys.Profile.{UserProfile}
use sovereignstack.Quota.Backend.{QuotaBackend, BackendError}

pub data QuotaError : Type 0 where
  user_not_found : Text → QuotaError
  read_daily read_monthly : BackendError → QuotaError
  -- the tokens used, and the limit
  daily_exceeded monthly_exceeded : ℤ → ℤ → QuotaError

-- 0 or less means no limit
abbrev pub has_limit : ℤ → Bool
has_limit limit = ltb_ℤ (pos 0) limit

pub record QuotaUsage (F : Type 0) : Type 0 where
  pub user_id : Text
  pub daily_used : ℤ
  pub daily_limit : ℤ
  pub daily_reset_at : Instant
  pub monthly_used : ℤ
  pub monthly_limit : ℤ
  pub monthly_reset_at : Instant
  pub daily_percent : F
  pub monthly_percent : F

module _ {S : Type 0} (b : QuotaBackend S) where
  -- the check of one window, and what follows it
  check_limit :
      ℤ
      → Result BackendError ℤ
      → (BackendError → QuotaError)
      → (ℤ → ℤ → QuotaError)
      → Result QuotaError (Unit {0})
      → Result QuotaError (Unit {0})
  check_limit limit used unreadable exceeded next =
      if has_limit limit
      then elim used [
        | err x ↦ err (unreadable x)
        | ok n ↦ if leb_ℤ limit n then err (exceeded n limit) else next
      ]
      else next

  -- `profile` is what the key store's GetByID returns for the user.
  unfoldable pub check_quota : (Text → Option UserProfile) → Text → S → Result QuotaError (Unit {0})
  unfolding check_limit
  check_quota get_by_id user_id s = if is_empty user_id then ok tt else elim (get_by_id user_id) [
    | none ↦ err (user_not_found user_id)
    | some profile ↦
        check_limit profile.max_tokens_per_day (b.get_daily user_id s) read_daily daily_exceeded (
          check_limit profile.max_tokens_per_month (b.get_monthly user_id s) read_monthly
            monthly_exceeded (ok tt))
  ]

  -- `Record`: the backend's errors are dropped
  unfoldable pub record_usage : Text → ℤ → ℤ → S → S
  record_usage user_id input_tokens output_tokens s =
      if is_empty user_id
      then s
      else let total = add64 input_tokens output_tokens in
        (b.add_monthly user_id total (b.add_daily user_id total s).1).1

  module _ {F : Type 0} (zero_percent : F) (percent : ℤ → ℤ → F) where
    unfoldable pub get_usage :
        (Text → Option UserProfile) → Instant → Text → S → Result QuotaError (QuotaUsage F)
    get_usage get_by_id now user_id s = elim (get_by_id user_id) [
      | none ↦ err (user_not_found user_id)
      | some profile ↦ elim (b.get_daily user_id s) [
        | err x ↦ err (read_daily x)
        | ok daily ↦ elim (b.get_monthly user_id s) [
          | err x ↦ err (read_monthly x)
          | ok monthly ↦ ok (record {
            user_id = user_id;
            daily_used = daily;
            daily_limit = profile.max_tokens_per_day;
            daily_reset_at = next_daily_reset now;
            monthly_used = monthly;
            monthly_limit = profile.max_tokens_per_month;
            monthly_reset_at = next_monthly_reset now;
            daily_percent =
                if has_limit profile.max_tokens_per_day
                then percent daily profile.max_tokens_per_day
                else zero_percent;
            monthly_percent =
                if has_limit profile.max_tokens_per_month
                then percent monthly profile.max_tokens_per_month
                else zero_percent;
          })
        ]
      ]
    ]
