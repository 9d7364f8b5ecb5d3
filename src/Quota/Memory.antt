-- ===== src/Quota/Memory.antt =====
-- `MemoryQuotaBackend` of core/gateway/quota_backend.go. The counters' own mutexes make an addition
-- one step. All reads of the clock in one call return the same instant.
pub mod Window
pub mod Implements
use sovereignstack.Prelude.{Bool, true, false, Option, none, some, [], if◌then◌else◌, Result, ok}
use sovereignstack.Text.{Text}
use sovereignstack.Int64.{ℤ, pos, add64}
use sovereignstack.Dict.{Dict, get, put}
use sovereignstack.Calendar.{Instant, after, next_daily_reset, next_monthly_reset}
use sovereignstack.Quota.Backend.{QuotaBackend, BackendError}

pub record MemoryCounter : Type 0 where
  pub used : ℤ
  pub reset_at : Instant

pub record MemoryQuotaBackend : Type 0 where
  pub daily : Dict MemoryCounter
  pub monthly : Dict MemoryCounter

abbrev pub new_memory_quota_backend : MemoryQuotaBackend
new_memory_quota_backend = record { daily = []; monthly = [] }

-- the counter that is there, or a new one
abbrev counter_or_new : (Instant → Instant) → Instant → Option MemoryCounter → MemoryCounter
counter_or_new reset now none = record { used = pos 0; reset_at = reset now }
counter_or_new reset now (some c) = c

-- `if time.Now().After(counter.resetAt) { … }`
abbrev roll_over : (Instant → Instant) → Instant → MemoryCounter → MemoryCounter
roll_over reset now c =
    if after now c.reset_at then record { used = pos 0; reset_at = reset now } else c

unfoldable pub add_to :
    (Instant → Instant) → Instant → Dict MemoryCounter → Text → ℤ → Dict MemoryCounter
add_to reset now m user_id tokens =
    let c = roll_over reset now (counter_or_new reset now (get m user_id)) in
    put m user_id (record c { used = add64 c.used tokens })

-- what a counter that may be missing shows at an instant
abbrev pub shown : Instant → Option MemoryCounter → ℤ
shown now none = pos 0
shown now (some c) = if after now c.reset_at then pos 0 else c.used

unfoldable pub get_from : Instant → Dict MemoryCounter → Text → ℤ
get_from now m user_id = shown now (get m user_id)

-- the backend as it answers at the instant `now`; it never fails
unfoldable pub memory_backend : Instant → QuotaBackend MemoryQuotaBackend
unfolding add_to get_from
memory_backend now = record {
  add_daily = λ u t s. (ok tt, record s { daily = add_to next_daily_reset now s.daily u t });
  add_monthly =
      λ u t s. (ok tt, record s { monthly = add_to next_monthly_reset now s.monthly u t });
  get_daily = λ u s. ok (get_from now s.daily u);
  get_monthly = λ u s. ok (get_from now s.monthly u);
}
