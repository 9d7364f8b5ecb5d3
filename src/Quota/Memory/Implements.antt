-- ===== src/Quota/Memory/Implements.antt =====
-- The backend in memory meets the interface's laws, and its windows end at the resets.
use sovereignstack.Prelude.{◌≡◌, refl, arith, ap, ◌∙◌, Result, ok}
use sovereignstack.Quota.Backend.{BackendError, BackendLaws}
use sovereignstack.Int64.{ℤ, add64}
use sovereignstack.Calendar.{Instant, after, next_daily_reset, next_monthly_reset}
use sovereignstack.Calendar.Order.{after_asymm}
use sovereignstack.Calendar.Resets.{after-next_monthly_reset}
use sovereignstack.Quota.Memory.{memory_backend}
use sovereignstack.Quota.Memory.Window.{Forward, get_from-add_to, get_from-add_to_ne}

daily-Forward : Forward next_daily_reset
unfolding after next_daily_reset
daily-Forward now = ground arith

monthly-Forward : Forward next_monthly_reset
monthly-Forward now = after_asymm (next_monthly_reset now) now (after-next_monthly_reset now)

ok-injective : {a b : ℤ} → ◌≡◌ {A = Result BackendError ℤ} (ok a) (ok b) → a ≡ b
ok-injective e = cc

-- The backend in memory keeps what the interface promises, at every instant.
pub memory_backend-BackendLaws : (now : Instant) → BackendLaws (memory_backend now)
unfolding memory_backend
memory_backend-BackendLaws now = record {
  get_daily-add_daily = λ u n t s e _. ap ok (
      get_from-add_to next_daily_reset daily-Forward now s.daily u t
      ∙ ap (λ k. add64 k t) (ok-injective e));
  get_monthly-add_monthly = λ u n t s e _. ap ok (
      get_from-add_to next_monthly_reset monthly-Forward now s.monthly u t
      ∙ ap (λ k. add64 k t) (ok-injective e));
  get_daily-add_daily_ne = λ u v t s ne.
      ap ok (get_from-add_to_ne next_daily_reset daily-Forward now s.daily u v t now ne);
  get_monthly-add_monthly_ne = λ u v t s ne.
      ap ok (get_from-add_to_ne next_monthly_reset monthly-Forward now s.monthly u v t now ne);
  get_monthly-add_daily = λ u v t s. refl;
  get_daily-add_monthly = λ u v t s. refl;
}
