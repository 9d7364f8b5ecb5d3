-- ===== src/Quota/Backend.antt =====
-- The interface `QuotaBackend` of core/gateway/quota_backend.go: the operations of a backend over
-- a state of its own, and the laws that the manager relies on.
use sovereignstack.Prelude.{◌≡◌, ◌≢◌, Result, ok}
use sovereignstack.Text.{Text}
use sovereignstack.Int64.{ℤ, add64}

pub data BackendError : Type 0 where
  unavailable : BackendError

pub record QuotaBackend (S : Type 0) : Type 0 where
  pub add_daily : Text → ℤ → S → Result BackendError (Unit {0}) × S
  pub add_monthly : Text → ℤ → S → Result BackendError (Unit {0}) × S
  pub get_daily : Text → S → Result BackendError ℤ
  pub get_monthly : Text → S → Result BackendError ℤ

-- At one moment, a successful addition adds to the user's counter of its window and touches no
-- other counter.
pub record BackendLaws {S : Type 0} (b : QuotaBackend S) : Type 0 where
  pub get_daily-add_daily :
      (u : Text) (n t : ℤ) (s : S)
      → b.get_daily u s ≡ ok n
      → (b.add_daily u t s).0 ≡ ok tt
      → b.get_daily u (b.add_daily u t s).1 ≡ ok (add64 n t)
  pub get_monthly-add_monthly :
      (u : Text) (n t : ℤ) (s : S)
      → b.get_monthly u s ≡ ok n
      → (b.add_monthly u t s).0 ≡ ok tt
      → b.get_monthly u (b.add_monthly u t s).1 ≡ ok (add64 n t)
  pub get_daily-add_daily_ne :
      (u v : Text) (t : ℤ) (s : S) → u ≢ v → b.get_daily v (b.add_daily u t s).1 ≡ b.get_daily v s
  pub get_monthly-add_monthly_ne :
      (u v : Text) (t : ℤ) (s : S)
      → u ≢ v
      → b.get_monthly v (b.add_monthly u t s).1 ≡ b.get_monthly v s
  pub get_monthly-add_daily :
      (u v : Text) (t : ℤ) (s : S) → b.get_monthly v (b.add_daily u t s).1 ≡ b.get_monthly v s
  pub get_daily-add_monthly :
      (u v : Text) (t : ℤ) (s : S) → b.get_daily v (b.add_monthly u t s).1 ≡ b.get_daily v s
