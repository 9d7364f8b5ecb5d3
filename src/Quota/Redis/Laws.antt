-- ===== src/Quota/Redis/Laws.antt =====
-- The backend on Redis keeps the laws of the interface: its keys do not collide.
use sovereignstack.Prelude.{
  append-cancel, append-injective, ℕ, ◌≡◌, ◌≢◌, ◌<◌, refl, ap, sym, ◌∙◌, [], ◌∷◌, Option, some, ok,
  arith, Result-cases, inl, inr,
}
use sovereignstack.Text.{Text, codes}
use sovereignstack.Int64.{ℤ, add64}
use sovereignstack.Calendar.{Instant}
use sovereignstack.Quota.Backend.{BackendLaws}
use sovereignstack.Quota.Keys.{day_key, month_key}
use sovereignstack.Quota.Redis.{
  Redis, colon, daily_rest, monthly_rest, daily_key, monthly_key, pipeline, counted, count_or_zero,
  redis_backend,
}

-- The documented behaviour of Redis: a successful INCRBY, which is refused where it would leave the
-- 64-bit range, adds to its key; it and EXPIRE change no other key, and
-- EXPIRE no count where the time to live is above zero; EXPIRE with 0 deletes its key.
pub record RedisLaws {S : Type 0} (r : Redis S) : Type 0 where
  pub get-incr_by :
      (k : Text) (t : ℤ) (s : S) (v : Option ℤ)
      → r.get k s ≡ ok v
      → (r.incr_by k t s).0 ≡ ok tt
      → r.get k (r.incr_by k t s).1 ≡ ok (some (add64 (count_or_zero v) t))
  pub get-incr_by_ne :
      (k j : Text) (t : ℤ) (s : S) → k ≢ j → r.get j (r.incr_by k t s).1 ≡ r.get j s
  pub get-expire :
      (k j : Text) (hours : ℕ) (s : S) → 0 < hours → r.get j (r.expire k hours s).1 ≡ r.get j s

abbrev head_or_zero : Text → ℕ
head_or_zero [] = 0
head_or_zero (b ∷ t) = b

daily_key-injective :
    (key_prefix : Text) (now : Instant) (u v : Text)
    → daily_key key_prefix now u ≡ daily_key key_prefix now v
    → u ≡ v
unfolding daily_key
daily_key-injective key_prefix now u v e =
    let rest = append-cancel key_prefix (daily_rest now u) (daily_rest now v) e in
    (append-injective u v (colon ∷ day_key now) (colon ∷ day_key now) refl
      (append-cancel (codes "daily:") _ _ rest)).0

monthly_key-injective :
    (key_prefix : Text) (now : Instant) (u v : Text)
    → monthly_key key_prefix now u ≡ monthly_key key_prefix now v
    → u ≡ v
unfolding monthly_key
monthly_key-injective key_prefix now u v e =
    let rest = append-cancel key_prefix (monthly_rest now u) (monthly_rest now v) e in
    (append-injective u v (colon ∷ month_key now) (colon ∷ month_key now) refl
      (append-cancel (codes "monthly:") _ _ rest)).0

daily_key-ne-monthly_key :
    (key_prefix : Text) (t now : Instant) (u v : Text)
    → daily_key key_prefix t u ≢ monthly_key key_prefix now v
unfolding daily_key monthly_key
daily_key-ne-monthly_key key_prefix t now u v e =
    let rest = append-cancel key_prefix (daily_rest t u) (monthly_rest now v) e in
    let heads : 100 ≡ 109 = ap head_or_zero rest in absurd (omega (arith, heads))

module _ {S : Type 0} (r : Redis S) (laws : RedisLaws r) (hours : ℕ) (lasts : 0 < hours) (k : Text)
    (t : ℤ) (s : S) where
  pub get-pipeline_ne : (j : Text) → k ≢ j → r.get j (pipeline r hours k t s).1 ≡ r.get j s
  unfolding pipeline
  get-pipeline_ne j ne =
      laws.get-expire k j hours (r.incr_by k t s).1 lasts ∙ laws.get-incr_by_ne k j t s ne

  counted-pipeline :
      (n : ℤ)
      → counted (r.get k s) ≡ ok n
      → (pipeline r hours k t s).0 ≡ ok tt
      → counted (r.get k (pipeline r hours k t s).1) ≡ ok (add64 n t)
  unfolding pipeline
  counted-pipeline n before h = elim (Result-cases (r.get k s)) [
    | inr (x, failed) ↦ absurd (ground arith)
    | inl (v, found) ↦
        let passed : (r.incr_by k t s).0 ≡ ok tt = ground arith in
        let total : count_or_zero v ≡ n = ground arith in
        ap counted (
          laws.get-expire k k hours (r.incr_by k t s).1 lasts
          ∙ laws.get-incr_by k t s v found passed)
        ∙ ap (λ m. ok (add64 m t)) total
  ]

-- With a Redis that keeps its documented behaviour, the backend keeps what the interface promises,
-- at every instant and for every key prefix: no two users, and no day and month, share a counter.
pub redis_backend-BackendLaws :
    {S : Type 0} (r : Redis S) (laws : RedisLaws r) (key_prefix : Text) (now : Instant)
    → BackendLaws (redis_backend r key_prefix now)
unfolding redis_backend
redis_backend-BackendLaws r laws key_prefix now = record {
  get_daily-add_daily = λ u n t s before h.
      counted-pipeline r laws 48 (omega arith) (daily_key key_prefix now u) t s n before h;
  get_monthly-add_monthly = λ u n t s before h.
      counted-pipeline r laws 1680 (omega arith) (monthly_key key_prefix now u) t s n before h;
  get_daily-add_daily_ne = λ u v t s ne. ap counted (
      get-pipeline_ne r laws 48 (omega arith) (daily_key key_prefix now u) t s
        (daily_key key_prefix now v) (λ e. ne (daily_key-injective key_prefix now u v e)));
  get_monthly-add_monthly_ne = λ u v t s ne. ap counted (
      get-pipeline_ne r laws 1680 (omega arith) (monthly_key key_prefix now u) t s
        (monthly_key key_prefix now v) (λ e. ne (monthly_key-injective key_prefix now u v e)));
  get_monthly-add_daily = λ u v t s. ap counted (
      get-pipeline_ne r laws 48 (omega arith) (daily_key key_prefix now u) t s
        (monthly_key key_prefix now v) (daily_key-ne-monthly_key key_prefix now now u v));
  get_daily-add_monthly = λ u v t s. ap counted (
      get-pipeline_ne r laws 1680 (omega arith) (monthly_key key_prefix now u) t s
        (daily_key key_prefix now v)
        (λ e. daily_key-ne-monthly_key key_prefix now now v u (sym e)));
}
