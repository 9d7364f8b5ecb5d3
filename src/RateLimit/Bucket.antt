-- ===== src/RateLimit/Bucket.antt =====
-- No bucket holds more than one minute's requests, and users do not share buckets.
use sovereignstack.Prelude.{ℕ, ◌≡◌, ◌≢◌, false, some, arith}
use sovereignstack.Text.{Text}
use sovereignstack.Dict.{get, get-put, get-put_ne}
use sovereignstack.Float.{Float, FloatOrder}
use sovereignstack.RateLimit.{UserRateLimit, Minutes, Limits, bucket, refill, take_token, allow}

module _ (fl : Float) (order : FloatOrder fl) (minutes : Minutes fl) (per_min : fl.F) where
  open fl use {F, of_ℕ, sub, lt, le}

  -- not above the cap
  abbrev pub IsCapped : UserRateLimit fl → Type 0
  IsCapped limit = lt per_min limit.tokens ≡ false

  abbrev pub AllCapped : Limits fl → Type 0
  AllCapped limits =
      (u : Text) (limit : UserRateLimit fl) → get limits u ≡ some limit → IsCapped limit

  refill-IsCapped :
      (now : ℕ) (limit : UserRateLimit fl) → IsCapped (refill fl minutes per_min now limit)
  unfolding refill
  refill-IsCapped now limit = ground (arith, order.lt_irrefl per_min)

  take_token-IsCapped :
      (limit : UserRateLimit fl) → IsCapped limit → IsCapped (take_token fl limit).0
  unfolding take_token
  take_token-IsCapped limit h =
      let less = order.sub-le limit.tokens (of_ℕ 1) order.zero-le-one in
      ground (
        arith,
        less,
        order.le-eq-not_lt limit.tokens per_min,
        order.le-eq-not_lt (sub limit.tokens (of_ℕ 1)) per_min,
        order.le_trans (sub limit.tokens (of_ℕ 1)) limit.tokens per_min less,
      )

  -- On floats that keep the laws, a call leaves every bucket at one minute's requests or less,
  -- where they were so before.
  pub allow-AllCapped :
      (now : ℕ) (u : Text) (limits : Limits fl)
      → AllCapped limits
      → AllCapped (allow fl minutes now u per_min limits).0
  unfolding allow
  allow-AllCapped now u limits h v limit found =
      let filled = refill fl minutes per_min now (bucket fl per_min now (get limits u)) in
      ground (
        arith,
        h v limit,
        get-put limits u (take_token fl filled).0 v,
        take_token-IsCapped filled (refill-IsCapped now (bucket fl per_min now (get limits u))),
      )

  -- A call changes no other user's bucket.
  pub allow_ne :
      (now : ℕ) (u v : Text) (limits : Limits fl)
      → u ≢ v
      → get (allow fl minutes now u per_min limits).0 v ≡ get limits v
  unfolding allow
  allow_ne now u v limits ne =
      let filled = refill fl minutes per_min now (bucket fl per_min now (get limits u)) in
      ground (arith, get-put_ne limits u (take_token fl filled).0 v ne)
