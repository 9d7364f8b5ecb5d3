-- ===== src/RateLimit/Burst.antt =====
-- While the clock stands still, a user gets as many requests as the bucket holds whole tokens.
use sovereignstack.Prelude.{
  ℕ, zero, suc, ◌-◌, ◌≡◌, refl, true, false, none, arith, if◌then◌else◌, Bool-cases, inl, inr,
}
use Prim.Native.Nat.{min}
use sovereignstack.Text.{Text, text_eq_refl}
use sovereignstack.Dict.{get, put, get-put}
use sovereignstack.Float.{Float, FloatOrder, FloatUnits, float_eq}
use sovereignstack.RateLimit.{UserRateLimit, Minutes, Limits, bucket, refill, take_token, allow}

module _ (fl : Float) (minutes : Minutes fl) (now : ℕ) (u : Text) (per_min : fl.F) where
  -- the requests granted out of n in a row
  unfoldable pub granted : ℕ → Limits fl → ℕ
  granted zero limits = 0
  granted (suc n) limits =
      let r = allow fl minutes now u per_min limits in
      let rest = granted n r.0 in if r.1 then suc rest else rest

module _ (fl : Float) (order : FloatOrder fl) (whole : FloatUnits fl) (minutes : Minutes fl)
    (still : minutes 0 ≡ fl.of_ℕ 0) (now : ℕ) (u : Text) (per_min : fl.F)
    (limited : float_eq fl per_min (fl.of_ℕ 0) ≡ false)
    (positive : fl.le (fl.of_ℕ 0) per_min ≡ true)
    (exact : fl.le per_min (fl.of_ℕ 9007199254740992) ≡ true) where
  open fl use {of_ℕ, sub, lt, le, add, mul}

  -- a bucket that was filled up at this moment
  abbrev holding : fl.F → UserRateLimit fl
  holding t = record { tokens = t; last_refill_at = now }

  nothing_new : (t : fl.F) → add t (mul (minutes (now - now)) per_min) ≡ t
  nothing_new t =
      let e : now - now ≡ 0 = omega arith in
      rw (e, still, whole.zero-mul per_min positive exact, whole.add-zero t)

  refill_still :
      (t : fl.F) → lt per_min t ≡ false → refill fl minutes per_min now (holding t) ≡ holding t
  unfolding refill
  refill_still t capped = rw (nothing_new t, capped)

  sub_one-IsCapped : (t : fl.F) → lt per_min t ≡ false → lt per_min (sub t (of_ℕ 1)) ≡ false
  sub_one-IsCapped t capped =
      let less = order.sub-le t (of_ℕ 1) order.zero-le-one in
      ground (
        arith,
        order.le-eq-not_lt t per_min,
        order.le-eq-not_lt (sub t (of_ℕ 1)) per_min,
        order.le_trans (sub t (of_ℕ 1)) t per_min less,
      )

  below : (t : fl.F) → lt per_min t ≡ false → le t (of_ℕ 9007199254740992) ≡ true
  below t capped =
      ground (arith, order.le-eq-not_lt t per_min, order.le_trans t per_min (of_ℕ 9007199254740992))

  allow_still :
      (t : fl.F) (limits : Limits fl)
      → lt per_min t ≡ false
      → bucket fl per_min now (get limits u) ≡ holding t
      → allow fl minutes now u per_min limits
        ≡ (put limits u (take_token fl (holding t)).0, (take_token fl (holding t)).1)
  unfolding allow
  allow_still t limits capped held = rw (limited, held, refill_still t capped)

  take_token_some :
      (t : fl.F)
      → le (of_ℕ 1) t ≡ true
      → take_token fl (holding t) ≡ (holding (sub t (of_ℕ 1)), true)
  unfolding take_token
  take_token_some t h = rw h

  take_token_none :
      (t : fl.F) → le (of_ℕ 1) t ≡ false → take_token fl (holding t) ≡ (holding t, false)
  unfolding take_token
  take_token_none t h = rw h

  bucket-put :
      (t : fl.F) (limits : Limits fl)
      → bucket fl per_min now (get (put limits u (holding t)) u) ≡ holding t
  bucket-put t limits = rw (get-put, text_eq_refl u)

  granted-eq-min_from :
      (n : ℕ) (t : fl.F) (limits : Limits fl)
      → lt per_min t ≡ false
      → bucket fl per_min now (get limits u) ≡ holding t
      → granted fl minutes now u per_min n limits ≡ min n (whole.units t)
  unfolding granted
  granted-eq-min_from zero t limits capped held = omega arith
  granted-eq-min_from (suc n) t limits capped held = elim (Bool-cases (le (of_ℕ 1) t)) [
    | inl left ↦
        let t' = sub t (of_ℕ 1) in
        let limits' = put limits u (holding t') in
        let rest =
          granted-eq-min_from n t' limits' (sub_one-IsCapped t capped) (bucket-put t' limits) in
        rw (allow_still t limits capped held, take_token_some t left)
          (omega (arith, rest, whole.units-le_one t left (below t capped)))
    | inr empty ↦
        let rest =
          granted-eq-min_from n t (put limits u (holding t)) capped (bucket-put t limits) in
        rw (allow_still t limits capped held, take_token_none t empty)
          (omega (arith, rest, whole.units_lt_one t empty))
  ]

  -- On floats that keep the laws, with a limit above 0 and at most 2^53: of n requests that a user with a new
  -- bucket makes at one moment, exactly as many are granted as the limit has whole units, or n if
  -- that is less.
  pub granted-eq-min :
      (n : ℕ) (limits : Limits fl)
      → get limits u ≡ none
      → granted fl minutes now u per_min n limits ≡ min n (whole.units per_min)
  granted-eq-min n limits fresh =
      granted-eq-min_from n per_min limits (order.lt_irrefl per_min) (rw fresh refl)
