-- ===== src/Quota/Manager/Enforce.antt =====
-- Which users pass the quota check, and what recording does to later checks.
use sovereignstack.Prelude.{
  ◌≡◌, ◌≢◌, ◌↔◌, ◌⊎◌, true, false, Option, some, arith, is_empty, ok, err, ◌∙◌,
}
use sovereignstack.Text.{Text}
use sovereignstack.Int64.{ℤ, add64, leb_ℤ}
use sovereignstack.Keys.Profile.{UserProfile}
use sovereignstack.Quota.Backend.{QuotaBackend, BackendLaws}
use sovereignstack.Quota.Manager.{has_limit, check_quota, record_usage, daily_exceeded}

-- A window with this limit has room: it has no limit, or less than the limit was used.
abbrev pub HasRoom : ℤ → ℤ → Type 0
HasRoom limit used = (has_limit limit ≡ false) ⊎ (leb_ℤ limit used ≡ false)

module _ {S : Type 0} (b : QuotaBackend S) (get_by_id : Text → Option UserProfile) (u : Text)
    (p : UserProfile) (known : get_by_id u ≡ some p) (named : is_empty u ≡ false) (s : S)
    (daily monthly : ℤ) (read_d : b.get_daily u s ≡ ok daily)
    (read_m : b.get_monthly u s ≡ ok monthly) where
  -- A known user with a name, whose counters can be read, passes the check exactly when both
  -- windows have room.
  pub check_quota-ok_iff :
      (check_quota b get_by_id u s ≡ ok tt)
      ↔ (HasRoom p.max_tokens_per_day daily × HasRoom p.max_tokens_per_month monthly)
  unfolding check_quota
  check_quota-ok_iff = (λ h. ground arith, λ h. ground arith)

module _ {S : Type 0} (b : QuotaBackend S) (laws : BackendLaws b)
    (daily_ok : (u : Text) (t : ℤ) (s : S) → (b.add_daily u t s).0 ≡ ok tt)
    (monthly_ok : (u : Text) (t : ℤ) (s : S) → (b.add_monthly u t s).0 ≡ ok tt) where
  -- On a backend that keeps its laws and whose additions succeed, where a named user's counters
  -- can be read: recording a request adds its input and output tokens, as an int64, to both
  -- counters of the user.
  pub record_usage_adds :
      (u : Text) (s : S) (daily monthly input output : ℤ)
      → is_empty u ≡ false
      → b.get_daily u s ≡ ok daily
      → b.get_monthly u s ≡ ok monthly
      → (b.get_daily u (record_usage b u input output s) ≡ ok (add64 daily (add64 input output)))
        × (b.get_monthly u (record_usage b u input output s)
            ≡ ok (add64 monthly (add64 input output)))
  unfolding record_usage
  record_usage_adds u s daily monthly input output named rd rm =
      let total = add64 input output in
      let s' = (b.add_daily u total s).1 in
      let d = laws.get_daily-add_daily u daily total s rd (daily_ok u total s) in
      let k = laws.get_daily-add_monthly u u total s' ∙ d in
      let m = laws.get_monthly-add_daily u u total s ∙ rm in
      let n = laws.get_monthly-add_monthly u monthly total s' m (monthly_ok u total s') in
      rw named (k, n)

  -- On a backend that keeps its laws and whose additions succeed, recording a request of one user
  -- changes no other user's counters.
  pub record_usage_ne :
      (u v : Text) (s : S) (input output : ℤ)
      → u ≢ v
      → (b.get_daily v (record_usage b u input output s) ≡ b.get_daily v s)
        × (b.get_monthly v (record_usage b u input output s) ≡ b.get_monthly v s)
  unfolding record_usage
  record_usage_ne u v s input output ne =
      let total = add64 input output in
      let s' = (b.add_daily u total s).1 in
      ground (
        arith,
        laws.get_daily-add_monthly u v total s',
        laws.get_daily-add_daily_ne u v total s ne,
        laws.get_monthly-add_monthly_ne u v total s' ne,
        laws.get_monthly-add_daily u v total s,
      )

  -- On a backend that keeps its laws and whose additions succeed: once the tokens recorded for a
  -- known user with a daily limit reach that limit, where the counters can be read, the next check
  -- refuses the user with the count and the limit.
  pub daily_limit_enforced :
      (get_by_id : Text → Option UserProfile) (u : Text) (p : UserProfile) (s : S)
      (daily monthly input output : ℤ)
      → get_by_id u ≡ some p
      → is_empty u ≡ false
      → b.get_daily u s ≡ ok daily
      → b.get_monthly u s ≡ ok monthly
      → has_limit p.max_tokens_per_day ≡ true
      → leb_ℤ p.max_tokens_per_day (add64 daily (add64 input output)) ≡ true
      → check_quota b get_by_id u (record_usage b u input output s)
        ≡ err (daily_exceeded (add64 daily (add64 input output)) p.max_tokens_per_day)
  unfolding check_quota
  daily_limit_enforced get_by_id u p s daily monthly input output known named rd rm limited
        reached =
      let (d, m) = record_usage_adds u s daily monthly input output named rd rm in
      rw (named, known, limited, d, reached)
