-- ===== src/Gateway/Stages/Checked.antt =====
-- How each step of the handler ends: it lets the request pass with the log and the counters as they
-- were, or it refuses it and logs one error with the status of the reply.
use sovereignstack.Prelude.{
  ℕ, ◌≡◌, refl, Bool, true, false, not, ◌∷◌, Option, none, some, arith, if◌then◌else◌, Result, ok,
  err, length,
}
use sovereignstack.Text.{Text}
use sovereignstack.Float.{Float}
use sovereignstack.RateLimit
use sovereignstack.Router.{get_backend}
use sovereignstack.Gateway.ClientIp.{Request, get_client_ip}
use sovereignstack.Quota.Manager.{QuotaError, check_quota}
use sovereignstack.Gateway.Paths.{extract_model_name_from_path}
use sovereignstack.Gateway.State.{
  error, Metric, quota_exceeded, rate_limit_hit, State, Reply, ip_forbidden, rate_limited, bad_body,
  access_refused, over_quota, overloaded, unsupported, not_deployed, status_of, World, Gateway,
  Step, stop, go, count, log_audit,
}
use sovereignstack.Gateway.Stages.{
  check_source_ip, check_access, check_token_quota, check_rate_limit, check_admission,
  check_capability, read_body,
}

module _ {fl : Float} {S : Type 0} where
  -- a refusal behind the authentication
  abbrev pub is_refusal : Reply fl S → Bool
  is_refusal ip_forbidden = true
  is_refusal rate_limited = true
  is_refusal bad_body = true
  is_refusal (access_refused model) = true
  is_refusal (over_quota e) = true
  is_refusal (overloaded d) = true
  is_refusal (unsupported model endpoints) = true
  is_refusal (not_deployed model) = true
  is_refusal _ = false

module _ {fl : Float} {S : Type 0} (r : Request) (user_id : Text) (s : State fl S) where
  pub data Checked (A : Type 0) : Step fl S A × State fl S → Type 0 where
    passed :
        (a : A) (s' : State fl S)
        → s'.audit ≡ s.audit
        → s'.counters ≡ s.counters
        → Checked A (go a, s')
    refused :
        (reply : Reply fl S) (s' : State fl S)
        → is_refusal reply ≡ true
        → s'.audit ≡ error user_id r.request_uri (status_of fl S reply) (get_client_ip r) ∷ s.audit
        → s'.counters ≡ s.counters
        → Checked A (stop reply, s')

module _ {fl : Float} {S : Type 0} (gw : Gateway fl S) (w : World fl S) (r : Request)
    (user_id : Text) (s : State fl S) where
  refused_counted :
      {A : Type 0} (reply : Reply fl S) (m : Metric) (s' : State fl S)
      → is_refusal reply ≡ true
      → s'.audit ≡ error user_id r.request_uri (status_of fl S reply) (get_client_ip r) ∷ s.audit
      → s'.counters ≡ s.counters
      → Checked r user_id s A (stop reply, count fl S gw m s')
  refused_counted reply m s' is logged same =
      refused reply (count fl S gw m s') is (ground arith) (ground arith)

  if-Checked :
      {A : Type 0} (b : Bool) (m n : Step fl S A × State fl S)
      → Checked r user_id s A m
      → Checked r user_id s A n
      → Checked r user_id s A (if b then m else n)
  if-Checked true m n cm cn = cm
  if-Checked false m n cm cn = cn

  pass : {A : Type 0} (a : A) → Checked r user_id s A (go a, s)
  pass a = passed a s refl refl

  option-Checked :
      {A B : Type 0} (o : Option B) (n : Step fl S A × State fl S)
      (f : B → Step fl S A × State fl S)
      → Checked r user_id s A n
      → ((b : B) → Checked r user_id s A (f b))
      → Checked r user_id s A (elim o [ none ↦ n | some b ↦ f b ])
  option-Checked none n f cn cf = cn
  option-Checked (some b) n f cn cf = cf b

  pub check_source_ip-Checked : Checked r user_id s Unit (check_source_ip gw w r user_id s)
  unfolding check_source_ip
  check_source_ip-Checked = option-Checked gw.access_controller _ _ (pass tt) (λ c.
      option-Checked c.is_source_ip_allowed _ _ (pass tt)
        (λ allowed. if-Checked _ _ _ (refused_counted _ _ _ refl refl refl) (pass tt)))

  pub check_access-Checked :
      (model : Text) → Checked r user_id s Unit (check_access gw w r user_id model s)
  unfolding check_access
  check_access-Checked model = if-Checked _ _ _ (refused_counted _ _ _ refl refl refl) (pass tt)

  quota_result-Checked :
      (q : Result QuotaError (Unit {0}))
      → Checked r user_id s Unit (elim q [
        | ok u ↦ (go tt, s)
        | err e ↦ (
          stop (over_quota e),
          count fl S gw quota_exceeded
              (log_audit fl S (error user_id r.request_uri 429 (get_client_ip r)) s),
        )
      ])
  quota_result-Checked (ok u) = pass tt
  quota_result-Checked (err e) = refused_counted _ _ _ refl refl refl

  pub check_token_quota-Checked : Checked r user_id s Unit (check_token_quota gw w r user_id s)
  unfolding check_token_quota
  check_token_quota-Checked = option-Checked gw.quota_manager _ _ (pass tt) (λ m.
      if-Checked _ _ _ (pass tt)
        (quota_result-Checked (check_quota m.backend m.get_by_id user_id s.counters)))

  pub check_rate_limit-Checked : Checked r user_id s Unit (check_rate_limit gw w r user_id s)
  unfolding check_rate_limit
  check_rate_limit-Checked =
      let (limits, granted) =
        RateLimit.allow fl w.minutes w.now user_id gw.requests_per_min s.limits in
      let s' = record s { limits = limits } in
      let logged = log_audit fl S (error user_id r.request_uri 429 (get_client_ip r)) s' in
      if-Checked (not (fl.lt (fl.of_ℕ 0) gw.requests_per_min)) _ _ (pass tt) (
        if-Checked granted _ _ (passed tt s' refl refl)
          (refused_counted rate_limited rate_limit_hit logged refl refl refl))

  pub check_admission-Checked :
      (model : Text) → Checked r user_id s Unit (check_admission gw w r user_id model s)
  unfolding check_admission
  check_admission-Checked model =
      option-Checked gw.admission_ctrl _ _ (pass tt)
        (λ c. if-Checked _ _ _ (refused_counted _ _ _ refl refl refl) (pass tt))

  pub check_capability-Checked : Checked r user_id s Unit (check_capability gw w r user_id s)
  unfolding check_capability
  check_capability-Checked = option-Checked gw.model_router _ _ (pass tt) (λ registry.
      if-Checked _ _ _ (pass tt) (
        option-Checked (get_backend registry (extract_model_name_from_path r.path)) _ _
          (refused _ _ refl refl refl)
          (λ b. if-Checked _ _ _ (pass tt) (refused _ _ refl refl refl))))

  pub read_body-Checked : Checked r user_id s ℕ (read_body gw w r user_id s)
  unfolding read_body
  read_body-Checked =
      option-Checked r.body _ _ (pass 0)
        (λ body. if-Checked _ _ _ (pass (length body)) (refused _ _ refl refl refl))
