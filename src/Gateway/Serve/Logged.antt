-- ===== src/Gateway/Serve/Logged.antt =====
-- Every request gets a reply, leaves the trail of that reply in the audit log, and costs tokens only
-- where it was sent to a backend.
pub mod Sending
pub mod Answers
pub mod Whole
use sovereignstack.Prelude.{
  ◌⊎◌, ◌&&◌, not, keep, map, ◌==◌, ℕ, ◌≡◌, refl, sym, ◌∙◌, ap, Bool, true, false, List, [], ◌∷◌,
  ◌++◌, Option, none, some, arith, ltb, if◌then◌else◌, is_empty, length, take, Option-cases,
  Bool-cases, inl, inr,
}
use sovereignstack.Text.{Text, codes, text_eq}
use sovereignstack.Text.Trim.{has_suffix}
use sovereignstack.Gateway.Paths.{extract_model_name_from_path}
use sovereignstack.Int64.{ℤ}
use sovereignstack.Float.{Float}
use mathlib.Core.Path.{subst}
use sovereignstack.Router.{Registry, get_backend, list_models}
use sovereignstack.Gateway.ClientIp.{Request, get_client_ip}
use sovereignstack.Gateway.Access.{AuthProvider}
use sovereignstack.Gateway.Director.{director, extract_model_name}
use sovereignstack.Gateway.Usage.{parse_token_usage}
use sovereignstack.Gateway.State.{
  AuditEvent, auth_failure, error, request, response, Metric, received, auth_failed, State, Reply,
  Response, bad_body, unauthorized, model_list, prometheus_targets, metrics_missing,
  metrics_internal, metrics_unreachable, metrics_relayed, proxied, aborted, status_of, World,
  Gateway, Step, stop, go, Handler, count, log_audit, continue, ◌>>=◌, ◌>>◌,
}
use sovereignstack.Gateway.Stages.{
  api_key_of, authenticate, serve_special, serve_model_metrics, target_of, is_denied, account,
  forward, read_body, check_source_ip, check_access, check_token_quota, check_rate_limit,
  check_admission, check_capability,
}
use sovereignstack.Gateway.Stages.Checked.{
  Checked, passed, refused, is_refusal, check_source_ip-Checked, check_access-Checked,
  check_token_quota-Checked, check_rate_limit-Checked, check_admission-Checked,
  check_capability-Checked, read_body-Checked,
}
use sovereignstack.Gateway.Serve.{guarded, serve_http}

-- The user that a request counts as, where its key is valid or absent.
abbrev pub user_of : Option AuthProvider → Text → Text
user_of none api_key = []
user_of (some validate_token) api_key =
    if is_empty api_key
    then []
    else elim (validate_token api_key) [ none ↦ [] | some user_id ↦ user_id ]

module _ {fl : Float} {S : Type 0} (gw : Gateway fl S) (w : World fl S) (r : Request) where
  abbrev pub size_of : Option Text → ℕ
  size_of none = 0
  size_of (some body) = length body

  -- what the log says behind a proxied response
  abbrev pub outcome : Text → Text → Response → AuditEvent
  outcome user_id model a =
      if ltb a.status 400
      then (let used = parse_token_usage w.json_usage a.body a.content_type in
          response user_id model r.request_uri a.status (length a.body) used.0 used.1)
      else error user_id r.request_uri a.status (get_client_ip r)

  -- The entries that a request with this reply leaves, the latest first.
  abbrev pub trail : Text → Text → Reply fl S → List AuditEvent
  trail user_id model unauthorized =
      auth_failure (take 8 (api_key_of gw.api_key_header r) ++ codes "...") r.request_uri
        (get_client_ip r)
      ∷ []
  trail user_id model (model_list models) = []
  trail user_id model (prometheus_targets targets) = []
  trail user_id model metrics_missing = []
  trail user_id model metrics_internal = []
  trail user_id model metrics_unreachable = []
  trail user_id model (metrics_relayed a) = []
  trail user_id model (proxied f a) =
      outcome user_id model a ∷ request user_id model r.request_uri (size_of r.body) ∷ []
  trail user_id model (aborted f status) = request user_id model r.request_uri (size_of r.body) ∷ []
  trail user_id model reply =
      error user_id r.request_uri (status_of fl S reply) (get_client_ip r) ∷ []

  abbrev pub is_proxied : Reply fl S → Bool
  is_proxied (proxied f a) = true
  is_proxied _ = false

  -- The handler stopped with this reply, left its trail, and kept the counters unless it was sent.
  pub record Accounted (user_id model : Text) (s : State fl S)
      (out : Step fl S (Unit {0}) × State fl S) : Type 0 where
    pub reply : Reply fl S
    pub replied : out.0 ≡ stop reply
    pub logged : out.1.audit ≡ trail user_id model reply ++ s.audit
    pub uncharged : is_proxied reply ≡ false → out.1.counters ≡ s.counters

  module _ (user_id model : Text) (s : State fl S) where
    refusal-trail :
        (reply : Reply fl S)
        → is_refusal reply ≡ true
        → (trail user_id model reply
            ≡ error user_id r.request_uri (status_of fl S reply) (get_client_ip r) ∷ [])
          × (is_proxied reply ≡ false)
    refusal-trail reply h = ground arith

    -- a step that ends as the checks do, and the rest of the handler behind it
    pub bind-Accounted :
        {A : Type 0} {out : Step fl S A × State fl S} (s₁ : State fl S)
        (f : A → Handler fl S (Unit {0}))
        → Checked r user_id s₁ A out
        → s₁.audit ≡ s.audit
        → s₁.counters ≡ s.counters
        → ((a : A) (s' : State fl S)
            → s'.audit ≡ s.audit
            → s'.counters ≡ s.counters
            → Accounted user_id model s (f a s'))
        → Accounted user_id model s (continue out f)
    bind-Accounted s₁ f (passed a s' same kept) e c rest = rest a s' (same ∙ e) (kept ∙ c)
    bind-Accounted s₁ f (refused reply s' is logged kept) e c rest =
        let (t, p) = refusal-trail reply is in
        record {
          reply = reply;
          replied = refl;
          logged = rw (logged, t, e) refl;
          uncharged = λ _. kept ∙ c;
        }
