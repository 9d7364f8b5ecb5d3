-- ===== src/Gateway/Serve/Safety.antt =====
-- A request reaches a backend only past every check, or as a scrape of metrics.
use mathlib.Core.Path.{subst}
use sovereignstack.Prelude.{◌≡◌, true, false, arith, [], ◌⊎◌, inl, inr}
use sovereignstack.Text.{Text}
use sovereignstack.Float.{Float}
use sovereignstack.Gateway.ClientIp.{Request, get_client_ip}
use sovereignstack.Gateway.Director.{extract_model_name}
use sovereignstack.Gateway.State.{State, World, Gateway, Metric, received, count}
use sovereignstack.Gateway.Stages.{api_key_of, is_denied}
use sovereignstack.Gateway.Stages.Passing.{
  sent, Identifies, IsScrape, source_refused, WithinQuota, rate, shed_now, CanServe,
  authenticate-sent, serve_special-sent, check_source_ip-sent, check_access-sent,
  check_token_quota-sent, check_rate_limit-sent, check_admission-sent, check_capability-sent,
}
use sovereignstack.Gateway.Serve.{guarded, serve_http}

-- All that the checks ask of a user's request for a model, in a state of the gateway.
pub record Cleared {fl : Float} {S : Type 0} (gw : Gateway fl S) (w : World fl S) (r : Request)
    (user_id model : Text) (s : State fl S) : Type 0 where
  pub source_ok : source_refused gw.access_controller user_id (get_client_ip r) ≡ false
  pub access_ok : is_denied gw.access_controller user_id model ≡ false
  pub quota_ok : WithinQuota gw.quota_manager user_id s.counters
  pub rate_ok : (rate gw w user_id s.limits).1 ≡ true
  pub capacity_ok : shed_now gw.admission_ctrl model w.now ≡ false
  pub path_ok : CanServe gw.model_router r.path

module _ {fl : Float} {S : Type 0} (gw : Gateway fl S) (w : World fl S) (r : Request) where
  guarded-Cleared :
      (user_id model : Text) (s : State fl S)
      → sent (guarded gw w r user_id model s) ≡ true
      → Cleared gw w r user_id model s
  unfolding guarded
  guarded-Cleared user_id model s h =
      let (source, h₁) = check_source_ip-sent gw w r s user_id _ h in
      let (access, h₂) = check_access-sent gw w r s user_id _ model h₁ in
      let (quota, h₃) = check_token_quota-sent gw w r s user_id _ h₂ in
      let (granted, h₄) = check_rate_limit-sent gw w r s user_id _ h₃ in
      let (capacity, h₅) = check_admission-sent gw w r _ user_id _ model h₄ in
      let (path, h₆) = check_capability-sent gw w r _ user_id _ h₅ in
      record {
        source_ok = source;
        access_ok = access;
        quota_ok = quota;
        rate_ok = granted;
        capacity_ok = capacity;
        path_ok = path;
      }

  -- counting the request changes nothing that the checks read
  Cleared-count :
      (user_id model : Text) (m : Metric) (s : State fl S)
      → Cleared gw w r user_id model (count fl S gw m s)
      → Cleared gw w r user_id model s
  Cleared-count user_id model m s c =
      let same : (count fl S gw m s).counters ≡ s.counters = ground arith in
      let same_limits : (count fl S gw m s).limits ≡ s.limits = ground arith in
      record {
        source_ok = c.source_ok;
        access_ok = c.access_ok;
        quota_ok = subst (WithinQuota gw.quota_manager user_id) same c.quota_ok;
        rate_ok = subst (λ l. (rate gw w user_id l).1 ≡ true) same_limits c.rate_ok;
        capacity_ok = c.capacity_ok;
        path_ok = c.path_ok;
      }

  -- A request for which a backend is contacted carries a key that the provider knows, or none; and
  -- either, for the user of that key and the model that the request names, the source address and the
  -- access were allowed, the token quota and the rate limit had room, the admission controller did not
  -- shed, and the routed model is deployed and serves the path; or it is a GET whose path names a
  -- deployed model and ends in /metrics, which passes none of these checks.
  pub serve_http-Cleared :
      (s : State fl S)
      → sent (serve_http gw w r s) ≡ true
      → (user_id : Text) × Identifies gw.auth_provider (api_key_of gw.api_key_header r) user_id
        × (Cleared gw w r user_id (extract_model_name w r) s ⊎ IsScrape gw.model_router r)
  unfolding serve_http
  serve_http-Cleared s h =
      let s' = count fl S gw received s in
      let (user_id, identified, h₁) = authenticate-sent gw w r s' [] _ h in
      let model = extract_model_name w r in
      (
        user_id,
        identified,
        elim (serve_special-sent gw w r s' user_id _ h₁) [
          | inl h₂ ↦
              inl (Cleared-count user_id model received s (guarded-Cleared user_id model s' h₂))
          | inr scrape ↦ inr scrape
        ],
      )
