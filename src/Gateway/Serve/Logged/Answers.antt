-- ===== src/Gateway/Serve/Logged/Answers.antt =====
-- The answers of the gateway's own endpoints, which leave no entry in the log.
use sovereignstack.Prelude.{
  ◌&&◌, not, keep, map, ◌==◌, ◌≡◌, refl, Bool, true, false, Option, none, some, arith,
  if◌then◌else◌, is_empty,
}
use sovereignstack.Text.{Text, codes, text_eq}
use sovereignstack.Text.Trim.{has_suffix}
use sovereignstack.Gateway.Paths.{extract_model_name_from_path}
use sovereignstack.Float.{Float}
use sovereignstack.Router.{Registry, list_models}
use sovereignstack.Gateway.ClientIp.{Request}
use sovereignstack.Gateway.State.{
  State, Reply, model_list, prometheus_targets, metrics_missing, metrics_internal,
  metrics_unreachable, metrics_relayed, World, Gateway, Step, stop, go, continue,
}
use sovereignstack.Gateway.Stages.{serve_special, serve_model_metrics, target_of, is_denied}
use sovereignstack.Gateway.Serve.{guarded}
use sovereignstack.Gateway.Serve.Logged.{Accounted}

module _ {fl : Float} {S : Type 0} (gw : Gateway fl S) (w : World fl S) (r : Request) where
  -- what the gateway's own endpoints answer
  abbrev is_special : Reply fl S → Bool
  is_special (model_list models) = true
  is_special (prometheus_targets targets) = true
  is_special metrics_missing = true
  is_special metrics_internal = true
  is_special metrics_unreachable = true
  is_special (metrics_relayed a) = true
  is_special _ = false

  pub data Served (s : State fl S) : Step fl S (Unit {0}) × State fl S → Type 0 where
    passed_on : Served s (go tt, s)
    answered : (reply : Reply fl S) → is_special reply ≡ true → Served s (stop reply, s)

  module _ (s : State fl S) where
    if-Served :
        (b : Bool) (m n : Step fl S (Unit {0}) × State fl S)
        → Served s m
        → Served s n
        → Served s (if b then m else n)
    if-Served true m n cm cn = cm
    if-Served false m n cm cn = cn

    router-Served :
        (o : Option Registry) (f : Registry → Step fl S (Unit {0}) × State fl S)
        → ((registry : Registry) → Served s (f registry))
        → Served s (elim o [ none ↦ (go tt, s) | some registry ↦ f registry ])
    router-Served none f h = passed_on
    router-Served (some registry) f h = h registry

    is_special_metrics :
        (registry : Registry) (name : Text)
        → is_special (serve_model_metrics gw w r registry name) ≡ true
    unfolding serve_model_metrics
    is_special_metrics registry name = ground arith

    pub serve_special-Served : (user_id : Text) → Served s (serve_special gw w r user_id s)
    unfolding serve_special
    serve_special-Served user_id = router-Served gw.model_router _ λ registry.
        let name = extract_model_name_from_path r.path in
        let visible =
          keep (λ b. not (is_denied gw.access_controller user_id b.name)) (list_models registry) in
        let scraped = keep (λ b. not (b.port == 0)) (list_models registry) in
        if-Served _ _ _ passed_on (
          if-Served (text_eq r.path (codes "/v1/models")) _ _ (answered (model_list visible) refl) (
            if-Served (text_eq r.path (codes "/api/v1/prometheus/targets")) _ _
              (answered (prometheus_targets (map target_of scraped)) refl)
              (if-Served (not (is_empty name) && has_suffix r.path (codes "/metrics")) _ _
                (answered (serve_model_metrics gw w r registry name)
                  (is_special_metrics registry name))
                passed_on)))

    special-Accounted :
        (user_id model : Text) (s₁ : State fl S) (reply : Reply fl S)
        → is_special reply ≡ true
        → s₁.audit ≡ s.audit
        → s₁.counters ≡ s.counters
        → Accounted gw w r user_id model s (stop reply, s₁)
    special-Accounted user_id model s₁ reply h e c = record {
      reply = reply;
      replied = refl;
      logged = ground (arith, e);
      uncharged = λ sent. c;
    }

    pub Served-Accounted :
        (user_id model : Text) (s₁ : State fl S) (out : Step fl S (Unit {0}) × State fl S)
        → Served s₁ out
        → s₁.audit ≡ s.audit
        → s₁.counters ≡ s.counters
        → Accounted gw w r user_id model s (guarded gw w r user_id model s₁)
        → Accounted gw w r user_id model s (continue out λ u. guarded gw w r user_id model)
    Served-Accounted user_id model s₁ out passed_on e c h = h
    Served-Accounted user_id model s₁ out (answered reply special) e c h =
        special-Accounted user_id model s₁ reply special e c
