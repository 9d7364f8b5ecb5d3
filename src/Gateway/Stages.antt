-- ===== src/Gateway/Stages.antt =====
-- The steps of `ServeHTTP` of core/gateway/proxy.go, in the order in which it makes them.
pub mod Passing
pub mod Checked
use sovereignstack.Prelude.{
  ℕ, ◌+◌, Bool, true, false, not, ◌&&◌, ◌||◌, List, [], ◌∷◌, ◌++◌, Option, none, some, ◌==◌, ltb,
  if◌then◌else◌, is_empty, length, take, keep, map, Result, ok, err,
}
use sovereignstack.Text.{Text, codes, text_eq, has_prefix, trim_prefix}
use sovereignstack.Text.Trim.{has_suffix}
use sovereignstack.Int64.{ℤ, pos, ltb_ℤ}
use sovereignstack.Float.{Float}
use sovereignstack.RateLimit as RateLimit
use sovereignstack.Admission.Controller as Admission
use sovereignstack.Router.{ModelBackend, Registry, get_backend, list_models, is_path_supported}
use sovereignstack.Quota.Manager.{check_quota, record_usage}
use sovereignstack.Gateway.Access.{AccessController, AuthProvider}
use sovereignstack.Gateway.Usage.{parse_token_usage}
use sovereignstack.Gateway.Paths.{extract_model_name_from_path, strip_model_prefix_from_path}
use sovereignstack.Gateway.ClientIp.{Request, Method, get, get_client_ip}
use sovereignstack.Gateway.Director.{director}
use sovereignstack.Gateway.State.{
  AuditEvent, auth_failure, error, request, response, received, auth_failed, rate_limit_hit,
  quota_exceeded, access_denied, shed, completed, latency, tokens, State, Reply, World, Gateway,
  Step, stop, go, Handler, log_audit, count, unauthorized, ip_forbidden, rate_limited, bad_body,
  model_list, prometheus_targets, metrics_missing, metrics_internal, metrics_unreachable,
  metrics_relayed, access_refused, over_quota, overloaded, unsupported, not_deployed, proxied,
  aborted, finished, cut_off,
}

abbrev pub is_get : Method → Bool
is_get get = true
is_get _ = false

-- the key of the header, or the bearer token
unfoldable pub api_key_of : Text → Request → Text
api_key_of api_key_header r =
    let api_key = r.header api_key_header in
    let authorization = r.header (codes "Authorization") in
    if is_empty api_key && has_prefix authorization (codes "Bearer ")
    then trim_prefix authorization (codes "Bearer ")
    else api_key

-- gw.accessController != nil && userID != "" && !gw.accessController.CanAccess(userID, model)
abbrev pub is_denied : Option AccessController → Text → Text → Bool
is_denied none user_id model = false
is_denied (some c) user_id model = not (is_empty user_id) && not (c.can_access user_id model)

unfoldable pub target_of : ModelBackend → ℕ × Text
target_of b = (b.port, b.name)

abbrev any_tokens : ℤ × ℤ → Bool
any_tokens used = ltb_ℤ (pos 0) used.0 || ltb_ℤ (pos 0) used.1

module _ {fl : Float} {S : Type 0} (gw : Gateway fl S) (w : World fl S) (r : Request) where
  -- the user's id, "" for nobody
  unfoldable pub authenticate : Handler fl S Text
  authenticate s =
      let api_key = api_key_of gw.api_key_header r in
      elim gw.auth_provider [
        | none ↦ (go [], s)
        | some validate_token ↦
            if is_empty api_key then (go [], s) else elim (validate_token api_key) [
              | some user_id ↦ (go user_id, s)
              | none ↦ (
                stop unauthorized,
                count fl S gw auth_failed (
                    log_audit fl S
                      (auth_failure (take 8 api_key ++ codes "...") r.request_uri (get_client_ip r))
                      s),
              )
            ]
      ]

  unfoldable pub serve_model_metrics : Registry → Text → Reply fl S
  serve_model_metrics registry name = elim (get_backend registry name) [
    | none ↦ metrics_missing
    | some b ↦
        let target = b.url ++ codes "/metrics" in
        if not (w.valid_url target) then metrics_internal else elim (w.scrape target) [
          | none ↦ metrics_unreachable
          | some answer ↦ metrics_relayed answer
        ]
  ]

  -- the three GET endpoints of the gateway itself
  unfoldable pub serve_special : Text → Handler fl S (Unit {0})
  unfolding serve_model_metrics target_of
  serve_special user_id s = elim gw.model_router [
    | none ↦ (go tt, s)
    | some registry ↦
        if not (is_get r.method)
        then (go tt, s)
        else if text_eq r.path (codes "/v1/models")
        then (
          stop (
              model_list (
                keep (λ b. not (is_denied gw.access_controller user_id b.name))
                  (list_models registry))),
          s,
        )
        else if text_eq r.path (codes "/api/v1/prometheus/targets")
        then (
          stop (
              prometheus_targets
                (map target_of (keep (λ b. not (b.port == 0)) (list_models registry)))),
          s,
        )
        else let name = extract_model_name_from_path r.path in
          if not (is_empty name) && has_suffix r.path (codes "/metrics")
          then (stop (serve_model_metrics registry name), s)
          else (go tt, s)
  ]

  -- gw.auditLogger.LogError(userID, r.RequestURI, …, status, clientIP)
  abbrev log_error : Text → ℕ → State fl S → State fl S
  log_error user_id status s =
      log_audit fl S (error user_id r.request_uri status (get_client_ip r)) s

  unfoldable pub check_source_ip : Text → Handler fl S (Unit {0})
  check_source_ip user_id s = elim gw.access_controller [
    | none ↦ (go tt, s)
    | some c ↦ elim c.is_source_ip_allowed [
      | none ↦ (go tt, s)
      | some allowed ↦
          if not (is_empty user_id) && not (allowed user_id (get_client_ip r))
          then (stop ip_forbidden, count fl S gw (access_denied user_id) (log_error user_id 403 s))
          else (go tt, s)
    ]
  ]

  unfoldable pub check_access : Text → Text → Handler fl S (Unit {0})
  check_access user_id model s =
      if is_denied gw.access_controller user_id model
      then (
        stop (access_refused model),
        count fl S gw (access_denied user_id) (log_error user_id 403 s),
      )
      else (go tt, s)

  unfoldable pub check_token_quota : Text → Handler fl S (Unit {0})
  check_token_quota user_id s = elim gw.quota_manager [
    | none ↦ (go tt, s)
    | some m ↦
        if is_empty user_id
        then (go tt, s)
        else elim (check_quota m.backend m.get_by_id user_id s.counters) [
          | ok u ↦ (go tt, s)
          | err e ↦ (stop (over_quota e), count fl S gw quota_exceeded (log_error user_id 429 s))
        ]
  ]

  unfoldable pub check_rate_limit : Text → Handler fl S (Unit {0})
  check_rate_limit user_id s =
      if not (fl.lt (fl.of_ℕ 0) gw.requests_per_min)
      then (go tt, s)
      else let (limits, granted) =
          RateLimit.allow fl w.minutes w.now user_id gw.requests_per_min s.limits in
        let s' = record s { limits = limits } in
        if granted
        then (go tt, s')
        else (stop rate_limited, count fl S gw rate_limit_hit (log_error user_id 429 s'))

  unfoldable pub check_admission : Text → Text → Handler fl S (Unit {0})
  check_admission user_id model s = elim gw.admission_ctrl [
    | none ↦ (go tt, s)
    | some c ↦
        let d = Admission.allow fl model w.now c in
        if not d.allowed
        then (stop (overloaded d), count fl S gw (shed model) (log_error user_id 503 s))
        else (go tt, s)
  ]

  unfoldable pub check_capability : Text → Handler fl S (Unit {0})
  check_capability user_id s =
      let name = extract_model_name_from_path r.path in
      elim gw.model_router [
        | none ↦ (go tt, s)
        | some registry ↦ if is_empty name then (go tt, s) else elim (get_backend registry name) [
          | none ↦ (stop (not_deployed name), log_error user_id 404 s)
          | some b ↦
              if is_path_supported b (strip_model_prefix_from_path r.path name)
              then (go tt, s)
              else (stop (unsupported name b.endpoints), log_error user_id 404 s)
        ]
      ]

  -- the length of the body that was read
  unfoldable pub read_body : Text → Handler fl S ℕ
  read_body user_id s = elim r.body [
    | none ↦ (go 0, s)
    | some body ↦
        if r.readable then (go (length body), s) else (stop bad_body, log_error user_id 400 s)
  ]

  -- `gw.quotaManager.Record(…)`
  record_quota : Text → ℤ × ℤ → State fl S → State fl S
  record_quota user_id used s = elim gw.quota_manager [
    | none ↦ s
    | some m ↦
        if any_tokens used
        then record s { counters = record_usage m.backend user_id used.0 used.1 s.counters }
        else s
  ]

  -- what is logged and counted behind the response
  unfoldable pub account : Text → Text → ℕ → ℕ → ℤ × ℤ → State fl S → State fl S
  unfolding record_quota
  account user_id model status size used s =
      let counted =
        count fl S gw (latency model) (count fl S gw (completed status user_id model) s) in
      let measured =
        if any_tokens used
        then count fl S gw (tokens user_id model used.0 used.1) counted
        else counted in
      let recorded = record_quota user_id used measured in
      if ltb status 400
      then log_audit fl S (response user_id model r.request_uri status size used.0 used.1) recorded
      else log_error user_id status recorded

  unfoldable pub forward : Text → Text → ℕ → Handler fl S (Unit {0})
  unfolding account
  forward user_id model size s =
      let logged = log_audit fl S (request user_id model r.request_uri size) s in
      let sent = director gw w r in
      elim (w.upstream sent) [
        | cut_off status ↦ (stop (aborted sent status), logged)
        | finished answer ↦
            let used = parse_token_usage w.json_usage answer.body answer.content_type in
            (
              stop (proxied sent answer),
              account user_id model answer.status (length answer.body) used logged,
            )
      ]
