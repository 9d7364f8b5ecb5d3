-- ===== src/Gateway/Stages/Passing.antt =====
-- What each step of the handler requires of a request that it lets go on.
use sovereignstack.Prelude.{
  ℕ, ◌≡◌, refl, Bool, true, false, not, ◌&&◌, ◌⊎◌, inl, inr, Option, none, some, arith,
  if◌then◌else◌, is_empty, length, [], Option-cases, Bool-cases, ok,
}
use sovereignstack.Text.{Text, codes}
use sovereignstack.Text.Trim.{has_suffix}
use sovereignstack.Float.{Float}
use sovereignstack.RateLimit
use sovereignstack.RateLimit.{Limits}
use sovereignstack.Admission.Controller as Admission
use sovereignstack.Admission.Controller.{Controller}
use sovereignstack.Router.{ModelBackend, Registry, get_backend, is_path_supported}
use sovereignstack.Quota.Manager.{check_quota}
use sovereignstack.Gateway.Access.{AccessController, AuthProvider}
use sovereignstack.Gateway.ClientIp.{Request, get_client_ip}
use sovereignstack.Gateway.Paths.{extract_model_name_from_path, strip_model_prefix_from_path}
use sovereignstack.Gateway.State.{
  State, proxied, aborted, metrics_relayed, metrics_unreachable, World, Gateway, TokenQuotaManager,
  Step, stop, go, Handler, ◌>>=◌,
}
use sovereignstack.Gateway.Stages.{
  api_key_of, authenticate, is_denied, is_get, serve_special, serve_model_metrics, check_source_ip,
  check_access, check_token_quota, check_rate_limit, check_admission, check_capability, read_body,
}

module _ {fl : Float} {S : Type 0} where
  -- A backend was contacted: for the request itself, or for the metrics of a model.
  abbrev pub sent : {A : Type 0} → Step fl S A × State fl S → Bool
  sent (stop (proxied f a), s) = true
  sent (stop (aborted f status), s) = true
  sent (stop (metrics_relayed a), s) = true
  sent (stop metrics_unreachable, s) = true
  sent (stop _, s) = false
  sent (go a, s) = false

-- The user that a request counts as: the one its key belongs to, or nobody where no provider is set
-- or no key is sent.
abbrev pub Identifies : Option AuthProvider → Text → Text → Type 0
Identifies none api_key user_id = user_id ≡ []
Identifies (some validate_token) api_key user_id =
    ((is_empty api_key ≡ true) × (user_id ≡ [])) ⊎ (validate_token api_key ≡ some user_id)

abbrev pub source_refused : Option AccessController → Text → Text → Bool
source_refused none user_id ip = false
source_refused (some c) user_id ip = elim c.is_source_ip_allowed [
  | none ↦ false
  | some allowed ↦ not (is_empty user_id) && not (allowed user_id ip)
]

module _ {fl : Float} {S : Type 0} where
  abbrev pub WithinQuota : Option (TokenQuotaManager fl S) → Text → S → Type 0
  WithinQuota none user_id counters = Unit
  WithinQuota (some m) user_id counters =
      (is_empty user_id ≡ true) ⊎ (check_quota m.backend m.get_by_id user_id counters ≡ ok tt)

  -- the limits behind the rate check, and whether it granted the request
  abbrev pub rate : Gateway fl S → World fl S → Text → Limits fl → Limits fl × Bool
  rate gw w user_id limits =
      if fl.lt (fl.of_ℕ 0) gw.requests_per_min
      then RateLimit.allow fl w.minutes w.now user_id gw.requests_per_min limits
      else (limits, true)

module _ {fl : Float} where
  abbrev pub shed_now : Option (Controller fl) → Text → ℕ → Bool
  shed_now none model now = false
  shed_now (some c) model now = not (Admission.allow fl model now c).allowed

-- The model that the path names is deployed and serves the path.
abbrev pub CanServe : Option Registry → Text → Type 0
CanServe none path = Unit
CanServe (some registry) path =
    let name = extract_model_name_from_path path in
    (is_empty name ≡ true)
    ⊎ ((b : ModelBackend) × (get_backend registry name ≡ some b)
        × (is_path_supported b (strip_model_prefix_from_path path name) ≡ true))

-- A scrape: GET of a path that names a deployed model and ends in /metrics.
pub record IsScrape (router : Option Registry) (r : Request) : Type 0 where
  pub asks : is_get r.method ≡ true
  pub ends : has_suffix r.path (codes "/metrics") ≡ true
  pub named : is_empty (extract_model_name_from_path r.path) ≡ false
  pub deployed :
      (registry : Registry) × (router ≡ some registry)
      × ((b : ModelBackend) × (get_backend registry (extract_model_name_from_path r.path) ≡ some b))

module _ {fl : Float} {S : Type 0} (gw : Gateway fl S) (w : World fl S) (r : Request)
    (s : State fl S) (user_id : Text) where
  pub authenticate-sent :
      (f : Text → Handler fl S (Unit {0}))
      → sent ((authenticate gw w r >>= f) s) ≡ true
      → (user : Text) × Identifies gw.auth_provider (api_key_of gw.api_key_header r) user
        × (sent (f user s) ≡ true)
  unfolding authenticate
  authenticate-sent f h = elim (Option-cases gw.auth_provider) [
    | inl off ↦ ([], ground arith, ground arith)
    | inr (validate, on) ↦
        let key = api_key_of gw.api_key_header r in
        elim (Bool-cases (is_empty key)) [
          | inl keyless ↦ ([], rw on (inl (keyless, refl)), ground arith)
          | inr keyed ↦ elim (Option-cases (validate key)) [
            | inl invalid ↦ absurd (ground arith)
            | inr (user, valid) ↦ (user, rw on (inr valid), ground arith)
          ]
        ]
  ]

  module _ (f : Unit {0} → Handler fl S (Unit {0})) where
    pub serve_special-sent :
        sent ((serve_special gw w r user_id >>= f) s) ≡ true
        → (sent (f tt s) ≡ true) ⊎ IsScrape gw.model_router r
    unfolding serve_special serve_model_metrics
    serve_special-sent h =
        let name = extract_model_name_from_path r.path in
        let metrics = not (is_empty name) && has_suffix r.path (codes "/metrics") in
        elim (Option-cases gw.model_router) [
          | inl off ↦ inl (ground arith)
          | inr (registry, on) ↦ elim (Bool-cases (is_get r.method && metrics)) [
            | inr other ↦ inl (ground arith)
            | inl scraping ↦ elim (Option-cases (get_backend registry name)) [
              | inl missing ↦ absurd (ground arith)
              | inr (b, found) ↦ inr (record {
                asks = ground arith;
                ends = ground arith;
                named = ground arith;
                deployed = (registry, on, (b, found));
              })
            ]
          ]
        ]

    pub check_source_ip-sent :
        sent ((check_source_ip gw w r user_id >>= f) s) ≡ true
        → (source_refused gw.access_controller user_id (get_client_ip r) ≡ false)
          × (sent (f tt s) ≡ true)
    unfolding check_source_ip
    check_source_ip-sent h = ground arith

    pub check_access-sent :
        (model : Text)
        → sent ((check_access gw w r user_id model >>= f) s) ≡ true
        → (is_denied gw.access_controller user_id model ≡ false) × (sent (f tt s) ≡ true)
    unfolding check_access
    check_access-sent model h = ground arith

    pub check_token_quota-sent :
        sent ((check_token_quota gw w r user_id >>= f) s) ≡ true
        → WithinQuota gw.quota_manager user_id s.counters × (sent (f tt s) ≡ true)
    unfolding check_token_quota
    check_token_quota-sent h = elim (Option-cases gw.quota_manager) [
      | inl off ↦ (rw off tt, ground arith)
      | inr (m, on) ↦ (rw on (ground arith), ground arith)
    ]

    pub check_rate_limit-sent :
        sent ((check_rate_limit gw w r user_id >>= f) s) ≡ true
        → ((rate gw w user_id s.limits).1 ≡ true)
          × (sent (f tt (record s { limits = (rate gw w user_id s.limits).0 })) ≡ true)
    unfolding check_rate_limit
    check_rate_limit-sent h = ground arith

    pub check_admission-sent :
        (model : Text)
        → sent ((check_admission gw w r user_id model >>= f) s) ≡ true
        → (shed_now gw.admission_ctrl model w.now ≡ false) × (sent (f tt s) ≡ true)
    unfolding check_admission
    check_admission-sent model h = ground arith

    pub check_capability-sent :
        sent ((check_capability gw w r user_id >>= f) s) ≡ true
        → CanServe gw.model_router r.path × (sent (f tt s) ≡ true)
    unfolding check_capability
    check_capability-sent h = elim (Option-cases gw.model_router) [
      | inl off ↦ (rw off tt, ground arith)
      | inr (registry, on) ↦
          let name = extract_model_name_from_path r.path in
          elim (Bool-cases (is_empty name)) [
            | inl unrouted ↦ (rw on (inl unrouted), ground arith)
            | inr routed ↦ elim (Option-cases (get_backend registry name)) [
              | inl missing ↦ absurd (ground arith)
              | inr (b, found) ↦ (rw on (inr (b, found, ground arith)), ground arith)
            ]
          ]
    ]

  pub read_body-sent :
      (f : ℕ → Handler fl S (Unit {0}))
      → sent ((read_body gw w r user_id >>= f) s) ≡ true
      → (size : ℕ) × (sent (f size s) ≡ true)
  unfolding read_body
  read_body-sent f h = elim (Option-cases r.body) [
    | inl empty ↦ (0, ground arith)
    | inr (body, held) ↦ (length body, ground arith)
  ]
