-- ===== src/Gateway/State.antt =====
-- The gateway of core/gateway/proxy.go: its parts, the state that a request changes, what it answers
-- and what it logs. A step of the handler stops with a reply or goes on with a value.
use sovereignstack.Prelude.{ℕ, Bool, List, ◌∷◌, Option, if◌then◌else◌}
use sovereignstack.Text.{Text}
use sovereignstack.Int64.{ℤ}
use sovereignstack.Float.{Float}
use sovereignstack.RateLimit.{Limits}
use sovereignstack.Admission.Controller.{Controller, Decision}
use sovereignstack.Router.{ModelBackend, Registry}
use sovereignstack.Keys.Profile.{UserProfile}
use sovereignstack.Quota.Backend.{QuotaBackend}
use sovereignstack.Quota.Manager.{QuotaError}
use sovereignstack.Gateway.Access.{AccessController, AuthProvider}
use sovereignstack.Gateway.Usage.{UsageDecoder}

-- *url.URL
pub record Url : Type 0 where
  pub scheme : Text
  pub host : Text
  pub path : Text
  pub raw_query : Text

-- the request that the proxy sends on
pub record Forwarded : Type 0 where
  pub url : Url
  pub header : Text → Text
  pub body : Option Text

pub record Response : Type 0 where
  pub status : ℕ
  pub content_type : Text
  pub body : Text

-- how the reverse proxy's ServeHTTP ends: the whole answer was copied, or copying its body failed
-- behind this status and ServeHTTP panics with http.ErrAbortHandler
pub data Exchange : Type 0 where
  finished : Response → Exchange
  cut_off : ℕ → Exchange

-- the calls of the audit logger, without the texts of the messages and the correlation id
pub data AuditEvent : Type 0 where
  -- what is shown of the key, the endpoint and the address
  auth_failure : Text → Text → Text → AuditEvent
  -- user, endpoint, status and address
  error : Text → Text → ℕ → Text → AuditEvent
  -- user, model, endpoint and size
  request : Text → Text → Text → ℕ → AuditEvent
  -- user, model, endpoint, status, size, input and output tokens
  response : Text → Text → Text → ℕ → ℕ → ℤ → ℤ → AuditEvent

pub data Metric : Type 0 where
  received auth_failed rate_limit_hit quota_exceeded : Metric
  access_denied shed : Text → Metric
  -- status, user and model
  completed : ℕ → Text → Text → Metric
  latency : Text → Metric
  tokens : Text → Text → ℤ → ℤ → Metric

module _ (fl : Float) (S : Type 0) where
  -- A nil component is `none`.
  pub record TokenQuotaManager : Type 0 where
    pub backend : QuotaBackend S
    pub get_by_id : Text → Option UserProfile

  pub record State : Type 0 where
    pub limits : Limits fl
    pub counters : S
    -- the latest first
    pub audit : List AuditEvent
    pub metrics : List Metric

  pub data Reply : Type 0 where
    unauthorized ip_forbidden rate_limited bad_body : Reply
    model_list : List ModelBackend → Reply
    -- the ports and the names
    prometheus_targets : List (ℕ × Text) → Reply
    metrics_missing metrics_internal metrics_unreachable : Reply
    metrics_relayed : Response → Reply
    access_refused : Text → Reply
    over_quota : QuotaError → Reply
    overloaded : Decision fl → Reply
    unsupported : Text → List Text → Reply
    not_deployed : Text → Reply
    proxied : Forwarded → Response → Reply
    -- the panic ends the connection behind this status
    aborted : Forwarded → ℕ → Reply

  -- What stands outside: the clock, encoding/json, net/url, the network.
  pub record World : Type 0 where
    pub now : ℕ
    pub minutes : ℕ → fl.F
    -- the "model" field of a JSON body, "" where it is missing; `none` where the text is no JSON
    pub json_model : Text → Option Text
    pub json_usage : UsageDecoder
    -- how many bytes the first Read of a body returns, of those asked for
    pub first_read : Text → ℕ
    pub parse_url : Text → Url
    pub upstream : Forwarded → Exchange
    -- a GET of a model's metrics: `none` where the model cannot be reached
    pub scrape : Text → Option Response
    -- whether http.NewRequest takes the metrics' address
    pub valid_url : Text → Bool
    -- the registry when the request is directed, after any refresh that ran meanwhile
    pub registry_later : Registry

  pub record Gateway : Type 0 where
    pub target_url : Url
    pub auth_provider : Option AuthProvider
    pub access_controller : Option AccessController
    pub quota_manager : Option TokenQuotaManager
    pub model_router : Option Registry
    pub admission_ctrl : Option (Controller fl)
    pub has_metrics : Bool
    pub requests_per_min : fl.F
    pub api_key_header : Text

module _ (fl : Float) (S : Type 0) where
  -- http.Error's and WriteHeader's status
  abbrev pub status_of : Reply fl S → ℕ
  status_of unauthorized = 401
  status_of ip_forbidden = 403
  status_of rate_limited = 429
  status_of bad_body = 400
  status_of (model_list models) = 200
  status_of (prometheus_targets targets) = 200
  status_of metrics_missing = 404
  status_of metrics_internal = 500
  status_of metrics_unreachable = 502
  status_of (metrics_relayed r) = r.status
  status_of (access_refused model) = 403
  status_of (over_quota e) = 429
  status_of (overloaded d) = 503
  status_of (unsupported model endpoints) = 404
  status_of (not_deployed model) = 404
  status_of (proxied f r) = r.status
  status_of (aborted f status) = status

  pub data Step (A : Type 0) : Type 0 where
    stop : Reply fl S → Step A
    go : A → Step A

  abbrev pub Handler : Type 0 → Type 0
  Handler A = State fl S → Step A × State fl S

  abbrev pub log_audit : AuditEvent → State fl S → State fl S
  log_audit e s = record s { audit = e ∷ s.audit }

  -- `if gw.Metrics != nil { … }`
  abbrev pub count : Gateway fl S → Metric → State fl S → State fl S
  count gw m s = if gw.has_metrics then record s { metrics = m ∷ s.metrics } else s

module _ {fl : Float} {S : Type 0} where
  abbrev pub continue :
      {A B : Type 0} → Step fl S A × State fl S → (A → Handler fl S B) → Step fl S B × State fl S
  continue (stop r, s) f = (stop r, s)
  continue (go a, s) f = f a s

  infixl 5 ◌>>=◌ ◌>>◌
  abbrev pub ◌>>=◌ : {A B : Type 0} → Handler fl S A → (A → Handler fl S B) → Handler fl S B
  ◌>>=◌ m f s = continue (m s) f

  abbrev pub ◌>>◌ : {B : Type 0} → Handler fl S (Unit {0}) → Handler fl S B → Handler fl S B
  m >> k = m >>= λ u. k
