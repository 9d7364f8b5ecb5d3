-- ===== src/Gateway/Examples.antt =====
-- The theorems of the gateway at concrete inputs.
use sovereignstack.Prelude.{◌≡◌, ◌⊎◌, refl, true, ◌∷◌, [], some, none, All, if◌then◌else◌}
use sovereignstack.Text.{Text, codes, text_eq, has_prefix}
use sovereignstack.Text.Split.{join}
use sovereignstack.Text.Trim.{trim_left, trim_back, skip_spaces, space_length, space_length_back}
use sovereignstack.Dict.{get}
use sovereignstack.Float.Fixed.{fixed}
use sovereignstack.RateLimit as RateLimit
use sovereignstack.Quota.Memory.{MemoryQuotaBackend, new_memory_quota_backend}
use sovereignstack.Keys.Store.{KeyStore}
use sovereignstack.Gateway.Access.{allow_all_access_controller}
use sovereignstack.Gateway.ClientIp.{Request, Method, get_client_ip}
use sovereignstack.Gateway.Header.{canonical}
use sovereignstack.Gateway.ClientIp.Spoof.{get_client_ip-forwarded}
use sovereignstack.Gateway.Paths.{single_joining_slash, slash, extract_model_name_from_path}
use sovereignstack.Gateway.Paths.Extract.{IsPlain, routed, extract_model_name_from_path-routed}
use sovereignstack.Gateway.Director.{extract_model_name, director, route}
use sovereignstack.Gateway.Director.Forwarding.{header-director, path-director}
use sovereignstack.Gateway.State.{Url, finished, State, World, Gateway}
use sovereignstack.Gateway.Stages.{
  api_key_of, authenticate, serve_special, check_source_ip, check_access, check_token_quota,
  check_rate_limit, check_admission, check_capability, read_body, forward,
}
use sovereignstack.Gateway.Stages.Passing.{sent, Identifies, IsScrape}
use sovereignstack.Gateway.Serve.{serve_http, guarded}
use sovereignstack.Gateway.Serve.Safety.{Cleared, serve_http-Cleared}

api-IsPlain : All IsPlain (codes "api" ∷ [])
unfolding text_eq
api-IsPlain = ((((refl, (refl, (refl, tt))), refl)), tt)

extract_model_name_from_path-routed_example :
    extract_model_name_from_path (
      slash ∷ join slash (routed (codes "api" ∷ []) (codes "phi") (codes "v1") (codes "chat" ∷ [])))
    ≡ codes "phi"
extract_model_name_from_path-routed_example =
    extract_model_name_from_path-routed (codes "api" ∷ []) (codes "phi") (codes "v1")
      (codes "chat" ∷ []) api-IsPlain refl (refl, (refl, (refl, tt)))
      ((refl, (refl, tt)), ((refl, (refl, (refl, (refl, tt)))), tt))

abbrev target : Url
target = record {
  scheme = codes "http";
  host = codes "vllm:8000";
  path = codes "/";
  raw_query = [];
}

abbrev post_request : Request
post_request = record {
  method = Method.post;
  path = codes "/v1/chat";
  raw_query = [];
  host = codes "gw";
  request_uri = codes "/v1/chat";
  remote_addr = codes "203.0.113.9:5000";
  header = λ h.
      if text_eq h (codes "X-API-Key")
      then codes "sk-1"
      else if text_eq h (codes "X-Forwarded-For")
      then codes " 10.0.0.1 , 10.0.0.9"
      else [];
  body = some (codes "{}");
  readable = true;
}

get_client_ip-forwarded_example : get_client_ip post_request ≡ codes "10.0.0.1"
get_client_ip-forwarded_example =
    get_client_ip-forwarded post_request 1 1 (codes "10.0.0.1") (some (codes " 10.0.0.9"))
      (unfold text_eq in refl) refl
      (refl, (refl, (refl, (refl, (refl, (refl, (refl, (refl, tt))))))))
      (unfold trim_left trim_back skip_spaces space_length space_length_back in (refl, refl))

abbrev gateway : Gateway fixed MemoryQuotaBackend
gateway = record {
  target_url = target;
  auth_provider = some (λ key. if text_eq key (codes "sk-1") then some (codes "bob") else none);
  access_controller = some allow_all_access_controller;
  quota_manager = none;
  model_router = none;
  admission_ctrl = none;
  has_metrics = true;
  requests_per_min = 60000;
  api_key_header = codes "X-API-Key";
}

abbrev world : World fixed MemoryQuotaBackend
world = record {
  now = 7;
  minutes = λ d. 0;
  json_model = λ t. none;
  json_usage = λ t. none;
  first_read = λ t. 512;
  parse_url = λ t. target;
  upstream = λ f. finished (record { status = 200; content_type = []; body = codes "hi" });
  scrape = λ t. none;
  valid_url = λ t. true;
  registry_later = [];
}

abbrev start : State fixed MemoryQuotaBackend
start = record { limits = []; counters = new_memory_quota_backend; audit = []; metrics = [] }

reaches_backend : sent (serve_http gateway world post_request start) ≡ true
unfolding serve_http guarded authenticate api_key_of serve_special check_source_ip check_access
    check_token_quota check_rate_limit check_admission check_capability read_body forward text_eq
    has_prefix RateLimit.allow RateLimit.refill RateLimit.take_token get
reaches_backend = refl

serve_http-Cleared_example :
    (user_id : Text) × Identifies gateway.auth_provider
      (api_key_of (codes "X-API-Key") post_request)
      user_id
    × (Cleared gateway world post_request user_id (extract_model_name world post_request) start
        ⊎ IsScrape gateway.model_router post_request)
serve_http-Cleared_example = serve_http-Cleared gateway world post_request start reaches_backend

abbrev empty_store : KeyStore
empty_store = record {
  users = [];
  master_key = [];
  io = record { disk = record { keys_file = none; temp_file = none }; history = [] };
}

header-director_example : (director gateway world post_request).header (codes "Authorization") ≡ (
    if text_eq (canonical (codes "Authorization")) (canonical gateway.api_key_header)
    then []
    else post_request.header (codes "Authorization"))
header-director_example =
    header-director gateway world post_request (codes "Authorization")
      (unfold text_eq canonical in refl) (unfold text_eq canonical in refl)
      (unfold text_eq canonical in refl)

-- a gateway with a registry, and a request that is routed by its path
abbrev routing : Gateway fixed MemoryQuotaBackend
routing = record gateway { model_router = some [] }

abbrev routed_request : Request
routed_request = record post_request {
  path = slash ∷ join slash (routed [] (codes "phi") (codes "v1") []);
}

path-director_example :
    (director routing world routed_request).url.path
    ≡ single_joining_slash
        (route routing world routed_request.path).0.path
        (slash ∷ join slash (codes "v1" ∷ []))
path-director_example =
    path-director routing world routed_request [] [] (codes "phi") (codes "v1") [] refl refl tt refl
      (refl, (refl, (refl, tt))) ((refl, (refl, tt)), tt)
