-- ===== src/Discovery.antt =====
-- core/management/discovery and core/management/metricsproxy: the running models, and the metrics of
-- one of them. Docker and the HTTP client are parameters.
use sovereignstack.Prelude.{
  ℕ, not, ◌&&◌, ◌||◌, ◌==◌, List, [], ◌∷◌, Option, none, some, Result, ok, err, ltb, length, take,
  map, is_empty, if◌then◌else◌,
}
use sovereignstack.Text.{Text, codes, text_eq, trim_prefix}
use sovereignstack.Text.Split.{split}
use sovereignstack.Dict.{Dict, get}
use sovereignstack.Gateway.ClientIp.{Method}
use sovereignstack.Policy.Users.{part, slash, is_get}

-- docker.RunningModel
pub record RunningModel : Type 0 where
  pub model_name : Text
  pub container_id : Text
  pub kind : Text
  pub status : Text
  pub port : ℕ

pub record ModelResponse : Type 0 where
  pub name : Text
  pub container_id : Text
  pub kind : Text
  pub status : Text
  pub port : ℕ

abbrev pub response_of : RunningModel → ModelResponse
response_of m = record {
  name = m.model_name;
  container_id = if ltb 12 (length m.container_id) then take 12 m.container_id else m.container_id;
  kind = m.kind;
  status = m.status;
  port = m.port;
}

-- the models and their count, or 500 where Docker cannot be asked
unfoldable pub handle_running_models : Option (List RunningModel) → Option (List ModelResponse × ℕ)
handle_running_models none = none
handle_running_models (some models) = let out = map response_of models in some (out, length out)

-- `ResolvePort` of DockerResolver: the port of a running model, if there is one
unfoldable pub find_port : Text → List RunningModel → Option ℕ
find_port name [] = none
find_port name (m ∷ models) =
    let later = find_port name models in
    if text_eq m.model_name name && text_eq m.status (codes "running") then some m.port else later

abbrev pub Resolver : Type 0
Resolver = Text → Result Text (Option ℕ)

unfoldable pub docker_resolver : Result Text (List RunningModel) → Resolver
unfolding find_port
docker_resolver (err x) name = err x
docker_resolver (ok models) name = ok (find_port name models)

unfoldable pub static_resolver : Dict ℕ → Resolver
static_resolver ports name = ok (get ports name)

-- the answer of a model: its status, content type and body
pub record Metrics : Type 0 where
  pub status : ℕ
  pub content_type : Text
  pub body : Text

pub data ProxyReply : Type 0 where
  unknown_endpoint method_not_allowed : ProxyReply
  resolver_failed : Text → ProxyReply
  not_running no_port bad_request bad_gateway : ProxyReply
  relayed : Metrics → ProxyReply

-- the upstream call on a port: the request is not made, or no answer comes, or one does
unfoldable pub relay : Result ProxyReply Metrics → ProxyReply
relay (err reply) = reply
relay (ok m) = relayed (record m {
  content_type =
      if is_empty m.content_type then codes "text/plain; version=0.0.4" else m.content_type;
})

unfoldable pub ask_model : (ℕ → Result ProxyReply Metrics) → Result Text (Option ℕ) → ProxyReply
unfolding relay
ask_model call (err x) = resolver_failed x
ask_model call (ok none) = not_running
ask_model call (ok (some port)) = if port == 0 then no_port else relay (call port)

unfoldable pub handle_metrics :
    Resolver → (ℕ → Result ProxyReply Metrics) → Method → Text → ProxyReply
unfolding ask_model
handle_metrics resolve call method path =
    let parts = split slash (trim_prefix path (codes "/")) in
    if ltb (length parts) 5 || not (text_eq (part parts 4) (codes "metrics"))
    then unknown_endpoint
    else if not (is_get method)
    then method_not_allowed
    else ask_model call (resolve (part parts 3))
