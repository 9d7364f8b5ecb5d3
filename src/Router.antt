-- ===== src/Router.antt =====
-- core/gateway/router.go: the registry of running models. The HTTP requests to the management
-- service and to each model are parameters: a refresh takes what they returned.
pub mod Refresh
use sovereignstack.Prelude.{
  ℕ, Bool, true, false, List, [], ◌∷◌, ◌++◌, Option, none, some, ◌==◌, if◌then◌else◌, is_empty, any,
  length, Result, ok, err,
}
use sovereignstack.Text.{Text, codes, text_eq}
use sovereignstack.Dict.{Dict, get, put}

pub record ModelBackend : Type 0 where
  pub name : Text
  pub url : Text
  pub port : ℕ
  pub kind : Text
  pub status : Text
  pub capability : Text
  pub endpoints : List Text

abbrev pub Registry : Type 0
Registry = Dict ModelBackend

-- one entry of the management service's answer
pub record RunningModel : Type 0 where
  pub model_name : Text
  pub container_id : Text
  pub kind : Text
  pub status : Text
  pub port : ℕ

-- what the management service answered: no connection, a status, and the decoded models where the
-- body could be decoded
pub data ModelsAnswer : Type 0 where
  unreachable : ModelsAnswer
  answered : ℕ → Option (List RunningModel) → ModelsAnswer

-- what a model's own /v1/models answered, in the same way: the capabilities and the endpoints
pub data CapabilityAnswer : Type 0 where
  unreachable : CapabilityAnswer
  answered : ℕ → Option (List (Text × List Text)) → CapabilityAnswer

pub data RefreshError : Type 0 where
  fetch_failed decode_failed : RefreshError
  bad_status : ℕ → RefreshError

abbrev pub status_ok : ℕ
status_ok = 200

-- the first entry of the decoded data, if there is one
abbrev enrich : ModelBackend → Option (List (Text × List Text)) → ModelBackend
enrich b none = b
enrich b (some []) = b
enrich b (some ((capability, endpoints) ∷ more)) = record b {
  capability = capability;
  endpoints = endpoints;
}

unfoldable pub fetch_capability : CapabilityAnswer → ModelBackend → ModelBackend
fetch_capability CapabilityAnswer.unreachable b = b
fetch_capability (CapabilityAnswer.answered status decoded) b =
    if status == status_ok then enrich b decoded else b

-- `fmt.Sprintf("http://localhost:%d", m.Port)`, with the port printed by `decimal`
unfoldable pub new_backend : (ℕ → Text) → RunningModel → ModelBackend
new_backend decimal m = record {
  name = m.model_name;
  url = codes "http://localhost:" ++ decimal m.port;
  port = m.port;
  kind = m.kind;
  status = m.status;
  capability = [];
  endpoints = [];
}

abbrev pub running : Text
running = codes "running"

-- the loop of `refresh`
unfoldable pub build_registry :
    (ℕ → Text) → (ModelBackend → CapabilityAnswer) → List RunningModel → Registry → Registry
build_registry decimal query [] registry = registry
build_registry decimal query (m ∷ models) registry =
    let b = new_backend decimal m in
    build_registry decimal query models (
      if text_eq m.status running
      then put registry m.model_name (fetch_capability (query b) b)
      else registry)

unfoldable pub refresh :
    (ℕ → Text)
    → (ModelBackend → CapabilityAnswer)
    → ModelsAnswer
    → Registry
    → Result RefreshError (Unit {0}) × Registry
refresh decimal query ModelsAnswer.unreachable registry = (err fetch_failed, registry)
refresh decimal query (ModelsAnswer.answered status decoded) registry =
    if status == status_ok
    then elim decoded [
      | none ↦ (err decode_failed, registry)
      | some models ↦ (ok tt, build_registry decimal query models [])
    ]
    else (err (bad_status status), registry)

unfoldable pub is_path_supported : ModelBackend → Text → Bool
is_path_supported b stripped_path =
    if text_eq stripped_path (codes "/v1/models")
    then true
    else if is_empty b.endpoints
    then true
    else any (λ e. text_eq e stripped_path) b.endpoints

abbrev pub get_backend : Registry → Text → Option ModelBackend
get_backend registry model_name = get registry model_name

unfoldable pub list_models : Registry → List ModelBackend
list_models [] = []
list_models ((k, b) ∷ registry) = b ∷ list_models registry

abbrev pub get_model_count : Registry → ℕ
get_model_count registry = length registry
