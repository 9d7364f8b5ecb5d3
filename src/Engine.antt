-- ===== src/Engine.antt =====
-- core/engine: which models run (orchestrator.go) and the file that remembers them (persistence.go).
-- Docker, the JSON encoding and the clock are parameters; a model's background check is a step of its
-- own.
pub mod Persistence
mod Examples
use sovereignstack.Prelude.{
  ℕ, Bool, true, false, not, ◌&&◌, List, [], ◌∷◌, Option, none, some, Result, ok, err, any,
  is_empty, if◌then◌else◌,
}
use sovereignstack.Text.{Text, codes, text_eq}
use sovereignstack.Int64.{ℤ, pos}
use sovereignstack.Dict.{Dict, get, put, remove}
use sovereignstack.Models.{ModelMetadata, quantization_none}
use sovereignstack.Models.Manager.{Manager, ManagerError, get_model, get_model_path, validate_model}
use sovereignstack.Models.Quantization.{suggest_quantization, analyze_model_fit, ModelFitAnalysis}

pub record ModelInstance : Type 0 where
  pub id : Text
  pub model_name : Text
  pub quantization : Text
  pub container_id : Text
  pub started_at : ℕ
  pub gpu_index : ℕ
  pub vram_used : ℤ
  pub is_healthy : Bool
  pub last_health_check : ℕ

pub record RunningModelRecord : Type 0 where
  pub model_name : Text
  pub container_id : Text
  pub quantization : Text
  pub started_at : ℕ
  pub is_healthy : Bool
  pub last_health_check : ℕ

-- json.MarshalIndent and json.Unmarshal on the records
pub record Json : Type 0 where
  pub marshal : List RunningModelRecord → Option Text
  pub unmarshal : Text → Option (List RunningModelRecord)

abbrev pub record_of : ModelInstance → RunningModelRecord
record_of i = record {
  model_name = i.model_name;
  container_id = i.container_id;
  quantization = i.quantization;
  started_at = i.started_at;
  is_healthy = i.is_healthy;
  last_health_check = i.last_health_check;
}

abbrev pub instance_of : RunningModelRecord → ModelInstance
instance_of r = record {
  id = r.container_id;
  model_name = r.model_name;
  quantization = r.quantization;
  container_id = r.container_id;
  started_at = r.started_at;
  gpu_index = 0;
  vram_used = pos 0;
  is_healthy = r.is_healthy;
  last_health_check = r.last_health_check;
}

abbrev pub records_of : Dict ModelInstance → List RunningModelRecord
records_of [] = []
records_of ((name, model) ∷ models) = record_of model ∷ records_of models

-- How os.WriteFile ends: complete, failed with this left in the file that it had truncated, or failed
-- before it opened the file.
pub data WriteEnd : Type 0 where
  complete : WriteEnd
  torn : Text → WriteEnd
  unopened : WriteEnd

-- `saveRunningModels`: whether it succeeded, and the new content of running_models.json
unfoldable pub save_running_models :
    Json → WriteEnd → Dict ModelInstance → Option Text → Bool × Option Text
save_running_models j writes models file = elim (j.marshal (records_of models)) [
  | none ↦ (false, file)
  | some content ↦ elim writes [
    | complete ↦ (true, some content)
    | torn left ↦ (false, some left)
    | unopened ↦ (false, file)
  ]
]

-- the loop over the records
abbrev pub add_records : List RunningModelRecord → Dict ModelInstance → Dict ModelInstance
add_records [] models = models
add_records (r ∷ records) models = add_records records (put models r.model_name (instance_of r))

abbrev pub models_of : Option (List RunningModelRecord) → Dict ModelInstance
models_of none = []
models_of (some records) = add_records records []

unfoldable pub load_running_models : Json → Option Text → Dict ModelInstance
load_running_models j none = []
load_running_models j (some content) = models_of (j.unmarshal content)

-- a container as Docker lists it
pub record DockerModel : Type 0 where
  pub model_name : Text
  pub container_id : Text
  pub is_running : Bool

-- Docker and the clock in one call: the containers, the container that a start returns, whether a stop
-- works; how the write of running_models.json ends; and the path of the model's files.
pub record Outside : Type 0 where
  pub now : ℕ
  pub listed : Option (List DockerModel)
  pub started : Option Text
  pub stops : Bool
  pub writes : WriteEnd
  pub local_path : Text

-- EngineRoom, with the file that it shares with the next process; an engine is known by its model
pub record EngineRoom : Type 0 where
  pub manager : Manager
  pub available_vram : ℤ
  pub engines : Dict (Unit {0})
  pub running_models : Dict ModelInstance
  pub saved : Option Text

pub data EngineError : Type 0 where
  invalid_model : ManagerError → EngineError
  does_not_fit already_running start_failed query_failed not_running stop_failed : EngineError

unfoldable pub new_engine_room : Json → Manager → ℤ → Option Text → EngineRoom
new_engine_room j manager available saved = record {
  manager = manager;
  available_vram = available;
  engines = [];
  running_models = load_running_models j saved;
  saved = saved;
}

-- whether a container of the model is listed as running
abbrev pub is_up : Text → Option (List DockerModel) → Bool
is_up name none = false
is_up name (some listed) = any (λ m. text_eq m.model_name name && m.is_running) listed

-- what stands behind the start of the container
unfoldable pub register : Json → Outside → Text → Text → Text → EngineRoom → EngineRoom
register j out name quant container er =
    let running = put er.running_models name (record {
      id = container;
      model_name = name;
      quantization = quant;
      container_id = container;
      started_at = out.now;
      gpu_index = 0;
      vram_used = pos 0;
      is_healthy = false;
      last_health_check = out.now;
    }) in
    record er {
      engines = put er.engines name tt;
      running_models = running;
      saved = (save_running_models j out.writes running er.saved).1;
    }

abbrev pub asked_or_suggested : (ℤ → ℤ) → ℤ → ModelMetadata → Option Text → Option Text
asked_or_suggested overhead available metadata (some quant) = some quant
asked_or_suggested overhead available metadata none =
    suggest_quantization overhead available metadata

unfoldable pub deploy :
    Json
    → (ℤ → ℤ)
    → Outside
    → Text
    → Option Text
    → EngineRoom
    → Result EngineError (Unit {0}) × EngineRoom
unfolding register
deploy j overhead out name asked er = elim (validate_model er.manager name) [
  | err x ↦ (err (invalid_model x), er)
  | ok valid ↦ elim (get_model er.manager name) [
    | none ↦ (err (invalid_model ManagerError.unknown_model), er)
    | some metadata ↦ elim (asked_or_suggested overhead er.available_vram metadata asked) [
      | none ↦ (err does_not_fit, er)
      | some quant ↦ elim (get_model_path out.local_path er.manager name) [
        | err x ↦ (err (invalid_model x), er)
        | ok path ↦ if is_up name out.listed then (err already_running, er) else elim out.started [
          | none ↦ (err start_failed, er)
          | some container ↦ (ok tt, register j out name quant container er)
        ]
      ]
    ]
  ]
]

-- one success of the background check
unfoldable pub health_passed : Json → Outside → Text → EngineRoom → EngineRoom
health_passed j out name er = elim (get er.running_models name) [
  | none ↦ er
  | some model ↦
      let running =
        put er.running_models name
          (record model { is_healthy = true; last_health_check = out.now }) in
      record er {
        running_models = running;
        saved = (save_running_models j out.writes running er.saved).1;
      }
]

-- the container of a model, "" where there is none
abbrev pub container_of : Text → List DockerModel → Text
container_of name [] = []
container_of name (m ∷ listed) =
    let later = container_of name listed in
    if text_eq m.model_name name then m.container_id else later

unfoldable pub stop_model : Outside → Text → EngineRoom → Result EngineError (Unit {0}) × EngineRoom
stop_model out name er = elim out.listed [
  | none ↦ (err query_failed, er)
  | some listed ↦
      if is_empty (container_of name listed)
      then (err not_running, er)
      else if not out.stops
      then (err stop_failed, er)
      else (
        ok tt,
        record er {
          engines = remove er.engines name;
          running_models = remove er.running_models name;
        },
      )
]

-- the running containers, by model
abbrev pub add_running : ℕ → List DockerModel → Dict ModelInstance → Dict ModelInstance
add_running now [] models = models
add_running now (m ∷ listed) models = add_running now listed (
    if m.is_running
    then put models m.model_name (record {
      id = m.container_id;
      model_name = m.model_name;
      quantization = [];
      container_id = m.container_id;
      started_at = now;
      gpu_index = 0;
      vram_used = pos 0;
      is_healthy = true;
      last_health_check = now;
    })
    else models)

abbrev pub listed_or : Dict ModelInstance → ℕ → Option (List DockerModel) → Dict ModelInstance
listed_or known now none = known
listed_or known now (some listed) = add_running now listed []

unfoldable pub get_running_models : Outside → EngineRoom → Dict ModelInstance
get_running_models out er = listed_or er.running_models out.now out.listed
