-- ===== src/Engine/Examples.antt =====
-- The theorems of the engine at concrete inputs.
use sovereignstack.Prelude.{
  ℕ, zero, suc, ◌≡◌, refl, ap, sym, Bool, true, false, List, [], ◌∷◌, ◌++◌, Option, none, some,
  length, take, drop,
}
use sovereignstack.Text.{Text, codes, text_eq}
use sovereignstack.Int64.{pos}
use sovereignstack.Dict.{Dict, get}
use sovereignstack.Engine.{
  ModelInstance, RunningModelRecord, Json, records_of, save_running_models, load_running_models,
  EngineRoom, Outside, stop_model, complete, new_engine_room,
}
use sovereignstack.Engine.Persistence.{JsonLaws, load_running_models-save, stop_model-reloads}

-- Phi in one container, as a deployment records it.
abbrev phi : ModelInstance
phi = record {
  id = codes "c1";
  model_name = codes "phi";
  quantization = codes "awq";
  container_id = codes "c1";
  started_at = 3;
  gpu_index = 0;
  vram_used = pos 0;
  is_healthy = false;
  last_health_check = 3;
}

abbrev phi_runs : Dict ModelInstance
phi_runs = (codes "phi", phi) ∷ []

-- An encoding of one record, or of none: the numbers, the lengths of two texts, and the three texts.
abbrev of_bool : Bool → ℕ
of_bool true = 1
of_bool false = 0

abbrev to_bool : ℕ → Bool
to_bool zero = false
to_bool (suc n) = true

abbrev encode : List RunningModelRecord → Option Text
encode [] = some []
encode (r ∷ []) = some (
    r.started_at
    ∷ of_bool r.is_healthy
    ∷ r.last_health_check
    ∷ length r.model_name
    ∷ length r.container_id
    ∷ (r.model_name ++ (r.container_id ++ r.quantization)))
encode (r ∷ q ∷ records) = none

abbrev decode : Text → Option (List RunningModelRecord)
decode [] = some []
decode (started ∷ healthy ∷ checked ∷ n ∷ m ∷ t) = some (
    record {
      model_name = take n t;
      container_id = take m (drop n t);
      quantization = drop m (drop n t);
      started_at = started;
      is_healthy = to_bool healthy;
      last_health_check = checked;
    }
    ∷ [])
decode t = none

take-append : (a b : Text) → take (length a) (a ++ b) ≡ a
take-append [] b = refl
take-append (x ∷ a) b = ap (λ t. x ∷ t) (take-append a b)

drop-append : (a b : Text) → drop (length a) (a ++ b) ≡ b
drop-append [] b = refl
drop-append (x ∷ a) b = drop-append a b

to_bool-of_bool : (b : Bool) → to_bool (of_bool b) ≡ b
to_bool-of_bool true = refl
to_bool-of_bool false = refl

decode-encode :
    (records : List RunningModelRecord) (content : Text)
    → encode records ≡ some content
    → decode content ≡ some records
decode-encode [] content h = let same : [] ≡ content = cc in rw (sym same) refl
decode-encode (r ∷ []) content h =
    let rest = r.container_id ++ r.quantization in
    let same : (r.started_at
          ∷ of_bool r.is_healthy
          ∷ r.last_health_check
          ∷ length r.model_name
          ∷ length r.container_id
          ∷ (r.model_name ++ rest))
        ≡ content =
      cc in
    rw
      (
        sym same,
        drop-append r.model_name rest,
        take-append r.model_name rest,
        take-append r.container_id r.quantization,
        drop-append r.container_id r.quantization,
        to_bool-of_bool r.is_healthy,
      )
      refl
decode-encode (r ∷ q ∷ records) content h = cc

abbrev toy_json : Json
toy_json = record { marshal = encode; unmarshal = decode }

toy_json-JsonLaws : JsonLaws toy_json
toy_json-JsonLaws = record { unmarshal-marshal = decode-encode }

load_running_models-save_example :
    get
      (load_running_models toy_json (save_running_models toy_json complete phi_runs none).1)
      (codes "phi")
    ≡ get phi_runs (codes "phi")
load_running_models-save_example =
    load_running_models-save toy_json toy_json-JsonLaws phi_runs none (codes "phi")
      (record { named = refl; identified = refl; first_gpu = refl; unmeasured = refl }, tt)
      (unfold get in refl, tt) (unfold save_running_models in refl)

abbrev engine : EngineRoom
engine = record {
  manager = record { models = []; models_meta = []; cache = [] };
  available_vram = pos 0;
  engines = [];
  running_models = phi_runs;
  saved = encode (records_of phi_runs);
}

abbrev docker : Outside
docker = record {
  now = 9;
  listed =
      some (record { model_name = codes "phi"; container_id = codes "c1"; is_running = true } ∷ []);
  started = none;
  stops = true;
  writes = complete;
  local_path = codes "/models/phi";
}

stop_model-reloads_example :
    (get (stop_model docker (codes "phi") engine).1.running_models (codes "phi") ≡ none)
    × (get
          (new_engine_room toy_json engine.manager
            (pos 0)
            (stop_model docker (codes "phi") engine).1.saved).running_models
          (codes "phi")
        ≡ get phi_runs (codes "phi"))
stop_model-reloads_example =
    stop_model-reloads toy_json toy_json-JsonLaws docker (codes "phi") engine none engine.manager
      (pos 0) (record { named = refl; identified = refl; first_gpu = refl; unmeasured = refl }, tt)
      (unfold get in refl, tt) (unfold save_running_models in refl)
      (unfold save_running_models in refl) (unfold stop_model text_eq in refl)
