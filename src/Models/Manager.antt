-- ===== src/Models/Manager.antt =====
-- core/model/manager.go: the registry of known models and the directory of cached ones. A model's
-- directory is its files in the order of filepath.Walk, each with its path.
use sovereignstack.Prelude.{
  Bool, false, not, ◌||◌, List, [], ◌∷◌, Option, none, some, any, if◌then◌else◌, Result, ok, err,
}
use sovereignstack.Text.{Text, codes, text_eq}
use sovereignstack.Text.Trim.{has_suffix}
use sovereignstack.Int64.{ℤ, leb_ℤ}
use sovereignstack.Dict.{Dict, get, put, remove}
use sovereignstack.Models.{ModelMetadata}
use sovereignstack.Models.Safetensors.{ModelFile, SafetensorsError, validate_safetensors_file}

abbrev pub ModelDir : Type 0
ModelDir = List (Text × ModelFile)

-- `models` is the registry in memory, by name only; `cache` the directories below `cacheDir`.
pub record Manager : Type 0 where
  pub models : Dict (Unit {0})
  pub models_meta : Dict ModelMetadata
  pub cache : Dict ModelDir

pub data ManagerError : Type 0 where
  unknown_model not_cached no_model_files : ManagerError
  corrupt : Text → SafetensorsError → ManagerError
  io_failed : ManagerError

unfoldable pub get_model : Manager → Text → Option ModelMetadata
get_model m name = get m.models_meta name

abbrev pub is_safetensors : Text → Bool
is_safetensors path = has_suffix path (codes ".safetensors")

abbrev pub is_model_file : Text → Bool
is_model_file path = is_safetensors path || has_suffix path (codes ".bin")

-- the walk over the safetensors files, up to the first that is corrupt
unfoldable pub check_files : ModelDir → Result ManagerError (Unit {0})
check_files [] = ok tt
check_files ((path, file) ∷ files) =
    let rest = check_files files in
    if not (is_safetensors path)
    then rest
    else elim (validate_safetensors_file file) [ err x ↦ err (corrupt path x) | ok valid ↦ rest ]

unfoldable pub validate_dir : ModelDir → Result ManagerError (Unit {0})
unfolding check_files
validate_dir files =
    if any (λ at. is_model_file at.0) files then check_files files else err no_model_files

unfoldable pub validate_model : Manager → Text → Result ManagerError (Unit {0})
unfolding get_model validate_dir
validate_model m name = elim (get_model m name) [
  | none ↦ err unknown_model
  | some metadata ↦ elim (get m.cache name) [
    | none ↦ err not_cached
    | some files ↦ validate_dir files
  ]
]

abbrev pub dir_or_empty : Option ModelDir → ModelDir
dir_or_empty none = []
dir_or_empty (some files) = files

-- `PullModel`, which makes the directory with a placeholder: the two calls on files may fail
unfoldable pub pull_model :
    Bool → Bool → ModelFile → Text → Manager → Result ManagerError (Unit {0}) × Manager
unfolding get_model
pull_model makes_dir writes info name m = elim (get_model m name) [
  | none ↦ (err unknown_model, m)
  | some metadata ↦
      if not makes_dir
      then (err io_failed, m)
      else let old = dir_or_empty (get m.cache name) in
        if not writes then (err io_failed, record m { cache = put m.cache name old }) else (
          ok tt,
          record m {
            models = put m.models name tt;
            cache = put m.cache name (put old (codes "model_info.json") info);
          },
        )
]

-- a removal that fails is taken to remove nothing
unfoldable pub remove_model : Bool → Text → Manager → Result ManagerError (Unit {0}) × Manager
remove_model removes name m =
    if not removes
    then (err io_failed, m)
    else (ok tt, record m { models = remove m.models name; cache = remove m.cache name })

unfoldable pub get_model_path : Text → Manager → Text → Result ManagerError Text
unfolding validate_model
get_model_path local_path m name = elim (validate_model m name) [
  | err x ↦ err x
  | ok valid ↦ ok local_path
]

abbrev pub hardware_gpu : Text
hardware_gpu = codes "gpu"

abbrev pub hardware_cpu : Text
hardware_cpu = codes "cpu"

abbrev pub hardware_both : Text
hardware_both = codes "both"

-- the switch of `GetSuitableModels`
unfoldable pub is_suitable : Bool → ℤ → ModelMetadata → Bool
is_suitable has_gpu system_ram model =
    if has_gpu
    then text_eq model.hardware_target hardware_gpu || text_eq model.hardware_target hardware_both
    else if text_eq model.hardware_target hardware_cpu
        || text_eq model.hardware_target hardware_both
    then leb_ℤ model.minimum_system_ram system_ram
    else false

-- the suitable models and the others
unfoldable pub split_models :
    Bool → ℤ → Dict ModelMetadata → List ModelMetadata × List ModelMetadata
unfolding is_suitable
split_models has_gpu system_ram [] = ([], [])
split_models has_gpu system_ram ((name, model) ∷ models) =
    let rest = split_models has_gpu system_ram models in
    if is_suitable has_gpu system_ram model
    then (model ∷ rest.0, rest.1)
    else (rest.0, model ∷ rest.1)

unfoldable pub get_suitable_models : Bool → ℤ → Manager → List ModelMetadata × List ModelMetadata
unfolding split_models
get_suitable_models has_gpu system_ram m = split_models has_gpu system_ram m.models_meta
