-- ===== src/Models/Cache.antt =====
-- core/model/cache.go: the downloaded models and .metadata.json. A directory is its files in the order
-- of filepath.Walk, by path; the download, the walk and the JSON encoding are parameters. Reading the
-- clock and printing are left out.
pub mod Consistency
use sovereignstack.Prelude.{
  ℕ, ◌+◌, ◌==◌, ◌≡◌, Bool, true, false, not, ◌&&◌, ◌||◌, List, [], ◌∷◌, Option, none, some, any,
  if◌then◌else◌, Result, ok, err, map,
}
use sovereignstack.Text.{Text}
use sovereignstack.Int64.{ℤ, pos, add64}
use sovereignstack.Dict.{Dict, get, put, remove}
use sovereignstack.Models.Manager.{is_model_file}

pub record CacheMetadata : Type 0 where
  pub name : Text
  pub size : ℤ
  pub downloaded : ℕ
  pub path : Text

-- the paths of a directory's files, with their sizes
abbrev pub Files : Type 0
Files = List (Text × ℤ)

-- CacheManager with the directories below the cache, by path, and the metadata file
pub record CacheManager : Type 0 where
  pub metadata : Dict CacheMetadata
  pub dirs : Dict Files
  pub saved : Option Text

pub data CacheError : Type 0 where
  mkdir_failed download_failed marshal_failed write_failed not_in_cache remove_failed : CacheError

-- What the world decides in one call: the path of a model's directory, what a download leaves there and
-- whether it succeeds, and which file operations work.
pub record CacheEnv : Type 0 where
  pub now : ℕ
  pub path_of : Text → Text
  pub makes_dir : Bool
  pub downloaded : Files
  pub download_ok : Bool
  pub walks : Bool
  pub marshal : Dict CacheMetadata → Option Text
  pub writes : Bool
  pub removes : Bool

unfoldable pub load_metadata :
    (Text → Option (Dict CacheMetadata)) → Option Text → Dict CacheMetadata
load_metadata unmarshal none = []
load_metadata unmarshal (some content) = elim (unmarshal content) [ none ↦ [] | some m ↦ m ]

unfoldable pub save_metadata : CacheEnv → CacheManager → Result CacheError (Unit {0}) × CacheManager
save_metadata e cm = elim (e.marshal cm.metadata) [
  | none ↦ (err marshal_failed, cm)
  | some content ↦
      if e.writes then (ok tt, record cm { saved = some content }) else (err write_failed, cm)
]

abbrev pub is_there {ℓ} : {V : Type ℓ} → Option V → Bool
is_there none = false
is_there (some v) = true

unfoldable pub is_cached : CacheManager → Text → Bool
is_cached cm name = is_there (get cm.metadata name)

unfoldable pub get_cached_model : CacheManager → Text → Option CacheMetadata
get_cached_model cm name = get cm.metadata name

abbrev pub files_or_none : Option Files → Files
files_or_none none = []
files_or_none (some files) = files

-- the walk for a model file
unfoldable pub has_files : CacheManager → Text → Bool
has_files cm path = any (λ at. is_model_file at.0) (files_or_none (get cm.dirs path))

abbrev pub sum_sizes : Files → ℤ
sum_sizes [] = pos 0
sum_sizes ((path, size) ∷ files) = add64 size (sum_sizes files)

-- `getDirSize`, 0 where the walk fails
abbrev pub dir_size : CacheEnv → Files → ℤ
dir_size e files = if e.walks then sum_sizes files else pos 0

abbrev pub is_zero : ℤ → Bool
is_zero (pos n) = n == 0
is_zero n = false

-- what stands behind the download
unfoldable pub record_download :
    CacheEnv → Text → CacheManager → Result CacheError (Unit {0}) × CacheManager
unfolding save_metadata
record_download e name cm =
    let size = dir_size e e.downloaded in
    let path = e.path_of name in
    let stored : CacheManager = record cm { dirs = put cm.dirs path e.downloaded } in
    if not e.download_ok && is_zero size
    then (err download_failed, stored)
    else save_metadata e (record stored {
      metadata =
          put cm.metadata name
            (record { name = name; size = size; downloaded = e.now; path = path });
    })

unfoldable pub download_model :
    CacheEnv → Text → CacheManager → Result CacheError (Unit {0}) × CacheManager
unfolding record_download is_cached has_files
download_model e name cm =
    if is_cached cm name && has_files cm (e.path_of name)
    then (ok tt, cm)
    else if not e.makes_dir
    then (err mkdir_failed, cm)
    else record_download e name cm

unfoldable pub list_cached : CacheManager → List CacheMetadata
list_cached cm = map (λ entry. entry.1) cm.metadata

unfoldable pub verify_cache : CacheManager → Dict Bool
verify_cache cm = map (λ entry. (entry.0, is_there (get cm.dirs entry.1.path))) cm.metadata

unfoldable pub remove_from_cache :
    CacheEnv → Text → CacheManager → Result CacheError (Unit {0}) × CacheManager
unfolding save_metadata
remove_from_cache e name cm = elim (get cm.metadata name) [
  | none ↦ (err not_in_cache, cm)
  | some meta ↦
      if not e.removes
      then (err remove_failed, cm)
      else save_metadata e
          (record cm { metadata = remove cm.metadata name; dirs = remove cm.dirs meta.path })
]

abbrev pub total_of : Dict CacheMetadata → ℤ
total_of [] = pos 0
total_of ((name, meta) ∷ metadata) = add64 meta.size (total_of metadata)

unfoldable pub get_total_cache_size : CacheManager → ℤ
get_total_cache_size cm = total_of cm.metadata
