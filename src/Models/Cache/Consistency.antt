-- ===== src/Models/Cache/Consistency.antt =====
-- The metadata file follows the metadata in memory.
use sovereignstack.Prelude.{◌≡◌, true, false, some, arith, ok}
use sovereignstack.Text.{Text}
use sovereignstack.Dict.{get, get-remove_self}
use sovereignstack.Models.Cache.{
  CacheManager, CacheMetadata, CacheEnv, save_metadata, download_model, record_download,
  remove_from_cache, is_cached,
}

-- the metadata file is the encoding of the metadata in memory
abbrev pub IsSaved : CacheEnv → CacheManager → Type 0
IsSaved e cm = cm.saved ≡ e.marshal cm.metadata

save_metadata-IsSaved :
    (e : CacheEnv) (cm : CacheManager)
    → (save_metadata e cm).0 ≡ ok tt
    → IsSaved e (save_metadata e cm).1
unfolding save_metadata
save_metadata-IsSaved e cm h = ground arith

-- A download and a removal that succeed leave the metadata file in step, where it was so before.
pub download_model-IsSaved :
    (e : CacheEnv) (name : Text) (cm : CacheManager)
    → IsSaved e cm
    → (download_model e name cm).0 ≡ ok tt
    → IsSaved e (download_model e name cm).1
unfolding download_model record_download save_metadata
download_model-IsSaved e name cm sync h = ground arith

pub remove_from_cache-IsSaved :
    (e : CacheEnv) (name : Text) (cm : CacheManager)
    → (remove_from_cache e name cm).0 ≡ ok tt
    → IsSaved e (remove_from_cache e name cm).1
unfolding remove_from_cache save_metadata
remove_from_cache-IsSaved e name cm h = ground arith

-- A removed model is not cached any more, whether or not the metadata could be saved.
pub is_cached-remove :
    (e : CacheEnv) (name : Text) (cm : CacheManager) (meta : CacheMetadata)
    → get cm.metadata name ≡ some meta
    → e.removes ≡ true
    → is_cached (remove_from_cache e name cm).1 name ≡ false
unfolding remove_from_cache save_metadata is_cached
is_cached-remove e name cm meta found removes =
    ground (arith, found, removes, get-remove_self cm.metadata name)
