-- ===== src/Keys/Profile.antt =====
-- core/keys/store.go: the user profile and the errors of the key store.
use sovereignstack.Prelude.{ℕ, List}
use sovereignstack.Text.{Text, codes}
use sovereignstack.Int64.{ℤ}
use sovereignstack.Crypto.{CryptoError}

-- Times are nanoseconds. The rate limit is a float64 that this package never computes with: its bits.
pub record UserProfile : Type 0 where
  pub id : Text
  pub key : Text
  pub key_index : Text
  pub department : Text
  pub team : Text
  pub role : Text
  pub ip_allowlist : List Text
  pub allowed_models : List Text
  pub rate_limit_per_min : ℕ
  pub max_tokens_per_day : ℤ
  pub max_tokens_per_month : ℤ
  pub created_at : ℕ
  pub last_used_at : ℕ

abbrev pub role_service : Text
role_service = codes "service"

-- The points at which `saveLocked` can fail.
pub data SaveStep : Type 0 where
  open_lock take_lock create_temp write_temp chmod_temp sync_temp close_temp rename_temp : SaveStep

pub data KeyError : Type 0 where
  empty_id empty_key no_salt : KeyError
  bad_hash : KeyError
  not_found : Text → KeyError
  encrypt_failed decrypt_failed : CryptoError → KeyError
  no_master_key : KeyError
  marshal_failed : KeyError
  save_failed : SaveStep → KeyError
