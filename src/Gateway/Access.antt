-- ===== src/Gateway/Access.antt =====
-- core/gateway/access.go and auth.go: who may use which model, and the API keys held in memory.
pub mod Laws
use sovereignstack.Prelude.{
  Bool, true, false, List, [], ◌∷◌, Option, none, some, if◌then◌else◌, Result, ok, err,
}
use sovereignstack.Text.{Text, codes, text_eq}
use sovereignstack.Dict.{Dict, get, put, remove}
use sovereignstack.Keys.Profile.{UserProfile, KeyError}
use sovereignstack.Keys.Hash.{Hashing}
use sovereignstack.Keys.Store.{KeyStore, get_by_id, get_by_key, wildcard}
use sovereignstack.Keys.Allowlist.{Net, is_ip_allowed}

-- The interface `AccessController`, with `IsSourceIPAllowed` where the value has that method too.
pub record AccessController : Type 0 where
  pub can_access : Text → Text → Bool
  pub is_source_ip_allowed : Option (Text → Text → Bool)

-- the loop over the allowed models
unfoldable pub listed : List Text → Text → Bool
listed [] model_name = false
listed (model ∷ models) model_name =
    let rest = listed models model_name in
    if text_eq model wildcard then true else if text_eq model model_name then true else rest

unfoldable pub key_store_can_access : KeyStore → Text → Text → Bool
unfolding listed
key_store_can_access ks user_id model_name = elim (get_by_id ks user_id) [
  | none ↦ false
  | some profile ↦ listed profile.allowed_models model_name
]

unfoldable pub key_store_is_source_ip_allowed : Net → KeyStore → Text → Text → Bool
key_store_is_source_ip_allowed net ks user_id source_ip = elim (get_by_id ks user_id) [
  | none ↦ true
  | some profile ↦ is_ip_allowed net profile source_ip
]

unfoldable pub key_store_access_controller : Net → KeyStore → AccessController
key_store_access_controller net ks = record {
  can_access = key_store_can_access ks;
  is_source_ip_allowed = some (key_store_is_source_ip_allowed net ks);
}

abbrev pub deny_all_access_controller : AccessController
deny_all_access_controller = record {
  can_access = λ user_id model_name. false;
  is_source_ip_allowed = none;
}

abbrev pub allow_all_access_controller : AccessController
allow_all_access_controller = record {
  can_access = λ user_id model_name. true;
  is_source_ip_allowed = none;
}

-- `AuthProvider`: ValidateToken, whose error carries no information that is used
abbrev pub AuthProvider : Type 0
AuthProvider = Text → Option Text

-- `APIKeyAuthProvider`: API keys to user ids
unfoldable pub api_key_validate_token : Dict Text → AuthProvider
api_key_validate_token keys token = get keys token

unfoldable pub add_key : Text → Text → Dict Text → Dict Text
add_key api_key user_id keys = put keys api_key user_id

unfoldable pub remove_key : Text → Dict Text → Dict Text
remove_key api_key keys = remove keys api_key

-- `gatewayAuthAdapter.ValidateToken` of cmd/gateway.go: an error of the store is no user
unfoldable pub key_store_validate_token : Hashing → KeyStore → AuthProvider
key_store_validate_token h ks token = elim (get_by_key h token ks) [
  | err x ↦ none
  | ok none ↦ none
  | ok (some user) ↦ some user.id
]
