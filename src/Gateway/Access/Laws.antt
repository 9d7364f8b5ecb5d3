-- ===== src/Gateway/Access/Laws.antt =====
-- The gateway and the key store agree on access, and keys added to the provider in memory are valid
-- until they are removed.
use sovereignstack.Prelude.{
  ◌≡◌, refl, List, [], ◌∷◌, none, some, arith, if◌then◌else◌, Option-cases, inl, inr,
}
use sovereignstack.Text.{Text, text_eq}
use sovereignstack.Dict.{Dict, get, dict_laws, get-put}
use sovereignstack.Keys.Store.{KeyStore, get_by_id, allows, can_access}
use sovereignstack.Gateway.Access.{
  listed, key_store_can_access, api_key_validate_token, add_key, remove_key,
}

listed-eq-allows : (models : List Text) (model : Text) → listed models model ≡ allows models model
unfolding listed allows
listed-eq-allows [] model = refl
listed-eq-allows (m ∷ models) model = ground (arith, listed-eq-allows models model)

-- The gateway's access controller and the key store's own CanAccess give the same answer for every
-- user and every model.
pub key_store_can_access-eq :
    (ks : KeyStore) (user_id model : Text)
    → key_store_can_access ks user_id model ≡ can_access ks user_id model
unfolding key_store_can_access can_access get_by_id
key_store_can_access-eq ks user_id model = elim (Option-cases (get ks.users user_id)) [
  | inl absent ↦ ground arith
  | inr (user, found) ↦ ground (arith, listed-eq-allows user.allowed_models model)
]

-- A key that is added validates as its user until it is removed; other keys are as before.
pub validate-add_key :
    (keys : Dict Text) (key user other : Text)
    → (api_key_validate_token (add_key key user keys) other
        ≡ (if text_eq key other then some user else api_key_validate_token keys other))
      × (api_key_validate_token (remove_key key (add_key key user keys)) other
          ≡ (if text_eq key other then none else api_key_validate_token keys other))
unfolding api_key_validate_token add_key remove_key
validate-add_key keys key user other = (get-put keys key user other, simp dict_laws (ground arith))
