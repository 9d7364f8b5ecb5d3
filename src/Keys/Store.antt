-- ===== src/Keys/Store.antt =====
-- core/keys/store.go: the operations of the key store. A method takes the store and returns the new
-- one; a store that could not be saved keeps the change in memory, as in the code.
pub mod Lookup
pub mod Access
pub mod Persist
pub mod Migrate
use sovereignstack.Prelude.{
  ℕ, suc, ◌+◌, Bool, true, false, List, [], ◌∷◌, ◌++◌, Option, none, some, ◌&&◌, ◌||◌, not, ltb,
  if◌then◌else◌, is_empty, any, keep, map, Result, ok, err,
}
use sovereignstack.Text.{Text, codes, text_eq}
use sovereignstack.Int64.{ℤ}
use sovereignstack.Dict.{Dict, get, put, remove}
use sovereignstack.Keys.Profile.{UserProfile, KeyError, empty_id, empty_key, not_found}
use sovereignstack.Keys.Hash.{Hashing, hash_api_key, verify_api_key, is_hashed_key, key_index}
use sovereignstack.Keys.Save.{SaveEnv, Io, save_locked}

-- `mu` is held by each method from end to end, so a method is one step.
pub record KeyStore : Type 0 where
  pub users : Dict UserProfile
  pub master_key : Text
  pub io : Io

-- The outside world of one call: the libraries, the faults, the clock and the random salt.
pub record Env : Type 0 where
  pub hashing : Hashing
  pub save : SaveEnv
  pub now : ℕ
  pub salt : Option Text

abbrev pub Outcome : Type 0 → Type 0
Outcome A = Result KeyError A × KeyStore

-- `return ks.saveLocked()` of a store with these users
unfoldable pub save_users : Env → KeyStore → Dict UserProfile → Outcome (Unit {0})
save_users e ks users =
    let (r, io) = save_locked e.save ks.master_key users ks.io in
    (r, record ks { users = users; io = io })

-- The profile that is stored: its key hashed, if it is plaintext.
unfoldable pub hash_profile : Env → UserProfile → Result KeyError UserProfile
hash_profile e p =
    if is_hashed_key p.key then ok p else elim (hash_api_key e.hashing e.salt p.key) [
      | err x ↦ err x
      | ok hashed ↦ ok (record p { key_index = key_index e.hashing p.key; key = hashed })
    ]

unfoldable pub add_user : Env → UserProfile → KeyStore → Outcome (Unit {0})
add_user e p ks =
    if is_empty p.id
    then (err empty_id, ks)
    else if is_empty p.key
    then (err empty_key, ks)
    else elim (hash_profile e p) [
      | err x ↦ (err x, ks)
      | ok q ↦ save_users e ks (put ks.users q.id (record q { last_used_at = e.now }))
    ]

unfoldable pub remove_user : Env → Text → KeyStore → Outcome (Unit {0})
remove_user e id ks = elim (get ks.users id) [
  | none ↦ (err (not_found id), ks)
  | some user ↦ save_users e ks (remove ks.users id)
]

-- the loop of `GetByKey`
unfoldable pub find_by_key :
    Hashing → Text → Dict UserProfile → Result KeyError (Option UserProfile)
find_by_key h api_key [] = ok none
find_by_key h api_key ((id, user) ∷ users) =
    let rest = find_by_key h api_key users in
    if not (is_hashed_key user.key)
    then if text_eq user.key api_key then ok (some user) else rest
    else if not (is_empty user.key_index) && not (text_eq user.key_index (key_index h api_key))
    then rest
    else elim (verify_api_key h api_key user.key) [
      | err x ↦ err x
      | ok true ↦ ok (some user)
      | ok false ↦ rest
    ]

unfoldable pub get_by_key : Hashing → Text → KeyStore → Result KeyError (Option UserProfile)
unfolding find_by_key
get_by_key h api_key ks = find_by_key h api_key ks.users

-- `GetByID` never returns an error.
unfoldable pub get_by_id : KeyStore → Text → Option UserProfile
get_by_id ks id = get ks.users id

unfoldable pub list_users : KeyStore → List UserProfile
list_users ks = map (λ entry. entry.1) ks.users

unfoldable pub update_last_used : Env → Text → KeyStore → Outcome (Unit {0})
update_last_used e id ks = elim (get ks.users id) [
  | none ↦ (err (not_found id), ks)
  | some user ↦
      (ok tt, record ks { users = put ks.users id (record user { last_used_at = e.now }) })
]

abbrev pub wildcard : Text
wildcard = codes "*"

-- the loop of `CanAccess`, and of `GrantModelAccess`, over the allowed models
unfoldable pub allows : List Text → Text → Bool
allows models model = any (λ m. text_eq m wildcard || text_eq m model) models

unfoldable pub grant_model_access : Env → Text → Text → KeyStore → Outcome (Unit {0})
unfolding allows
grant_model_access e id model ks = elim (get ks.users id) [
  | none ↦ (err (not_found id), ks)
  | some user ↦
      if allows user.allowed_models model
      then (ok tt, ks)
      else save_users e ks
          (put ks.users id (record user { allowed_models = user.allowed_models ++ model ∷ [] }))
]

unfoldable pub revoke_model_access : Env → Text → Text → KeyStore → Outcome (Unit {0})
revoke_model_access e id model ks = elim (get ks.users id) [
  | none ↦ (err (not_found id), ks)
  | some user ↦
      let filtered = keep (λ m. not (text_eq m model)) user.allowed_models in
      save_users e ks (put ks.users id (record user { allowed_models = filtered }))
]

unfoldable pub set_quota : Env → Text → ℤ → ℤ → KeyStore → Outcome (Unit {0})
set_quota e id daily_limit monthly_limit ks = elim (get ks.users id) [
  | none ↦ (err (not_found id), ks)
  | some user ↦ save_users e ks (
      put ks.users id
        (record user { max_tokens_per_day = daily_limit; max_tokens_per_month = monthly_limit }))
]

-- the loop of `MigrateHashes`, a salt to each key that is hashed: the users, the keys migrated, and
-- the error that ended the loop
unfoldable pub migrate_users :
    Hashing → (ℕ → Option Text) → ℕ → Dict UserProfile → Dict UserProfile × ℕ × Option KeyError
migrate_users h salts n [] = ([], n, none)
migrate_users h salts n ((id, user) ∷ users) = elim (is_hashed_key user.key) [
  | true ↦ let rest = migrate_users h salts n users in ((id, user) ∷ rest.0, rest.1, rest.2)
  | false ↦ elim (hash_api_key h (salts n) user.key) [
    -- the fingerprint is already set when hashing fails
    | err x ↦ ((id, record user { key_index = key_index h user.key }) ∷ users, n, some x)
    | ok hashed ↦
        let rest = migrate_users h salts (suc n) users in
        (
          (id, record user { key_index = key_index h user.key; key = hashed }) ∷ rest.0,
          rest.1,
          rest.2,
        )
  ]
]

-- The error of the loop comes back without a save; the count comes back on every path.
unfoldable pub migrate_hashes : Env → (ℕ → Option Text) → KeyStore → Outcome (Unit {0}) × ℕ
migrate_hashes e salts ks =
    let (users, migrated, failure) = migrate_users e.hashing salts 0 ks.users in
    elim failure [
      | some x ↦ ((err x, record ks { users = users }), migrated)
      | none ↦
          if ltb 0 migrated
          then (save_users e ks users, migrated)
          else ((ok tt, record ks { users = users }), migrated)
    ]

unfoldable pub has_plaintext_keys : KeyStore → Bool
has_plaintext_keys ks = any (λ entry. not (is_hashed_key entry.1.key)) ks.users

unfoldable pub can_access : KeyStore → Text → Text → Bool
unfolding allows
can_access ks id model = elim (get ks.users id) [
  | none ↦ false
  | some user ↦ allows user.allowed_models model
]
