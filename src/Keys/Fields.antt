-- ===== src/Keys/Fields.antt =====
-- core/keys/encryption.go: the sensitive fields of the profiles, decrypted behind a load and counted
-- by the migration. `encryptFieldsLocked` stands with the save.
pub mod RoundTrip
use sovereignstack.Prelude.{
  ℕ, suc, Bool, true, false, not, ◌&&◌, ◌||◌, List, [], ◌∷◌, Option, none, some, if◌then◌else◌,
  is_empty, any, Result, ok, err,
}
use sovereignstack.Text.{Text}
use sovereignstack.Dict.{Dict, get}
use sovereignstack.Crypto.{Cipher, decrypt, is_encrypted}
use sovereignstack.Keys.Profile.{UserProfile, KeyError, decrypt_failed, no_master_key}
use sovereignstack.Keys.Store.{KeyStore, Env, Outcome, save_users}

unfoldable pub set_master_key : Text → KeyStore → KeyStore
set_master_key master_key ks = record ks { master_key = master_key }

-- some sensitive field is plaintext
abbrev plain_field : Text → Bool
plain_field field = not (is_empty field) && not (is_encrypted field)

unfoldable pub needs_migration : Option UserProfile → Bool
needs_migration none = true
needs_migration (some p) = plain_field p.department || plain_field p.team || plain_field p.role

-- the loop over the users in memory, against the users on disk
unfoldable pub count_migrated : Dict UserProfile → Dict UserProfile → ℕ
unfolding needs_migration
count_migrated on_disk [] = 0
count_migrated on_disk ((id, p) ∷ users) =
    let rest = count_migrated on_disk users in
    if needs_migration (get on_disk id) then suc rest else rest

-- json.Unmarshal of keys.json: what it leaves in the map, on an error too
abbrev read_users : (Text → Dict UserProfile) → Option Text → Dict UserProfile
read_users unmarshal none = []
read_users unmarshal (some bytes) = if is_empty bytes then [] else unmarshal bytes

-- The count comes back with the error of the save, too.
unfoldable pub migrate_encrypt_fields :
    Env → (Text → Dict UserProfile) → KeyStore → Outcome (Unit {0}) × ℕ
unfolding count_migrated
migrate_encrypt_fields e unmarshal ks =
    if is_empty ks.master_key then ((err no_master_key, ks), 0) else (
      save_users e ks ks.users,
      count_migrated (read_users unmarshal ks.io.disk.keys_file) ks.users,
    )

decrypt_field : Cipher → Text → Text → Result KeyError Text
decrypt_field c master_key field = elim (decrypt c master_key field) [
  | ok pt ↦ ok pt
  | err x ↦ err (decrypt_failed x)
]

unfoldable pub decrypt_profile : Cipher → Text → UserProfile → Result KeyError UserProfile
unfolding decrypt_field
decrypt_profile c master_key p = elim (decrypt_field c master_key p.department) [
  | err x ↦ err x
  | ok department ↦ elim (decrypt_field c master_key p.team) [
    | err x ↦ err x
    | ok team ↦ elim (decrypt_field c master_key p.role) [
      | err x ↦ err x
      | ok role ↦ ok (record p { department = department; team = team; role = role })
    ]
  ]
]

-- the loop of `DecryptProfilesInPlace`: the users, and the error that ended it. The profiles before
-- the one that failed stay decrypted.
unfoldable pub decrypt_users : Cipher → Text → Dict UserProfile → Dict UserProfile × Option KeyError
decrypt_users c master_key [] = ([], none)
decrypt_users c master_key ((id, p) ∷ users) =
    let rest = decrypt_users c master_key users in
    elim (decrypt_profile c master_key p) [
      | err x ↦ ((id, p) ∷ users, some x)
      | ok q ↦ ((id, q) ∷ rest.0, rest.1)
    ]

unfoldable pub decrypt_profiles_in_place : Cipher → Text → KeyStore → Outcome (Unit {0})
unfolding decrypt_users
decrypt_profiles_in_place c master_key ks =
    let (users, failure) = decrypt_users c master_key ks.users in
    elim failure [
      | none ↦ (ok tt, record ks { users = users })
      | some x ↦ (err x, record ks { users = users })
    ]

unfoldable pub has_encrypted_fields : KeyStore → Bool
has_encrypted_fields ks =
    any (λ en. is_encrypted en.1.department || is_encrypted en.1.team || is_encrypted en.1.role)
      ks.users
