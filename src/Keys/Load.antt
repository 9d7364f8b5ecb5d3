-- ===== src/Keys/Load.antt =====
-- core/keys/store.go: reading keys.json at the start of a process, and `Save`, which writes it without
-- the encryption and the temporary file of `saveLocked`.
pub mod Restart
use sovereignstack.Prelude.{
  Bool, true, false, [], Option, none, some, Result, ok, err, if◌then◌else◌,
}
use sovereignstack.Text.{Text}
use sovereignstack.Dict.{Dict}
use sovereignstack.Crypto.{Cipher}
use sovereignstack.Keys.Profile.{UserProfile, KeyError}
use sovereignstack.Keys.Save.{Io, set_disk}
use sovereignstack.Keys.Store.{KeyStore, Outcome}
use sovereignstack.Keys.Fields.{set_master_key, decrypt_profiles_in_place, has_encrypted_fields}

pub data LoadError : Type 0 where
  unreadable invalid_keys_json : LoadError

-- `LoadKeyStore`: json.Unmarshal, and whether a file that is there can be read, are parameters. The
-- users of a document without any are a nil map in the code, on which an addition panics; here they
-- are the empty map.
unfoldable pub load_key_store :
    (Text → Option (Dict UserProfile)) → Bool → Io → Result LoadError KeyStore
load_key_store unmarshal readable io = elim io.disk.keys_file [
  | none ↦ ok (record { users = []; master_key = []; io = io })
  | some bytes ↦ elim readable [
    | false ↦ err unreadable
    | true ↦ elim (unmarshal bytes) [
      | none ↦ err invalid_keys_json
      | some users ↦ ok (record { users = users; master_key = []; io = io })
    ]
  ]
]

-- the master key set, and the fields decrypted if some are encrypted, where the load succeeded
abbrev pub unlocked :
    Cipher → Text → Result LoadError KeyStore → Result LoadError (Outcome (Unit {0}))
unlocked c master_key (err x) = err x
unlocked c master_key (ok ks) =
    let keyed = set_master_key master_key ks in
    ok (
      if has_encrypted_fields keyed
      then decrypt_profiles_in_place c master_key keyed
      else (ok tt, keyed))

-- what the policy command of cmd/policy.go does with a master key before it serves
unfoldable pub open_store :
    Cipher
    → (Text → Option (Dict UserProfile))
    → Bool
    → Text
    → Io
    → Result LoadError (Outcome (Unit {0}))
unfolding load_key_store
open_store c unmarshal readable master_key io =
    unlocked c master_key (load_key_store unmarshal readable io)

-- `Save`: the users as they are in memory; a write that fails leaves what it wrote so far
unfoldable pub save : (Dict UserProfile → Option Text) → Bool → Text → KeyStore → Bool × KeyStore
save marshal writes written ks = elim (marshal ks.users) [
  | none ↦ (false, ks)
  | some bytes ↦ (
    writes,
    record ks {
      io =
          set_disk ks.io
            (record ks.io.disk { keys_file = some (if writes then bytes else written) });
    },
  )
]
