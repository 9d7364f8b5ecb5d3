-- ===== src/Keys/Save.antt =====
-- core/keys/store.go, `saveLocked`, with `encryptFieldsLocked` of core/keys/encryption.go: the
-- store is written to a temporary file that then replaces keys.json. The operating system's calls
-- fail where the environment says so; every state of the disk on the way is kept in a history.
pub mod Atomic
use sovereignstack.Prelude.{
  ℕ, suc, ◌+◌, Bool, true, false, List, [], ◌∷◌, Option, none, some, ◌&&◌, not, if◌then◌else◌,
  is_empty, Result, ok, err,
}
use sovereignstack.Text.{Text}
use sovereignstack.Dict.{Dict}
use sovereignstack.Crypto.{Cipher, encrypt, is_encrypted}
use sovereignstack.Keys.Profile.{
  UserProfile, KeyError, SaveStep, open_lock, take_lock, create_temp, write_temp, chmod_temp,
  sync_temp, close_temp, rename_temp, encrypt_failed, marshal_failed, save_failed,
}

-- keys.json and the temporary file beside it; `none` where there is no file
pub record Disk : Type 0 where
  pub keys_file : Option Text
  pub temp_file : Option Text

pub record Io : Type 0 where
  pub disk : Disk
  -- the states that the disk was in before, the latest first
  pub history : List Disk

-- What the environment decides: json.MarshalIndent, the cipher, and which calls fail. A failed
-- write leaves `written` in the temporary file.
pub record SaveEnv : Type 0 where
  pub cipher : Cipher
  pub marshal : Dict UserProfile → Option Text
  pub fails : SaveStep → Bool
  pub written : Text
  pub remove_fails : Bool

abbrev pub set_disk : Io → Disk → Io
set_disk io d = record { disk = d; history = io.disk ∷ io.history }

set_temp : Option Text → Io → Io
set_temp t io = set_disk io (record { keys_file = io.disk.keys_file; temp_file = t })

-- os.Rename(tmpPath, ks.path)
replace_file : Io → Io
replace_file io = set_disk io (record { keys_file = io.disk.temp_file; temp_file = none })

-- _ = os.Remove(tmpPath)
drop_temp : SaveEnv → Io → Io
unfolding set_temp
drop_temp e io = if e.remove_fails then io else set_temp none io

abbrev failed {ℓ} : {A : Type ℓ} → SaveStep → A → Result KeyError (Unit {0}) × A
failed step io = (err (save_failed step), io)

-- from the lock on
unfoldable pub write_file : SaveEnv → Text → Io → Result KeyError (Unit {0}) × Io
unfolding set_temp drop_temp replace_file
write_file e bytes io =
    if e.fails open_lock
    then failed open_lock io
    else if e.fails take_lock
    then failed take_lock io
    else if e.fails create_temp
    then failed create_temp io
    else let created = set_temp (some []) io in
      if e.fails write_temp
      then failed write_temp (drop_temp e (set_temp (some e.written) created))
      else let full = set_temp (some bytes) created in
        if e.fails chmod_temp
        then failed chmod_temp (drop_temp e full)
        else if e.fails sync_temp
        then failed sync_temp (drop_temp e full)
        else if e.fails close_temp
        then failed close_temp (drop_temp e full)
        else if e.fails rename_temp
        then failed rename_temp (drop_temp e full)
        else (ok tt, replace_file full)

-- one of the three sensitive fields, with the n-th nonce: every call draws its own
unfoldable pub encrypt_field : Cipher → ℕ → Text → Text → Result KeyError Text
encrypt_field c n master_key field =
    if not (is_encrypted field) && not (is_empty field)
    then elim (encrypt c n master_key field) [ ok ct ↦ ok ct | err x ↦ err (encrypt_failed x) ]
    else ok field

unfoldable pub encrypt_fields : Cipher → ℕ → Text → UserProfile → Result KeyError UserProfile
encrypt_fields c n master_key p = elim (encrypt_field c n master_key p.department) [
  | err x ↦ err x
  | ok department ↦ elim (encrypt_field c (suc n) master_key p.team) [
    | err x ↦ err x
    | ok team ↦ elim (encrypt_field c (suc (suc n)) master_key p.role) [
      | err x ↦ err x
      | ok role ↦ ok (record p { department = department; team = team; role = role })
    ]
  ]
]

-- the encrypted copy of the map, with three nonces for each user
unfoldable pub encrypt_users :
    Cipher → ℕ → Text → Dict UserProfile → Result KeyError (Dict UserProfile)
encrypt_users c n master_key [] = ok []
encrypt_users c n master_key ((id, p) ∷ users) =
    let rest = encrypt_users c (3 + n) master_key users in
    elim (encrypt_fields c n master_key p) [
      | err x ↦ err x
      | ok cp ↦ elim rest [ err x ↦ err x | ok clone ↦ ok ((id, cp) ∷ clone) ]
    ]

-- what is marshalled: the map itself, or its encrypted copy where a master key is set
unfoldable pub snapshot : Cipher → Text → Dict UserProfile → Result KeyError (Dict UserProfile)
snapshot c master_key users =
    if is_empty master_key then ok users else encrypt_users c 0 master_key users

-- marshalled and written, where the copy was made
save_shown : SaveEnv → Result KeyError (Dict UserProfile) → Io → Result KeyError (Unit {0}) × Io
save_shown e (err x) io = (err x, io)
save_shown e (ok shown) io = elim (e.marshal shown) [
  | none ↦ (err marshal_failed, io)
  | some bytes ↦ write_file e bytes io
]

unfoldable pub save_locked :
    SaveEnv → Text → Dict UserProfile → Io → Result KeyError (Unit {0}) × Io
unfolding save_shown
save_locked e master_key users io = save_shown e (snapshot e.cipher master_key users) io
