-- ===== src/Keys/Load/Restart.antt =====
-- What the next process finds of the users of this one.
use sovereignstack.Prelude.{
  ◌≡◌, ap, sym, ◌∙◌, true, false, Option, some, arith, length, ok, All, Result-cases, inl, inr,
  is_empty, Bool-cases, if◌then◌else◌, [],
}
use mathlib.Core.Path.{subst}
use sovereignstack.Text.{Text}
use sovereignstack.Dict.{Dict}
use sovereignstack.Crypto.{master_key_len}
use sovereignstack.Crypto.Laws.{CipherLaws}
use sovereignstack.Keys.Profile.{UserProfile}
use sovereignstack.Keys.Save.{SaveEnv, snapshot, encrypt_users}
use sovereignstack.Keys.Save.Atomic.{Marshalled}
use sovereignstack.Keys.Store.{KeyStore}
use sovereignstack.Keys.Store.Persist.{InSync}
use sovereignstack.Keys.Fields.{set_master_key, has_encrypted_fields, decrypt_profiles_in_place}
use sovereignstack.Keys.Fields.RoundTrip.{
  IsPlain, decrypt_profiles-encrypt_users, decrypt_users-encrypt_users, decrypt_users_plain,
}
use sovereignstack.Keys.Load.{load_key_store, open_store, unlocked}

module _ (e : SaveEnv) (laws : CipherLaws e.cipher) (unmarshal : Text → Option (Dict UserProfile))
    (ks : KeyStore) (long : length ks.master_key ≡ master_key_len)
    (plain : All (λ en. IsPlain en.1) ks.users) where
  not_empty : is_empty ks.master_key ≡ false
  not_empty = ground (arith, long)

  load_key_store-some :
      (bytes : Text) (users : Dict UserProfile)
      → ks.io.disk.keys_file ≡ some bytes
      → unmarshal bytes ≡ some users
      → load_key_store unmarshal true ks.io
        ≡ ok (record { users = users; master_key = []; io = ks.io })
  unfolding load_key_store
  load_key_store-some bytes users there decoded = ground (arith, there, decoded)

  open_store-encrypted :
      (shown : Dict UserProfile) (bytes : Text)
      → encrypt_users e.cipher 0 ks.master_key ks.users ≡ ok shown
      → unmarshal bytes ≡ some shown
      → ks.io.disk.keys_file ≡ some bytes
      → open_store e.cipher unmarshal true ks.master_key ks.io ≡ ok (ok tt, ks)
  unfolding open_store set_master_key has_encrypted_fields
  open_store-encrypted shown bytes encrypted decoded there =
      let loaded : load_key_store unmarshal true ks.io
          ≡ ok (record { users = shown; master_key = []; io = ks.io }) =
        load_key_store-some bytes shown there decoded in
      let keyed : KeyStore = record ks { users = shown } in
      ap (unlocked e.cipher ks.master_key) loaded ∙ elim (Bool-cases (has_encrypted_fields keyed)) [
        | inl some_encrypted ↦
            ap
              (λ b. ok (
                if b
                then decrypt_profiles_in_place e.cipher ks.master_key keyed
                else (ok tt, keyed)))
              some_encrypted
            ∙ ap ok (
                decrypt_profiles-encrypt_users e.cipher laws ks.master_key long ks ks.users shown
                  plain encrypted)
        | inr none_encrypted ↦
            let same : shown ≡ ks.users =
              ap (λ r. r.0)
                (sym (decrypt_users_plain e.cipher ks.master_key shown none_encrypted)
                  ∙ decrypt_users-encrypt_users e.cipher laws ks.master_key long 0 ks.users shown
                      plain encrypted) in
            ap
              (λ b. ok (
                if b
                then decrypt_profiles_in_place e.cipher ks.master_key keyed
                else (ok tt, keyed)))
              none_encrypted
            ∙ ap (λ u. ok (ok tt, record ks { users = u })) same
      ]

  -- Where keys.json was in step with a store whose fields are encrypted under a 32-byte key, a process
  -- that starts with that key has the same store: every user, every grant and quota, and the sensitive
  -- fields in the clear. The cipher and the encodings keep their laws, JSON decodes what was encoded,
  -- and no sensitive field looks encrypted before it is.
  pub open_store-InSync :
      (decodes : (shown : Dict UserProfile) (bytes : Text)
        → snapshot e.cipher ks.master_key ks.users ≡ ok shown
        → e.marshal shown ≡ some bytes
        → unmarshal bytes ≡ some shown)
      → InSync e ks
      → open_store e.cipher unmarshal true ks.master_key ks.io ≡ ok (ok tt, ks)
  unfolding snapshot
  open_store-InSync decodes sync = elim (Result-cases (snapshot e.cipher ks.master_key ks.users)) [
    | inr (x, failed) ↦ absurd (subst (λ r. Marshalled e r ks.io.disk) failed sync.file)
    | inl (shown, taken) ↦
        let (bytes, marshalled, there) = subst (λ r. Marshalled e r ks.io.disk) taken sync.file in
        let encrypted : encrypt_users e.cipher 0 ks.master_key ks.users ≡ ok shown =
          ground (arith, not_empty) in
        open_store-encrypted shown bytes encrypted (decodes shown bytes taken marshalled) there
  ]
