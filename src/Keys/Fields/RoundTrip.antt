-- ===== src/Keys/Fields/RoundTrip.antt =====
-- A load gives back the fields that a save encrypted.
use sovereignstack.Prelude.{
  ℕ, suc, ◌+◌, ◌≡◌, refl, false, [], ◌∷◌, none, arith, length, ok, All, any, ◌||◌, Result-cases,
  inl, inr,
}
use sovereignstack.Text.{Text}
use sovereignstack.Dict.{Dict}
use sovereignstack.Crypto.{Cipher, encrypt, decrypt, is_encrypted, master_key_len}
use sovereignstack.Crypto.Laws.{CipherLaws, decrypt-encrypt}
use sovereignstack.Keys.Profile.{UserProfile}
use sovereignstack.Keys.Save.{encrypt_field, encrypt_fields, encrypt_users}
use sovereignstack.Keys.Store.{KeyStore}
use sovereignstack.Keys.Fields.{
  decrypt_profile, decrypt_users, decrypt_profiles_in_place, decrypt_field,
}

-- No sensitive field has the prefix of a ciphertext.
pub record IsPlain (p : UserProfile) : Type 0 where
  pub department_plain : is_encrypted p.department ≡ false
  pub team_plain : is_encrypted p.team ≡ false
  pub role_plain : is_encrypted p.role ≡ false

encrypt-nil : (c : Cipher) (i : ℕ) (key : Text) → encrypt c i key [] ≡ ok []
unfolding encrypt
encrypt-nil c i key = refl

decrypt_field_plain :
    (c : Cipher) (key field : Text)
    → is_encrypted field ≡ false
    → decrypt_field c key field ≡ ok field
unfolding decrypt_field decrypt is_encrypted
decrypt_field_plain c key field plain = ground arith

decrypt_profile_plain :
    (c : Cipher) (key : Text) (p : UserProfile) → IsPlain p → decrypt_profile c key p ≡ ok p
unfolding decrypt_profile
decrypt_profile_plain c key p plain = ground (
  arith,
  decrypt_field_plain c key p.department plain.department_plain,
  decrypt_field_plain c key p.team plain.team_plain,
  decrypt_field_plain c key p.role plain.role_plain,
)

-- Decrypting changes nothing where no field has the prefix of a ciphertext.
pub decrypt_users_plain :
    (c : Cipher) (key : Text) (users : Dict UserProfile)
    → any
        (λ en. is_encrypted en.1.department || is_encrypted en.1.team || is_encrypted en.1.role)
        users
      ≡ false
    → decrypt_users c key users ≡ (users, none)
unfolding decrypt_users
decrypt_users_plain c key [] h = refl
decrypt_users_plain c key ((id, p) ∷ users) h =
    let plain : IsPlain p = record {
      department_plain = ground arith;
      team_plain = ground arith;
      role_plain = ground arith;
    } in
    ground (arith, decrypt_profile_plain c key p plain, decrypt_users_plain c key users)

module _ (c : Cipher) (laws : CipherLaws c) (key : Text) (long : length key ≡ master_key_len) where
  decrypt_field-encrypt_field :
      (i : ℕ) (field stored : Text)
      → is_encrypted field ≡ false
      → encrypt_field c i key field ≡ ok stored
      → decrypt_field c key stored ≡ ok field
  unfolding encrypt_field decrypt_field
  decrypt_field-encrypt_field i [] stored plain e =
      ground (arith, decrypt-encrypt c laws i key [] [] long (encrypt-nil c i key))
  decrypt_field-encrypt_field i (x ∷ field) stored plain e =
      ground (arith, decrypt-encrypt c laws i key (x ∷ field) stored long)

  decrypt_profile-encrypt_fields :
      (i : ℕ) (p q : UserProfile)
      → IsPlain p
      → encrypt_fields c i key p ≡ ok q
      → decrypt_profile c key q ≡ ok p
  unfolding encrypt_fields decrypt_profile
  decrypt_profile-encrypt_fields i p q plain e =
      elim (Result-cases (encrypt_field c i key p.department)) [
        | inr (x, failed) ↦ absurd (ground arith)
        | inl (d, stored_d) ↦ elim (Result-cases (encrypt_field c (suc i) key p.team)) [
          | inr (x, failed) ↦ absurd (ground arith)
          | inl (t, stored_t) ↦ elim (Result-cases (encrypt_field c (suc (suc i)) key p.role)) [
            | inr (x, failed) ↦ absurd (ground arith)
            | inl (o, stored_o) ↦ ground (
              arith,
              decrypt_field-encrypt_field i p.department d plain.department_plain stored_d,
              decrypt_field-encrypt_field (suc i) p.team t plain.team_plain stored_t,
              decrypt_field-encrypt_field (suc (suc i)) p.role o plain.role_plain stored_o,
            )
          ]
        ]
      ]

  pub decrypt_users-encrypt_users :
      (i : ℕ) (users shown : Dict UserProfile)
      → All (λ en. IsPlain en.1) users
      → encrypt_users c i key users ≡ ok shown
      → decrypt_users c key shown ≡ (users, none)
  unfolding encrypt_users decrypt_users
  decrypt_users-encrypt_users i [] shown plain e = ground arith
  decrypt_users-encrypt_users i ((id, p) ∷ users) shown plain e =
      elim (Result-cases (encrypt_fields c i key p)) [
        | inr (x, failed) ↦ absurd (ground arith)
        | inl (q, stored) ↦ elim (Result-cases (encrypt_users c (3 + i) key users)) [
          | inr (x, failed) ↦ absurd (ground arith)
          | inl (rest, stored_rest) ↦ ground (
            arith,
            decrypt_profile-encrypt_fields i p q plain.0 stored,
            decrypt_users-encrypt_users (3 + i) users rest plain.1 stored_rest,
          )
        ]
      ]

  -- With a cipher and an encoding that keep their laws and a key of 32 bytes, decrypting the users
  -- in the form that a save writes gives the users back, where no sensitive field looked encrypted
  -- before the save; the rest of the store is as it was.
  pub decrypt_profiles-encrypt_users :
      (ks : KeyStore) (users shown : Dict UserProfile)
      → All (λ en. IsPlain en.1) users
      → encrypt_users c 0 key users ≡ ok shown
      → decrypt_profiles_in_place c key (record ks { users = shown })
        ≡ (ok tt, record ks { users = users })
  unfolding decrypt_profiles_in_place
  decrypt_profiles-encrypt_users ks users shown plain e =
      ground (arith, decrypt_users-encrypt_users 0 users shown plain e)
