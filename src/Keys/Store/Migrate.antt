-- ===== src/Keys/Store/Migrate.antt =====
-- `MigrateHashes` leaves no plaintext key where it succeeds, and a second run changes nothing.
use sovereignstack.Prelude.{
  Result-cases, ℕ, suc, ◌≡◌, refl, Bool, false, [], ◌∷◌, Option, none, not, arith, any, Bool-cases,
  Option-cases, inl, inr, ok,
}
use sovereignstack.Text.{Text}
use sovereignstack.Dict.{Dict}
use sovereignstack.Keys.Profile.{UserProfile}
use sovereignstack.Keys.Hash.{Hashing, hash_api_key, is_hashed_key}
use sovereignstack.Keys.Hash.Laws.{hash_api_key-is_hashed_key}
use sovereignstack.Keys.Store.{
  KeyStore, Env, migrate_users, migrate_hashes, has_plaintext_keys, save_users,
}

-- Some user of the map still holds a plaintext key.
abbrev plaintext_left : Dict UserProfile → Bool
plaintext_left users = any (λ en. not (is_hashed_key en.1.key)) users

migrate_users-none :
    (h : Hashing) (salts : ℕ → Option Text) (n : ℕ) (users : Dict UserProfile)
    → (migrate_users h salts n users).2 ≡ none
    → plaintext_left (migrate_users h salts n users).0 ≡ false
unfolding migrate_users
migrate_users-none h salts n [] e = refl
migrate_users-none h salts n ((id, user) ∷ users) e = elim (Bool-cases (is_hashed_key user.key)) [
  | inl hashed ↦ ground (arith, migrate_users-none h salts n users)
  | inr plain ↦ elim (Result-cases (hash_api_key h (salts n) user.key)) [
    | inl (stored, made) ↦ ground (
      arith,
      hash_api_key-is_hashed_key h (salts n) user.key stored made,
      migrate_users-none h salts (suc n) users,
    )
    | inr (x, failed) ↦ ground arith
  ]
]

migrate_users-idle :
    (h : Hashing) (salts : ℕ → Option Text) (n : ℕ) (users : Dict UserProfile)
    → plaintext_left users ≡ false
    → migrate_users h salts n users ≡ (users, n, none)
unfolding migrate_users
migrate_users-idle h salts n [] e = refl
migrate_users-idle h salts n ((id, user) ∷ users) e =
    ground (arith, migrate_users-idle h salts n users)

-- A migration that returns no error leaves no plaintext key in memory.
pub migrate_hashes-has_plaintext_keys :
    (e : Env) (salts : ℕ → Option Text) (ks : KeyStore)
    → (migrate_hashes e salts ks).0.0 ≡ ok tt
    → has_plaintext_keys (migrate_hashes e salts ks).0.1 ≡ false
unfolding migrate_hashes has_plaintext_keys save_users
migrate_hashes-has_plaintext_keys e salts ks h =
    elim (Option-cases (migrate_users e.hashing salts 0 ks.users).2) [
      | inl done ↦ ground (arith, migrate_users-none e.hashing salts 0 ks.users done)
      | inr (x, failed) ↦ ground arith
    ]

-- Where every key is hashed already, a migration reports 0, succeeds, and changes neither the store
-- nor the disk.
pub migrate_hashes_idempotent :
    (e : Env) (salts : ℕ → Option Text) (ks : KeyStore)
    → has_plaintext_keys ks ≡ false
    → migrate_hashes e salts ks ≡ ((ok tt, ks), 0)
unfolding migrate_hashes has_plaintext_keys
migrate_hashes_idempotent e salts ks h =
    ground (arith, migrate_users-idle e.hashing salts 0 ks.users h)

-- A second migration, after one that returned no error, reports 0 and changes nothing.
pub migrate_hashes_twice :
    (e later : Env) (salts more : ℕ → Option Text) (ks : KeyStore)
    → (migrate_hashes e salts ks).0.0 ≡ ok tt
    → migrate_hashes later more (migrate_hashes e salts ks).0.1
      ≡ ((ok tt, (migrate_hashes e salts ks).0.1), 0)
migrate_hashes_twice e later salts more ks h =
    migrate_hashes_idempotent later more (migrate_hashes e salts ks).0.1
      (migrate_hashes-has_plaintext_keys e salts ks h)
