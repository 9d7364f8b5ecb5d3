-- ===== src/Keys/Hash/Laws.antt =====
-- The stored form of a key is recognised, and verifies against its plaintext.
use sovereignstack.Prelude.{
  ℕ, ◌≡◌, refl, true, [], ◌∷◌, ◌++◌, Option, none, some, arith, length, ok,
}
use sovereignstack.Text.{Text, codes, has_prefix, text_eq_refl}
use sovereignstack.Text.Split.{split, split-append, split-eq_of_Free, Free}
use sovereignstack.Keys.Hash.{
  Hashing, argon_time, argon_memory, argon_threads, argon_key_len, argon_version, dollar,
  hash_header, hash_api_key, verify_parts, verify_api_key, is_hashed_key,
}

-- The documented behaviour of the libraries: base64 decodes what it encoded and never writes '$',
-- Sscanf reads back the numbers that Sprintf wrote, argon2 returns as many bytes as asked for.
pub record HashingLaws (h : Hashing) : Type 0 where
  pub decode-encode : (t : Text) → h.decode (h.encode t) ≡ some t
  pub encode-Free : (t : Text) → Free dollar (h.encode t)
  pub scan_header : h.scan_version (codes "v=19") ≡ some argon_version
  pub scan_costs :
      h.scan_params (codes "m=65536,t=2,p=2") ≡ some (argon_memory, argon_time, argon_threads)
  pub argon2_length : (p s : Text) (t m n k : ℕ) → length (h.argon2 p s t m n k) ≡ k

split-stored :
    (a b : Text)
    → Free dollar a
    → Free dollar b
    → split dollar (hash_header ++ a ++ dollar ∷ b)
      ≡ [] ∷ codes "argon2id" ∷ codes "v=19" ∷ codes "m=65536,t=2,p=2" ∷ a ∷ b ∷ []
unfolding split
split-stored a b fa fb = rw (split-append dollar a b fa, split-eq_of_Free dollar b fb)

has_prefix-header : (t : Text) → has_prefix (hash_header ++ t) (codes "$argon2id$") ≡ true
unfolding has_prefix
has_prefix-header t = refl

-- A stored key is told apart from a legacy plaintext one by its prefix.
pub hash_api_key-is_hashed_key :
    (h : Hashing) (salt : Option Text) (plaintext stored : Text)
    → hash_api_key h salt plaintext ≡ ok stored
    → is_hashed_key stored ≡ true
unfolding is_hashed_key hash_api_key
hash_api_key-is_hashed_key h none plaintext stored e = cc
hash_api_key-is_hashed_key h (some salt) plaintext stored e =
    let hash = h.argon2 plaintext salt argon_time argon_memory argon_threads argon_key_len in
    ground (arith, has_prefix-header (h.encode salt ++ dollar ∷ h.encode hash))

-- With a salt, hashing does not fail.
pub hash_api_key-some :
    (h : Hashing) (salt plaintext : Text)
    → (stored : Text) × (hash_api_key h (some salt) plaintext ≡ ok stored)
unfolding hash_api_key
hash_api_key-some h salt plaintext = (_, refl)

module _ (h : Hashing) (laws : HashingLaws h) where
  verify_parts-hashed :
      (plaintext salt : Text)
      → let hash = h.argon2 plaintext salt argon_time argon_memory argon_threads argon_key_len in
        verify_parts h plaintext (
          []
          ∷ codes "argon2id"
          ∷ codes "v=19"
          ∷ codes "m=65536,t=2,p=2"
          ∷ h.encode salt
          ∷ h.encode hash
          ∷ [])
        ≡ ok true
  unfolding verify_parts
  verify_parts-hashed plaintext salt =
      let hash = h.argon2 plaintext salt argon_time argon_memory argon_threads argon_key_len in
      ground (
        arith,
        text_eq_refl (codes "argon2id"),
        laws.scan_header,
        laws.scan_costs,
        laws.decode-encode salt,
        laws.decode-encode hash,
        laws.argon2_length plaintext salt argon_time argon_memory argon_threads argon_key_len,
        text_eq_refl hash,
      )

  -- With a hashing that keeps its laws, a key verifies against what hashing it stored, whatever
  -- the salt was.
  pub verify_api_key-hash :
      (salt : Option Text) (plaintext stored : Text)
      → hash_api_key h salt plaintext ≡ ok stored
      → verify_api_key h plaintext stored ≡ ok true
  unfolding verify_api_key hash_api_key
  verify_api_key-hash none plaintext stored e = cc
  verify_api_key-hash (some salt) plaintext stored e =
      let hash = h.argon2 plaintext salt argon_time argon_memory argon_threads argon_key_len in
      ground (
        arith,
        split-stored (h.encode salt) (h.encode hash) (laws.encode-Free salt)
            (laws.encode-Free hash),
        verify_parts-hashed plaintext salt,
      )
