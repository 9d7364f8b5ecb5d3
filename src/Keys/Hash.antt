-- ===== src/Keys/Hash.antt =====
-- core/keys/hash.go: the stored form of an API key, $argon2id$v=19$m=65536,t=2,p=2$salt$hash, and
-- its fingerprint. Argon2, HMAC-SHA-256, base64, the random salt and fmt.Sscanf are parameters.
pub mod Laws
use sovereignstack.Prelude.{
  ℕ, Bool, true, false, List, [], ◌∷◌, ◌++◌, Option, none, some, ◌==◌, if◌then◌else◌, length,
  Result, ok, err,
}
use sovereignstack.Text.{Text, codes, has_prefix, text_eq}
use sovereignstack.Text.Split.{split}
use sovereignstack.Keys.Profile.{KeyError, bad_hash, no_salt}

pub record Hashing : Type 0 where
  -- argon2.IDKey(plaintext, salt, time, memory, threads, keyLen)
  pub argon2 : Text → Text → ℕ → ℕ → ℕ → ℕ → Text
  -- base64.RawStdEncoding
  pub encode : Text → Text
  pub decode : Text → Option Text
  -- fmt.Sscanf(s, "v=%d", …)
  pub scan_version : Text → Option ℕ
  -- fmt.Sscanf(s, "m=%d,t=%d,p=%d", …): memory, time and threads
  pub scan_params : Text → Option (ℕ × ℕ × ℕ)
  -- the first 8 bytes of HMAC-SHA-256 under the index secret
  pub mac : Text → Text

abbrev pub argon_version : ℕ
argon_version = 19

abbrev pub argon_time : ℕ
argon_time = 2

abbrev pub argon_memory : ℕ
argon_memory = 65536

abbrev pub argon_threads : ℕ
argon_threads = 2

abbrev pub argon_key_len : ℕ
argon_key_len = 32

-- the byte '$'
abbrev pub dollar : ℕ
dollar = 36

-- what fmt.Sprintf writes before the salt
abbrev pub hash_header : Text
hash_header = codes "$argon2id$v=19$m=65536,t=2,p=2$"

-- `salt` is what rand.Read filled in, or `none` for its failure.
unfoldable pub hash_api_key : Hashing → Option Text → Text → Result KeyError Text
hash_api_key h none plaintext = err no_salt
hash_api_key h (some salt) plaintext =
    let hash = h.argon2 plaintext salt argon_time argon_memory argon_threads argon_key_len in
    ok (hash_header ++ h.encode salt ++ dollar ∷ h.encode hash)

-- the comparison of the two digests
compare_digest : Hashing → Text → ℕ × ℕ × ℕ → Text → Text → Bool
compare_digest h plaintext (memory, time, threads) salt want =
    text_eq (h.argon2 plaintext salt time memory threads (length want)) want

verify_fields : Hashing → Text → Text → Text → Text → Text → Result KeyError Bool
unfolding compare_digest
verify_fields h plaintext version params salt hash = elim (h.scan_version version) [
  | none ↦ err bad_hash
  | some v ↦
      if v == argon_version
      then elim (h.scan_params params) [
        | none ↦ err bad_hash
        | some p ↦ elim (h.decode salt) [
          | none ↦ err bad_hash
          | some s ↦ elim (h.decode hash) [
            | none ↦ err bad_hash
            | some want ↦ ok (compare_digest h plaintext p s want)
          ]
        ]
      ]
      else err bad_hash
]

verify_parts : Hashing → Text → List Text → Result KeyError Bool
unfolding verify_fields
verify_parts h plaintext (_ ∷ name ∷ version ∷ params ∷ salt ∷ hash ∷ []) =
    if text_eq name (codes "argon2id")
    then verify_fields h plaintext version params salt hash
    else err bad_hash
verify_parts h plaintext _ = err bad_hash

unfoldable pub verify_api_key : Hashing → Text → Text → Result KeyError Bool
unfolding verify_parts
verify_api_key h plaintext stored = verify_parts h plaintext (split dollar stored)

unfoldable pub is_hashed_key : Text → Bool
is_hashed_key s = has_prefix s (codes "$argon2id$")

unfoldable pub key_index : Hashing → Text → Text
key_index h plaintext = h.encode (h.mac plaintext)
