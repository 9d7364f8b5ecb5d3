-- ===== src/Crypto.antt =====
-- core/crypto/crypto.go: the storage format of an encrypted field. AES-256-GCM, the random source
-- and base64 are parameters; `MasterKey` is the file of the key.
pub mod Laws
pub mod MasterKey
mod Examples
use sovereignstack.Prelude.{
  ℕ, Bool, true, false, List, [], ◌++◌, Option, none, some, ◌==◌, ltb, if◌then◌else◌, length, take,
  drop, is_empty, Result, ok, err,
}
use sovereignstack.Text.{Text, codes, has_prefix, trim_prefix}

pub data CryptoError : Type 0 where
  wrong_key_length no_randomness bad_base64 too_short open_failed : CryptoError

-- crypto/aes with crypto/cipher, crypto/rand and encoding/base64
pub record Cipher : Type 0 where
  -- gcm.Seal(nil, nonce, plaintext, nil) under a key
  pub seal : Text → Text → Text → Text
  -- gcm.Open(nil, nonce, ciphertext, nil) under a key
  pub open_sealed : Text → Text → Text → Option Text
  -- the nonce that the n-th rand.Read fills in, or its failure
  pub nonce : ℕ → Option Text
  pub encode : Text → Text
  pub decode : Text → Option Text

abbrev pub enc_prefix : Text
enc_prefix = codes "$enc1$"

abbrev pub master_key_len : ℕ
master_key_len = 32

abbrev pub nonce_size : ℕ
nonce_size = 12

-- with the n-th nonce
unfoldable pub encrypt : Cipher → ℕ → Text → Text → Result CryptoError Text
encrypt c n master_key plaintext =
    if is_empty plaintext
    then ok []
    else if length master_key == master_key_len
    then elim (c.nonce n) [
      | none ↦ err no_randomness
      | some nonce ↦ ok (enc_prefix ++ c.encode (nonce ++ c.seal master_key nonce plaintext))
    ]
    else err wrong_key_length

open_raw : Cipher → Text → Text → Result CryptoError Text
open_raw c master_key raw =
    if ltb (length raw) nonce_size
    then err too_short
    else elim (c.open_sealed master_key (take nonce_size raw) (drop nonce_size raw)) [
      | none ↦ err open_failed
      | some plaintext ↦ ok plaintext
    ]

unfoldable pub decrypt : Cipher → Text → Text → Result CryptoError Text
unfolding open_raw
decrypt c master_key stored =
    if has_prefix stored enc_prefix
    then if length master_key == master_key_len
      then elim (c.decode (trim_prefix stored enc_prefix)) [
        | none ↦ err bad_base64
        | some raw ↦ open_raw c master_key raw
      ]
      else err wrong_key_length
    else ok stored

unfoldable pub is_encrypted : Text → Bool
is_encrypted stored = has_prefix stored enc_prefix
