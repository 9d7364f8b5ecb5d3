-- ===== src/Crypto/Laws.antt =====
-- What the storage format of crypto.go promises.
use mathlib.Core.Path.{subst}
use sovereignstack.Prelude.{
  ℕ, ◌≡◌, ◌≢◌, refl, true, false, [], ◌∷◌, ◌++◌, some, arith, length, take, drop, length-append, ok,
  inl, inr, Option-cases,
}
use sovereignstack.Text.{Text, has_prefix, has_prefix-append, trim_prefix-append}
use sovereignstack.Crypto.{
  Cipher, enc_prefix, encrypt, decrypt, open_raw, is_encrypted, nonce_size, master_key_len,
}

-- The documented behaviour of GCM and base64: opening undoes sealing, decoding undoes encoding, and
-- a nonce has its 12 bytes.
pub record CipherLaws (c : Cipher) : Type 0 where
  pub open-seal : (key nonce p : Text) → c.open_sealed key nonce (c.seal key nonce p) ≡ some p
  pub decode-encode : (t : Text) → c.decode (c.encode t) ≡ some t
  pub nonce_length : (i : ℕ) (n : Text) → c.nonce i ≡ some n → length n ≡ nonce_size

take-append_self : (a b : Text) → take (length a) (a ++ b) ≡ a
take-append_self [] b = refl
take-append_self (x ∷ a) b = cc (take-append_self a b)

drop-append_self : (a b : Text) → drop (length a) (a ++ b) ≡ b
drop-append_self [] b = refl
drop-append_self (x ∷ a) b = drop-append_self a b

has_prefix-nil : has_prefix [] enc_prefix ≡ false
unfolding has_prefix
has_prefix-nil = refl

open_raw-seal :
    (c : Cipher) (laws : CipherLaws c) (key n p : Text)
    → length n ≡ nonce_size
    → open_raw c key (n ++ c.seal key n p) ≡ ok p
unfolding open_raw
open_raw-seal c laws key n p h =
    let s = c.seal key n p in
    ground (
      arith,
      length-append {0} n s,
      subst (λ k. take k (n ++ s) ≡ n) h (take-append_self n s),
      subst (λ k. drop k (n ++ s) ≡ s) h (drop-append_self n s),
      laws.open-seal key n p,
    )

-- With a cipher and an encoding that keep their laws, decrypting what was encrypted under the same
-- 32-byte master key gives the field back, whatever the field holds.
pub decrypt-encrypt :
    (c : Cipher) (laws : CipherLaws c) (i : ℕ) (key p stored : Text)
    → length key ≡ master_key_len
    → encrypt c i key p ≡ ok stored
    → decrypt c key stored ≡ ok p
unfolding encrypt decrypt
decrypt-encrypt c laws i key [] stored hk e = ground (arith, has_prefix-nil)
decrypt-encrypt c laws i key (x ∷ p) stored hk e = elim (Option-cases (c.nonce i)) [
  | inl e₁ ↦ ground arith
  | inr (n, some_n) ↦ ground (
    arith,
    has_prefix-append enc_prefix (c.encode (n ++ c.seal key n (x ∷ p))),
    trim_prefix-append enc_prefix (c.encode (n ++ c.seal key n (x ∷ p))),
    laws.decode-encode (n ++ c.seal key n (x ∷ p)),
    open_raw-seal c laws key n (x ∷ p) (laws.nonce_length i n some_n),
  )
]

-- What encryption returns for a field that is not empty is recognised as encrypted, so a second
-- pass leaves it alone.
pub encrypt-is_encrypted :
    (c : Cipher) (i : ℕ) (key p stored : Text)
    → p ≢ []
    → encrypt c i key p ≡ ok stored
    → is_encrypted stored ≡ true
unfolding encrypt is_encrypted
encrypt-is_encrypted c i key [] stored ne e = absurd (ne refl)
encrypt-is_encrypted c i key (x ∷ p) stored ne e = elim (Option-cases (c.nonce i)) [
  | inl e₁ ↦ ground arith
  | inr (n, some_n) ↦
      ground (arith, has_prefix-append enc_prefix (c.encode (n ++ c.seal key n (x ∷ p))))
]
