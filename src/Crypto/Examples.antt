-- ===== src/Crypto/Examples.antt =====
-- The theorems of the master key's file at concrete inputs.
use mathlib.Core.List.{reverse, reverse-append, reverse-reverse}
use sovereignstack.Prelude.{
  zero, suc, arith, ◌≡◌, refl, ap, sym, ◌∙◌, true, false, [], ◌∷◌, ◌++◌, none, some, drop, length,
  ok,
}
use sovereignstack.Text.{Text, codes, has_prefix}
use sovereignstack.Text.Trim.{
  Trimmed, trim_left, trim_back, skip_spaces, space_length, space_length_back,
}
use sovereignstack.Dict.{get, put}
use sovereignstack.Crypto.{Cipher, master_key_len}
use sovereignstack.Crypto.Laws.{CipherLaws}
use sovereignstack.Crypto.MasterKey.{
  Os, Files, load_or_create_master_key, master_key_at, create_master_key, expand_home,
}
use sovereignstack.Crypto.MasterKey.Stable.{FillsKey, load_or_create_master_key_again}

abbrev twelve_bytes : Text
twelve_bytes = codes "twelve bytes"

-- an encoding that puts '$' around a text
abbrev bracket : Text → Text
bracket t = (36 ∷ t) ++ (36 ∷ [])

abbrev bracket_cipher : Cipher
bracket_cipher = record {
  seal = λ key nonce p. p;
  open_sealed = λ key nonce c. some c;
  nonce = λ i. some twelve_bytes;
  encode = bracket;
  decode = λ t. some (reverse (drop 1 (reverse (drop 1 t))));
}

some-length : (a n : Text) → some a ≡ some n → length a ≡ 12 → length n ≡ 12
some-length a n e h = cc

bracket_cipher-CipherLaws : CipherLaws bracket_cipher
bracket_cipher-CipherLaws = record {
  open-seal = λ key nonce p. refl;
  decode-encode = λ t.
      ap (λ y. some (reverse (drop 1 y))) (reverse-append t (36 ∷ []))
      ∙ ap some (reverse-reverse t);
  nonce_length = λ i n e. some-length twelve_bytes n e refl;
}

dollar_left : (u : Text) → trim_left (36 ∷ u) ≡ 36 ∷ u
unfolding trim_left skip_spaces space_length
dollar_left [] = refl
dollar_left (d ∷ []) = refl
dollar_left (d ∷ e ∷ u) = refl

no_space : (u : Text) → space_length_back (36 ∷ u) ≡ 0
unfolding space_length_back
no_space [] = refl
no_space (d ∷ []) = ground arith
no_space (d ∷ e ∷ u) = ground arith

dollar_back : (u : Text) → trim_back (36 ∷ u) ≡ 36 ∷ u
unfolding trim_back skip_spaces
dollar_back u =
    ap (λ k. elim k [ zero ↦ 36 ∷ u | suc j ↦ skip_spaces space_length_back j u ]) (no_space u)

bracket-Trimmed : (t : Text) → Trimmed (bracket t)
bracket-Trimmed t =
    let turned = reverse-append (36 ∷ t) (36 ∷ []) in
    (
      dollar_left (t ++ (36 ∷ [])),
      ap trim_back turned ∙ dollar_back (reverse (36 ∷ t)) ∙ sym turned,
    )

abbrev key_32 : Text
key_32 = codes "0123456789abcdef0123456789abcdef"

abbrev os : Os
os = record {
  home = some (codes "/root");
  join = λ a b. a ++ (47 ∷ b);
  readable = true;
  makes_directory = true;
  random = some key_32;
  writes = true;
  partial = λ line. none;
}

some-long : (key : Text) → some key_32 ≡ some key → length key_32 ≡ 32 → length key ≡ 32
some-long key e h = cc

os-FillsKey : FillsKey os
os-FillsKey key e = some-long key e refl

abbrev with_key : Files
with_key = (codes "/root/mk", bracket key_32 ++ (10 ∷ [])) ∷ []

-- the process that starts after the key was made can make none
abbrev later_os : Os
later_os = record os { random = none; writes = false; makes_directory = false }

load_or_create_master_key_again_example :
    (load_or_create_master_key bracket_cipher later_os (codes "~/mk") with_key
      ≡ (ok key_32, with_key))
    × (length key_32 ≡ master_key_len)
load_or_create_master_key_again_example =
    load_or_create_master_key_again bracket_cipher bracket_cipher-CipherLaws bracket-Trimmed os
      later_os (codes "~/mk") [] with_key key_32 os-FillsKey refl (unfold expand_home in refl)
      (unfold load_or_create_master_key expand_home master_key_at create_master_key get put
          has_prefix in
        refl)
