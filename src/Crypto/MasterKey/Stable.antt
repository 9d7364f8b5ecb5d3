-- ===== src/Crypto/MasterKey/Stable.antt =====
-- A master key that was given out once is given out at every start behind it.
use sovereignstack.Prelude.{
  ◌≡◌, true, [], ◌∷◌, ◌++◌, none, some, arith, length, ok, inl, inr, Option-cases,
}
use sovereignstack.Text.{Text}
use sovereignstack.Text.Trim.{Trimmed, trim_space_line}
use sovereignstack.Dict.{get, get-put_self}
use sovereignstack.Crypto.{Cipher, master_key_len}
use sovereignstack.Crypto.Laws.{CipherLaws}
use sovereignstack.Crypto.MasterKey.{
  Os, Files, expand_home, decode_master_key, create_master_key, master_key_at,
  load_or_create_master_key,
}

-- rand.Read fills the 32 bytes of the key or fails.
abbrev pub FillsKey : Os → Type 0
FillsKey os = (key : Text) → os.random ≡ some key → length key ≡ master_key_len

module _ (c : Cipher) (laws : CipherLaws c) (spaceless : (t : Text) → Trimmed (c.encode t)) where
  decode_master_key_line :
      (key : Text)
      → length key ≡ master_key_len
      → decode_master_key c (c.encode key ++ (10 ∷ [])) ≡ ok key
  unfolding decode_master_key
  decode_master_key_line key long =
      ground (arith, trim_space_line (c.encode key) (spaceless key), laws.decode-encode key)

  decode_master_key-length :
      (bytes key : Text) → decode_master_key c bytes ≡ ok key → length key ≡ master_key_len
  unfolding decode_master_key
  decode_master_key-length bytes key h = ground arith

  create_master_key_again :
      (os later : Os) (path : Text) (files after : Files) (key : Text)
      → FillsKey os
      → later.readable ≡ true
      → create_master_key c os path files ≡ (ok key, after)
      → (master_key_at c later path after ≡ (ok key, after)) × (length key ≡ master_key_len)
  unfolding create_master_key master_key_at
  create_master_key_again os later path files after key fills readable first =
      elim (Option-cases os.random) [
        | inl failed ↦ absurd (ground arith)
        | inr (random, filled) ↦
            let line = c.encode random ++ (10 ∷ []) in
            let long : length random ≡ master_key_len = fills random filled in
            ground (arith, decode_master_key_line random long, get-put_self files path line)
      ]

  readable_first :
      (os : Os) (path : Text) (files after : Files) (key : Text)
      → master_key_at c os path files ≡ (ok key, after)
      → get files path ≡ none
      → create_master_key c os path files ≡ (ok key, after)
  unfolding master_key_at
  readable_first os path files after key first missing = ground arith

  master_key_at_again :
      (os later : Os) (path : Text) (files after : Files) (key : Text)
      → FillsKey os
      → later.readable ≡ true
      → master_key_at c os path files ≡ (ok key, after)
      → (master_key_at c later path after ≡ (ok key, after)) × (length key ≡ master_key_len)
  unfolding master_key_at
  master_key_at_again os later path files after key fills readable first =
      elim (Option-cases (get files path)) [
        | inl missing ↦
            create_master_key_again os later path files after key fills readable
              (readable_first os path files after key first missing)
        | inr (bytes, there) ↦ ground (arith, decode_master_key-length bytes key)
      ]

  -- The key that a start loads or makes has 32 bytes, and every later start that can read the file
  -- and has the same home gets the same key and changes no file. Decoding undoes encoding, an encoded
  -- text has no space at its ends, and the random source fills the key or fails.
  pub load_or_create_master_key_again :
      (os later : Os) (path : Text) (files after : Files) (key : Text)
      → FillsKey os
      → later.readable ≡ true
      → expand_home later path ≡ expand_home os path
      → load_or_create_master_key c os path files ≡ (ok key, after)
      → (load_or_create_master_key c later path after ≡ (ok key, after))
        × (length key ≡ master_key_len)
  unfolding load_or_create_master_key
  load_or_create_master_key_again os later path files after key fills readable home first =
      elim (Option-cases (expand_home os path)) [
        | inl nowhere ↦ absurd (ground arith)
        | inr (at, found) ↦
            let again =
              master_key_at_again os later at files after key fills readable (ground arith) in
            ground arith
      ]
