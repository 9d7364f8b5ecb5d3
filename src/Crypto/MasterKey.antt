-- ===== src/Crypto/MasterKey.antt =====
-- `LoadOrCreateMasterKey` of core/crypto/crypto.go: the file of the master key, made at the first
-- start. The operating system, filepath and the random source are parameters.
pub mod Stable
use sovereignstack.Prelude.{
  Bool, true, false, [], ◌∷◌, ◌++◌, Option, none, some, ◌==◌, if◌then◌else◌, length, drop, Result,
  ok, err,
}
use sovereignstack.Text.{Text, codes, has_prefix}
use sovereignstack.Text.Trim.{trim_space}
use sovereignstack.Dict.{Dict, get, put}
use sovereignstack.Crypto.{Cipher, master_key_len}

pub data MasterKeyError : Type 0 where
  no_home bad_base64 wrong_length unreadable no_directory no_randomness unwritable : MasterKeyError

-- What the operating system decides in one call.
pub record Os : Type 0 where
  -- os.UserHomeDir and filepath.Join
  pub home : Option Text
  pub join : Text → Text → Text
  -- whether os.ReadFile reads the file or says that there is none, and os.MkdirAll, which leaves the
  -- files as they are
  pub readable : Bool
  pub makes_directory : Bool
  -- the 32 bytes that rand.Read fills in, or its failure
  pub random : Option Text
  -- os.WriteFile, and what it leaves of the file where it fails
  pub writes : Bool
  pub partial : Text → Option Text

-- the files by their paths
abbrev pub Files : Type 0
Files = Dict Text

unfoldable pub expand_home : Os → Text → Option Text
expand_home os path =
    if has_prefix path (codes "~/")
    then elim os.home [ none ↦ none | some home ↦ some (os.join home (drop 2 path)) ]
    else some path

unfoldable pub decode_master_key : Cipher → Text → Result MasterKeyError Text
decode_master_key c bytes = elim (c.decode (trim_space bytes)) [
  | none ↦ err bad_base64
  | some key ↦ if length key == master_key_len then ok key else err wrong_length
]

unfoldable pub create_master_key : Cipher → Os → Text → Files → Result MasterKeyError Text × Files
create_master_key c os path files =
    if os.makes_directory
    then elim os.random [
      | none ↦ (err no_randomness, files)
      | some key ↦
          let line = c.encode key ++ (10 ∷ []) in
          if os.writes then (ok key, put files path line) else elim (os.partial line) [
            | none ↦ (err unwritable, files)
            | some left ↦ (err unwritable, put files path left)
          ]
    ]
    else (err no_directory, files)

unfoldable pub master_key_at : Cipher → Os → Text → Files → Result MasterKeyError Text × Files
unfolding decode_master_key create_master_key
master_key_at c os path files =
    if os.readable
    then elim (get files path) [
      | none ↦ create_master_key c os path files
      | some bytes ↦ (decode_master_key c bytes, files)
    ]
    else (err unreadable, files)

unfoldable pub load_or_create_master_key :
    Cipher → Os → Text → Files → Result MasterKeyError Text × Files
unfolding expand_home master_key_at
load_or_create_master_key c os path files = elim (expand_home os path) [
  | none ↦ (err no_home, files)
  | some at ↦ master_key_at c os at files
]
