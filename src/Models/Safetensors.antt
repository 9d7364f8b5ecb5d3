-- ===== src/Models/Safetensors.antt =====
-- `validateSafetensorsFile` of core/model/manager.go.
use sovereignstack.Prelude.{
  ℕ, zero, suc, ◌+◌, ◌*◌, ◌≤◌, ◌≡◌, ◌↔◌, refl, Bool, true, not, ◌||◌, ◌==◌, List, [], ◌∷◌, arith,
  ltb, if◌then◌else◌, length, take, drop, Result, ok, err, length-drop,
}

-- a file as the check sees it: whether it opens and is described, its size, and what reading it yields
pub record ModelFile : Type 0 where
  pub opens : Bool
  pub stats : Bool
  pub size : ℕ
  pub contents : List ℕ

pub data SafetensorsError : Type 0 where
  cannot_open cannot_stat too_small no_header_size invalid_header_size incomplete short_header :
      SafetensorsError

-- binary.LittleEndian.Uint64
unfoldable pub little_endian : List ℕ → ℕ
little_endian [] = 0
little_endian (b ∷ bytes) = b + 256 * little_endian bytes

-- 100 MiB
abbrev pub max_header : ℕ
max_header = 1024 * 1024 * 100

-- the header's size, in the first eight bytes
abbrev pub header_size : ModelFile → ℕ
header_size file = little_endian (take 8 file.contents)

unfoldable pub validate_safetensors_file : ModelFile → Result SafetensorsError (Unit {0})
validate_safetensors_file file =
    if not file.opens
    then err cannot_open
    else if not file.stats
    then err cannot_stat
    else if ltb file.size 8
    then err too_small
    else if ltb (length (take 8 file.contents)) 8
    then err no_header_size
    else let n = header_size file in
      if (n == 0) || ltb max_header n
      then err invalid_header_size
      else if ltb file.size (8 + n)
      then err incomplete
      else if ltb (length (take n (drop 8 file.contents))) n
      then err short_header
      else ok tt

length-take : {A : Type 0} (n : ℕ) (xs : List A) → n ≤ length xs → length (take n xs) ≡ n
length-take zero xs h = refl
length-take (suc n) [] h = absurd (omega (arith, h))
length-take (suc n) (x ∷ xs) h = omega (arith, length-take n xs (omega (arith, h)))

-- A file that can be read to its size passes exactly when its first eight bytes announce a header of
-- one byte to 100 MiB that ends within the file.
pub validate_safetensors_file_iff :
    (file : ModelFile)
    → file.opens ≡ true
    → file.stats ≡ true
    → file.size ≡ length file.contents
    → (validate_safetensors_file file ≡ ok tt) ↔ (
        (1 ≤ header_size file)
        × (header_size file ≤ max_header)
        × (8 + header_size file ≤ file.size))
unfolding validate_safetensors_file
validate_safetensors_file_iff file opens stats whole = (
  λ passed. ground (arith, opens, stats),
  λ (some_header, small, fits).
      let first : length (take 8 file.contents) ≡ 8 =
        length-take 8 file.contents (omega (arith, fits, whole)) in
      let rest : length (take (header_size file) (drop 8 file.contents)) ≡ header_size file =
        length-take (header_size file) (drop 8 file.contents)
          (omega (arith, fits, whole, length-drop 8 file.contents)) in
      ground (arith, opens, stats, first, rest, some_header, small, fits),
)
