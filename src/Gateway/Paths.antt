-- ===== src/Gateway/Paths.antt =====
-- The path functions of core/gateway/proxy.go.
pub mod Extract
pub mod Strip
use sovereignstack.Prelude.{
  ℕ, Bool, true, false, not, ◌&&◌, List, [], ◌∷◌, ◌++◌, Option, none, some, ◌==◌, if◌then◌else◌,
  is_empty,
}
use sovereignstack.Text.{Text, codes, text_eq, has_prefix, trim_prefix}
use sovereignstack.Text.Split.{split}
use sovereignstack.Text.Trim.{cut, has_suffix}

-- the byte '/'
abbrev pub slash : ℕ
slash = 47

abbrev pub models_part : Text
models_part = codes "models"

-- The loop of `extractModelNameFromPath`: the part behind a "models", if it is not empty and
-- another part follows it.
unfoldable pub find_model : List Text → Text
find_model (part ∷ name ∷ next ∷ parts) =
    let rest = find_model (name ∷ next ∷ parts) in
    if text_eq part models_part && not (is_empty name) then name else rest
find_model (part ∷ name ∷ []) = []
find_model (part ∷ []) = []
find_model [] = []

unfoldable pub extract_model_name_from_path : Text → Text
unfolding find_model
extract_model_name_from_path path = find_model (split slash (trim_prefix path (slash ∷ [])))

-- the text ends here, or a '/' follows
abbrev pub at_boundary : Text → Bool
at_boundary [] = true
at_boundary (c ∷ s) = c == slash

abbrev pub with_slash : Text → Text
with_slash [] = slash ∷ []
with_slash (c ∷ s) = if c == slash then c ∷ s else slash ∷ c ∷ s

-- what is left of a path that was cut at the segment
abbrev pub strip_cut : Text → Option (Text × Text) → Text
strip_cut path none = path
strip_cut path (some p) = if at_boundary p.1 then with_slash (p.0 ++ p.1) else path

unfoldable pub strip_model_prefix_from_path : Text → Text → Text
strip_model_prefix_from_path path model_name =
    strip_cut path (cut (codes "/models/" ++ model_name) path)

unfoldable pub single_joining_slash : Text → Text → Text
single_joining_slash a b =
    let aslash = has_suffix a (slash ∷ []) in
    let bslash = has_prefix b (slash ∷ []) in
    if aslash && bslash
    then a ++ trim_prefix b (slash ∷ [])
    else if not aslash && not bslash
    then a ++ slash ∷ b
    else a ++ b
