-- ===== src/Gateway/Paths/Extract.antt =====
-- The model name that is read out of a routed path.
use sovereignstack.Prelude.{◌≡◌, refl, false, List, [], ◌∷◌, ◌++◌, arith, is_empty, All}
use sovereignstack.Text.{Text, text_eq, text_eq_refl, trim_prefix-append}
use sovereignstack.Text.Split.{join, Free, split-join_routed}
use sovereignstack.Gateway.Paths.{slash, models_part, find_model, extract_model_name_from_path}

-- A part of a path before the routing directive.
abbrev pub IsPlain : Text → Type 0
IsPlain p = Free slash p × (text_eq p models_part ≡ false)

-- The parts of a routed path: parts before the directive, the directive, at least one part after.
abbrev pub routed : List Text → Text → Text → List Text → List Text
routed before name next parts = before ++ models_part ∷ name ∷ next ∷ parts

find_model-routed :
    (before : List Text) (name next : Text) (parts : List Text)
    → All IsPlain before
    → is_empty name ≡ false
    → find_model (routed before name next parts) ≡ name
unfolding find_model
find_model-routed [] name next parts h ne = rw (text_eq_refl models_part, ne)
find_model-routed (p ∷ []) name next parts h ne =
    ground (arith, find_model-routed [] name next parts tt ne)
find_model-routed (p ∷ q ∷ []) name next parts h ne =
    ground (arith, find_model-routed (q ∷ []) name next parts h.1 ne)
find_model-routed (p ∷ q ∷ r ∷ before) name next parts h ne =
    ground (arith, find_model-routed (q ∷ r ∷ before) name next parts h.1 ne)

All-routed :
    (before : List Text) (name next : Text) (parts : List Text)
    → All IsPlain before
    → Free slash name
    → All (Free slash) (next ∷ parts)
    → All (Free slash) (routed before name next parts)
All-routed [] name next parts h fn ft =
    ((refl, (refl, (refl, (refl, (refl, (refl, tt)))))), (fn, ft))
All-routed (p ∷ before) name next parts h fn ft =
    (h.0.0, All-routed before name next parts h.1 fn ft)

-- The name behind the first "models" of a routed path is the one extracted, if it is not empty and
-- at least one part follows it, whatever other parts stand before the directive and after it.
pub extract_model_name_from_path-routed :
    (before : List Text) (name next : Text) (parts : List Text)
    → All IsPlain before
    → is_empty name ≡ false
    → Free slash name
    → All (Free slash) (next ∷ parts)
    → extract_model_name_from_path (slash ∷ join slash (routed before name next parts)) ≡ name
unfolding extract_model_name_from_path
extract_model_name_from_path-routed before name next parts h ne fn ft =
    rw
      (
        trim_prefix-append (slash ∷ []) (join slash (routed before name next parts)),
        split-join_routed slash before models_part (name ∷ next ∷ parts)
            (All-routed before name next parts h fn ft),
      )
      (find_model-routed before name next parts h ne)
