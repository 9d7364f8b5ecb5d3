-- ===== src/Audit/Jsonl/Paths.antt =====
-- The paths of the daily files and of their compressed forms are different.
use sovereignstack.Prelude.{
  ℕ, ◌≡◌, ◌≢◌, refl, ap, sym, ◌∙◌, ◌++◌, ◌∷◌, [], arith, append-cancel, append-injective,
}
use mathlib.Core.List.{append_assoc}
use sovereignstack.Text.{Text, codes}
use sovereignstack.Audit.Jsonl.{path_of, gz}

module _ (dir_path d day : Text) where
  pub path_of-injective : path_of dir_path d ≡ path_of dir_path day → d ≡ day
  path_of-injective e =
      let rest = append-cancel (codes "audit-") _ _ (append-cancel dir_path _ _ e) in
      (append-injective d day (codes ".jsonl") (codes ".jsonl") refl rest).0

  pub gz-injective : gz (path_of dir_path d) ≡ gz (path_of dir_path day) → d ≡ day
  gz-injective e =
      path_of-injective
        (append-injective (path_of dir_path d) (path_of dir_path day) (codes ".gz") (codes ".gz")
          refl e).0

-- A path of a day, with its last three bytes set apart.
path_of-split :
    (dir_path day : Text)
    → (dir_path ++ (codes "audit-" ++ (day ++ codes ".js"))) ++ codes "onl" ≡ path_of dir_path day
path_of-split dir_path day =
    append_assoc dir_path (codes "audit-" ++ (day ++ codes ".js")) (codes "onl")
    ∙ ap (λ t. dir_path ++ (codes "audit-" ++ t)) (append_assoc day (codes ".js") (codes "onl"))

abbrev head_or_zero : Text → ℕ
head_or_zero [] = 0
head_or_zero (b ∷ t) = b

pub gz-ne-path_of : (dir_path d day : Text) → gz (path_of dir_path d) ≢ path_of dir_path day
gz-ne-path_of dir_path d day e =
    let (_, ends) =
      append-injective (path_of dir_path d) (dir_path ++ (codes "audit-" ++ (day ++ codes ".js")))
        (codes ".gz") (codes "onl") refl (e ∙ sym (path_of-split dir_path day)) in
    let heads : 46 ≡ 111 = ap head_or_zero ends in absurd (omega (arith, heads))
