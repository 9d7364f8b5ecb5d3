-- ===== src/Gateway/Paths/Strip.antt =====
-- The path that is left when the routing directive is taken out.
use mathlib.Core.List.{append_assoc}
use sovereignstack.Prelude.{
  ℕ, ◌≡◌, refl, false, List, [], ◌∷◌, ◌++◌, Option, none, some, arith, All, ap, ◌∙◌,
}
use sovereignstack.Text.{Text, text_eq, after_prefix, after_prefix-append}
use sovereignstack.Text.Split.{join, Free, join-cons}
use sovereignstack.Text.Trim.{cut}
use sovereignstack.Gateway.Paths.{
  slash, models_part, strip_cut, with_slash, strip_model_prefix_from_path,
}
use sovereignstack.Gateway.Paths.Extract.{IsPlain, routed}

-- Two parts that differ do not begin alike, up to the '/' that ends them.
after_prefix-ne :
    (p q s x : Text)
    → Free slash p
    → Free slash q
    → text_eq p q ≡ false
    → after_prefix (p ++ slash ∷ s) (q ++ slash ∷ x) ≡ none
unfolding after_prefix text_eq
after_prefix-ne [] [] s x fp fq ne = cc
after_prefix-ne [] (d ∷ q) s x fp fq ne = ground arith
after_prefix-ne (c ∷ p) [] s x fp fq ne = ground arith
after_prefix-ne (c ∷ p) (d ∷ q) s x fp fq ne = ground (arith, after_prefix-ne p q s x fp.1 fq.1)

abbrev under_prefix : Text → Option (Text × Text) → Option (Text × Text)
under_prefix p none = none
under_prefix p (some r) = some (p ++ r.0, r.1)

-- No occurrence of a text that begins with '/' begins inside a part.
cut-skip :
    (x p s : Text) → Free slash p → cut (slash ∷ x) (p ++ s) ≡ under_prefix p (cut (slash ∷ x) s)
unfolding cut after_prefix
cut-skip x [] s fp = ground arith
cut-skip x (c ∷ p) s fp = ground (arith, cut-skip x p s fp.1)

-- the parts before the directive, each behind its '/'
abbrev lead : List Text → Text
lead [] = []
lead (p ∷ before) = slash ∷ (p ++ lead before)

cut-here :
    (sub s rest : Text) (c : ℕ)
    → after_prefix (c ∷ s) sub ≡ some rest
    → cut sub (c ∷ s) ≡ some ([], rest)
unfolding cut
cut-here sub s rest c h = ground arith

cut-next :
    (sub s : Text) (c : ℕ)
    → after_prefix (c ∷ s) sub ≡ none
    → cut sub (c ∷ s) ≡ under_prefix (c ∷ []) (cut sub s)
unfolding cut
cut-next sub s c h = ground arith

-- the directive and the name, without the first '/'
abbrev directive : Text → Text
directive name = models_part ++ slash ∷ name

other_part :
    (p name s : Text)
    → IsPlain p
    → after_prefix (slash ∷ (p ++ slash ∷ s)) (slash ∷ directive name) ≡ none
unfolding after_prefix
other_part p name s h =
    after_prefix-ne p models_part s name h.0 (refl, (refl, (refl, (refl, (refl, (refl, tt)))))) h.1

cut-routed :
    (before : List Text) (name next : Text) (parts : List Text)
    → All IsPlain before
    → cut (slash ∷ directive name) (slash ∷ join slash (routed before name next parts))
      ≡ some (lead before, slash ∷ join slash (next ∷ parts))
cut-routed [] name next parts h =
    unfold join in
    cut-here (slash ∷ directive name) (directive name ++ slash ∷ join slash (next ∷ parts))
      (slash ∷ join slash (next ∷ parts)) slash
      (after_prefix-append (slash ∷ directive name) (slash ∷ join slash (next ∷ parts)))
cut-routed (p ∷ before) name next parts h =
    let inner = join slash (routed before name next parts) in
    rw join-cons (
      cut-next (slash ∷ directive name) (p ++ slash ∷ inner) slash (other_part p name inner h.0)
      ∙ ap (under_prefix (slash ∷ [])) (
          cut-skip (directive name) p (slash ∷ inner) h.0.0
          ∙ ap (under_prefix p) (cut-routed before name next parts h.1)))

lead-join :
    (before : List Text) (next : Text) (parts : List Text)
    → lead before ++ slash ∷ join slash (next ∷ parts) ≡ slash ∷ join slash (before ++ next ∷ parts)
lead-join [] next parts = refl
lead-join (p ∷ before) next parts = rw join-cons (
    ap (λ t. slash ∷ t)
      (append_assoc p (lead before) (slash ∷ join slash (next ∷ parts))
        ∙ ap (λ t. p ++ t) (lead-join before next parts)))

-- Taking the directive out of a path that is routed by its first "models", with at least one part
-- behind the name, leaves the parts before it and the parts after it.
pub strip_model_prefix_from_path-routed :
    (before : List Text) (name next : Text) (parts : List Text)
    → All IsPlain before
    → strip_model_prefix_from_path (slash ∷ join slash (routed before name next parts)) name
      ≡ slash ∷ join slash (before ++ next ∷ parts)
unfolding strip_model_prefix_from_path
strip_model_prefix_from_path-routed before name next parts h =
    let path = slash ∷ join slash (routed before name next parts) in
    ap (strip_cut path) (cut-routed before name next parts h)
    ∙ ap with_slash (lead-join before next parts)
