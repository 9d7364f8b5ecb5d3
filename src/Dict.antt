-- ===== src/Dict.antt =====
-- Go's maps with string keys, as association lists: `m[k]`, `m[k] = v`, `delete(m, k)`, `len(m)`
-- and `range`. An iteration visits the entries in the list's order; a theorem over every list is
-- one for every order of iteration.
use sovereignstack.Prelude.{
  ◌≡◌, ◌≢◌, refl, ap, ◌∙◌, List, [], ◌∷◌, Option, none, some, arith, if◌then◌else◌,
}
use sovereignstack.Text.{Text, text_eq, text_eq_iff, text_eq_refl}

abbrev pub Dict {ℓ} : Type ℓ → Type ℓ
Dict V = List (Text × V)

module _ {ℓ} {V : Type ℓ} where
  unfoldable pub get : Dict V → Text → Option V
  get [] k = none
  get ((j, v) ∷ d) k = if text_eq j k then some v else get d k

  unfoldable pub remove : Dict V → Text → Dict V
  remove [] k = []
  remove ((j, v) ∷ d) k = let rest = remove d k in if text_eq j k then rest else (j, v) ∷ rest

  -- m[k] = v, in place where the key is there
  unfoldable pub put : Dict V → Text → V → Dict V
  put [] k v = (k, v) ∷ []
  put ((j, w) ∷ d) k v = let rest = put d k v in if text_eq j k then (j, v) ∷ d else (j, w) ∷ rest

  pub get-remove :
      (d : Dict V) (k j : Text) → get (remove d k) j ≡ (if text_eq k j then none else get d j)
  unfolding get remove
  get-remove [] k j = ground arith
  get-remove ((i, v) ∷ d) k j =
      ground (arith, get-remove d k j, text_eq_iff i k, text_eq_iff i j, text_eq_iff k j)

  pub get-put :
      (d : Dict V) (k : Text) (v : V) (j : Text)
      → get (put d k v) j ≡ (if text_eq k j then some v else get d j)
  unfolding get put
  get-put [] k v j = refl
  get-put ((i, w) ∷ d) k v j =
      ground (arith, get-put d k v j, text_eq_iff i k, text_eq_iff i j, text_eq_iff k j)

  pub get-put_ne : (d : Dict V) (k : Text) (v : V) (j : Text) → k ≢ j → get (put d k v) j ≡ get d j
  get-put_ne d k v j ne = rw get-put (ground (arith, text_eq_iff k j))

  pub get-put_self : (d : Dict V) (k : Text) (v : V) → get (put d k v) k ≡ some v
  get-put_self d k v = get-put d k v k ∙ ap (λ b. if b then some v else get d k) (text_eq_refl k)

  pub get-remove_self : (d : Dict V) (k : Text) → get (remove d k) k ≡ none
  get-remove_self d k = get-remove d k k ∙ ap (λ b. if b then none else get d k) (text_eq_refl k)

  pub get-remove_ne : (d : Dict V) (k j : Text) → k ≢ j → get (remove d k) j ≡ get d j
  get-remove_ne d k j ne = rw get-remove (ground (arith, text_eq_iff k j))

pub get-empty {ℓ} : {V : Type ℓ} (k : Text) → get {V = V} [] k ≡ none
unfolding get
get-empty k = refl

pub ruleset dict_laws = (get-empty, get-remove, get-put)
