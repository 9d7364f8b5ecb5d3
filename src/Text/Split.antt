-- ===== src/Text/Split.antt =====
-- strings.Split at one byte, and strings.Join.
use sovereignstack.Prelude.{
  ℕ, ◌≡◌, refl, false, List, [], ◌∷◌, ◌++◌, arith, ◌==◌, if◌then◌else◌, All,
}
use sovereignstack.Text.{Text}

cons_head : ℕ → List Text → List Text
cons_head c [] = (c ∷ []) ∷ []
cons_head c (x ∷ xs) = (c ∷ x) ∷ xs

-- strings.Split(s, string(b)): never empty.
unfoldable pub split : ℕ → Text → List Text
unfolding cons_head
split b [] = [] ∷ []
split b (c ∷ s) = let rest = split b s in if c == b then [] ∷ rest else cons_head c rest

-- strings.Join(parts, string(b))
unfoldable pub join : ℕ → List Text → Text
join b [] = []
join b (x ∷ []) = x
join b (x ∷ y ∷ xs) = x ++ b ∷ join b (y ∷ xs)

-- The byte `b` does not occur in the text.
abbrev pub Free : ℕ → Text → Type 0
Free b = All (λ c. (c == b) ≡ false)

pub split-append : (b : ℕ) (p s : Text) → Free b p → split b (p ++ b ∷ s) ≡ p ∷ split b s
unfolding split
split-append b [] s h = ground arith
split-append b (c ∷ p) s h = ground (arith, split-append b p s h.1)

pub split-eq_of_Free : (b : ℕ) (p : Text) → Free b p → split b p ≡ p ∷ []
unfolding split
split-eq_of_Free b [] h = refl
split-eq_of_Free b (c ∷ p) h = ground (arith, split-eq_of_Free b p h.1)

-- Splitting undoes joining, where no part holds the separator.
pub split-join :
    (b : ℕ) (x : Text) (xs : List Text) → All (Free b) (x ∷ xs) → split b (join b (x ∷ xs)) ≡ x ∷ xs
unfolding join
split-join b x [] h = split-eq_of_Free b x h.0
split-join b x (y ∷ xs) h = cc (split-append b x (join b (y ∷ xs)) h.0, split-join b y xs h.1)

pub join-cons :
    (b : ℕ) (x : Text) (ys : List Text) (z : Text) (zs : List Text)
    → join b (x ∷ (ys ++ z ∷ zs)) ≡ x ++ b ∷ join b (ys ++ z ∷ zs)
unfolding join
join-cons b x [] z zs = refl
join-cons b x (y ∷ ys) z zs = refl

pub split-join_routed :
    (b : ℕ) (ys : List Text) (z : Text) (zs : List Text)
    → All (Free b) (ys ++ z ∷ zs)
    → split b (join b (ys ++ z ∷ zs)) ≡ ys ++ z ∷ zs
split-join_routed b [] z zs h = split-join b z zs h
split-join_routed b (y ∷ ys) z zs h = split-join b y (ys ++ z ∷ zs) h
