-- ===== src/Prelude/Lists.antt =====
-- Lists measured and cut by native numbers, and a predicate on all members.
use Prim.Native.Nat.{ℕ, zero, suc, ◌+◌, ◌-◌}
use mathlib.Core.Path.{◌≡◌, refl, ap}
use mathlib.Core.Bool.{Bool, true, false, ◌||◌}
use mathlib.Core.List.{List, [], ◌∷◌, ◌++◌}
use mathlib.Core.Option.{Option, none, some}
use native.Mathlib.Omega.{arith}

module _ {ℓ} {A : Type ℓ} where
  abbrev pub length : List A → ℕ
  length [] = 0
  length (x ∷ xs) = suc (length xs)

  abbrev pub get_elem? : List A → ℕ → Option A
  get_elem? [] i = none
  get_elem? (x ∷ xs) zero = some x
  get_elem? (x ∷ xs) (suc i) = get_elem? xs i

  abbrev pub take : ℕ → List A → List A
  take zero xs = []
  take (suc n) [] = []
  take (suc n) (x ∷ xs) = x ∷ take n xs

  abbrev pub drop : ℕ → List A → List A
  drop zero xs = xs
  drop (suc n) [] = []
  drop (suc n) (x ∷ xs) = drop n xs

  abbrev pub is_empty : List A → Bool
  is_empty [] = true
  is_empty (x ∷ xs) = false

  -- Does some member pass the test?
  abbrev pub any : (A → Bool) → List A → Bool
  any p [] = false
  any p (x ∷ xs) = p x || any p xs

  -- The members that pass the test, in their order.
  abbrev pub keep : (A → Bool) → List A → List A
  keep p [] = []
  keep p (x ∷ xs) = let rest = keep p xs in elim (p x) [ true ↦ x ∷ rest | false ↦ rest ]

  pub length-append : (xs ys : List A) → length (xs ++ ys) ≡ length xs + length ys
  length-append [] ys = omega arith
  length-append (x ∷ xs) ys = omega (arith, length-append xs ys)

  pub length-drop : (n : ℕ) (xs : List A) → length (drop n xs) ≡ length xs - n
  length-drop zero xs = omega arith
  length-drop (suc n) [] = omega arith
  length-drop (suc n) (x ∷ xs) = omega (arith, length-drop n xs)

abbrev pub All {ℓ κ} : {A : Type ℓ} → (A → Type κ) → List A → Type κ
All P [] = Unit
All P (x ∷ xs) = P x × All P xs

pub append-cancel {ℓ} : {A : Type ℓ} (p xs ys : List A) → p ++ xs ≡ p ++ ys → xs ≡ ys
append-cancel [] xs ys e = e
append-cancel (x ∷ p) xs ys e = append-cancel p xs ys cc

-- Where the ends of two equal lists are as long as each other, the parts are equal.
pub append-injective {ℓ} :
    {A : Type ℓ} (xs ys p q : List A)
    → length p ≡ length q
    → xs ++ p ≡ ys ++ q
    → (xs ≡ ys) × (p ≡ q)
append-injective [] [] p q same e = (refl, e)
append-injective [] (y ∷ ys) p q same e =
    absurd (omega (arith, same, ap length e, length-append ys q))
append-injective (x ∷ xs) [] p q same e =
    absurd (omega (arith, same, ap length e, length-append xs p))
append-injective (x ∷ xs) (y ∷ ys) p q same e =
    let tails : xs ++ p ≡ ys ++ q = cc in
    let heads : x ≡ y = cc in
    let (fronts, ends) = append-injective xs ys p q same tails in (cc (heads, fronts), ends)
