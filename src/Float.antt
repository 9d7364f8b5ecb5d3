-- ===== src/Float.antt =====
-- Go's float64, as far as the rate limiter and the admission controller use it: an abstract type
-- with its operations, and the laws of IEEE 754 that the properties rely on.
pub mod Fixed
pub mod Order
use sovereignstack.Prelude.{ℕ, suc, ◌≡◌, Bool, true, false, not, ◌&&◌}

pub record Float : Type 1 where
  pub F : Type 0
  -- the float of a natural number
  pub of_ℕ : ℕ → F
  -- the float nearest to a decimal literal p / q
  pub literal : ℕ → ℕ → F
  -- int(a) of an a that is not negative
  pub to_ℕ : F → ℕ
  pub add : F → F → F
  pub sub : F → F → F
  pub mul : F → F → F
  pub div : F → F → F
  -- a < b and a <= b
  pub lt : F → F → Bool
  pub le : F → F → Bool

-- a == b, which is false of NaN
abbrev pub float_eq : (fl : Float) → fl.F → fl.F → Bool
float_eq fl a b = fl.le a b && fl.le b a

-- The order of the values that are not NaN, and the monotony of rounding.
pub record FloatOrder (fl : Float) : Type 0 where
  pub le-eq-not_lt : (a b : fl.F) → fl.le a b ≡ not (fl.lt b a)
  pub lt_irrefl : (a : fl.F) → fl.lt a a ≡ false
  pub lt_asymm : (a b : fl.F) → fl.lt a b ≡ true → fl.lt b a ≡ false
  pub le_trans : (a b c : fl.F) → fl.le a b ≡ true → fl.le b c ≡ true → fl.le a c ≡ true
  -- adding what is not negative does not shrink, subtracting it does not grow
  pub le-add : (a b : fl.F) → fl.le (fl.of_ℕ 0) b ≡ true → fl.le a (fl.add a b) ≡ true
  pub sub-le : (a b : fl.F) → fl.le (fl.of_ℕ 0) b ≡ true → fl.le (fl.sub a b) a ≡ true
  pub zero-le-div :
      (a : fl.F) → fl.le (fl.of_ℕ 0) a ≡ true → fl.le (fl.of_ℕ 0) (fl.div a (fl.of_ℕ 2)) ≡ true
  pub nine_tenths-le :
      (a : fl.F) → fl.le (fl.of_ℕ 0) a ≡ true → fl.le (fl.mul (fl.literal 9 10) a) a ≡ true
  pub zero-le-one : fl.le (fl.of_ℕ 0) (fl.of_ℕ 1) ≡ true

-- Whole units of the finite numbers from 0 to 2^53 = 9007199254740992: subtracting 1 is exact there,
-- and adding 0 changes nothing, where the two zeros count as one value.
pub record FloatUnits (fl : Float) : Type 0 where
  -- ⌊a⌋
  pub units : fl.F → ℕ
  pub units-le_one :
      (a : fl.F)
      → fl.le (fl.of_ℕ 1) a ≡ true
      → fl.le a (fl.of_ℕ 9007199254740992) ≡ true
      → units a ≡ suc (units (fl.sub a (fl.of_ℕ 1)))
  pub units_lt_one : (a : fl.F) → fl.le (fl.of_ℕ 1) a ≡ false → units a ≡ 0
  pub zero-mul :
      (a : fl.F)
      → fl.le (fl.of_ℕ 0) a ≡ true
      → fl.le a (fl.of_ℕ 9007199254740992) ≡ true
      → fl.mul (fl.of_ℕ 0) a ≡ fl.of_ℕ 0
  pub add-zero : (a : fl.F) → fl.add a (fl.of_ℕ 0) ≡ a
