-- ===== src/Float/Fixed.antt =====
-- Fixed-point numbers with three places: an instance of the interface, on which the laws hold. It
-- shows that they can be met, and runs the tests.
use sovereignstack.Prelude.{ℕ, suc, ◌+◌, ◌-◌, ◌*◌, ◌/◌, ◌≡◌, refl, true, ltb, leb, arith}
use sovereignstack.Float.{Float, FloatOrder, FloatUnits}

abbrev pub fixed : Float
fixed = record {
  F = ℕ;
  of_ℕ = λ n. n * 1000;
  literal = λ p q. p * 1000 / q;
  to_ℕ = λ a. a / 1000;
  add = λ a b. a + b;
  sub = λ a b. a - b;
  mul = λ a b. a * b / 1000;
  div = λ a b. a * 1000 / b;
  lt = ltb;
  le = leb;
}

nine_tenths-le : (a : ℕ) → leb (900 * a / 1000) a ≡ true
nine_tenths-le a = ground arith

pub fixed-FloatOrder : FloatOrder fixed
fixed-FloatOrder = record {
  le-eq-not_lt = λ a b. ground arith;
  lt_irrefl = λ a. ground arith;
  lt_asymm = λ a b h. ground arith;
  le_trans = λ a b c h k. ground arith;
  le-add = λ a b h. ground arith;
  sub-le = λ a b h. ground arith;
  zero-le-div = λ a h. ground arith;
  nine_tenths-le = λ a h. nine_tenths-le a;
  zero-le-one = refl;
}

units-step : (a : ℕ) → leb 1000 a ≡ true → a / 1000 ≡ suc ((a - 1000) / 1000)
units-step a h = ground arith

pub fixed-FloatUnits : FloatUnits fixed
fixed-FloatUnits = record {
  units = λ a. a / 1000;
  units-le_one = λ a h below. units-step a h;
  units_lt_one = λ a h. ground arith;
  zero-mul = λ a h below. omega arith;
  add-zero = λ a. omega arith;
}
