-- ===== src/Float/Order.antt =====
-- What follows from the order's laws, in the form that code with branches needs.
use sovereignstack.Prelude.{◌≡◌, true, false, arith}
use sovereignstack.Float.{Float, FloatOrder}

module _ (fl : Float) (order : FloatOrder fl) where
  open fl use {F, lt, le}

  pub le_of_not_lt : (a b : F) → lt a b ≡ false → le b a ≡ true
  le_of_not_lt a b h = ground (arith, order.le-eq-not_lt b a)

  pub not_lt_of_le : (a b : F) → le b a ≡ true → lt a b ≡ false
  not_lt_of_le a b h = ground (arith, order.le-eq-not_lt b a)

  pub le_refl : (a : F) → le a a ≡ true
  le_refl a = le_of_not_lt a a (order.lt_irrefl a)

  pub le_of_lt : (a b : F) → lt a b ≡ true → le a b ≡ true
  le_of_lt a b h = ground (arith, order.le-eq-not_lt a b, order.lt_asymm a b)

  -- a value below one that is under the ceiling
  pub under : (a b c : F) → lt a b ≡ true → lt c b ≡ false → lt c a ≡ false
  under a b c h k = not_lt_of_le c a (order.le_trans a b c (le_of_lt a b h) (le_of_not_lt c b k))
