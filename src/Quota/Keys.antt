-- ===== src/Quota/Keys.antt =====
-- `dayKey` and `monthKey` of core/gateway/quota_backend.go: the civil date and the month as text, for
-- years of four digits.
use sovereignstack.Prelude.{ℕ, ◌+◌, ◌/◌, ◌%◌, ◌<◌, ◌≡◌, refl, [], ◌∷◌, ◌++◌, arith, length}
use sovereignstack.Text.{Text}
use sovereignstack.Calendar.{Instant}

-- the decimal digit of a number below 10
abbrev digit : ℕ → ℕ
digit n = 48 + n % 10

abbrev pub two_digits : ℕ → Text
two_digits n = digit (n / 10) ∷ digit n ∷ []

abbrev pub four_digits : ℕ → Text
four_digits n = digit (n / 1000) ∷ digit (n / 100) ∷ two_digits n

-- the byte '-'
abbrev dash : ℕ
dash = 45

unfoldable pub month_key : Instant → Text
month_key t = four_digits t.year ++ dash ∷ two_digits t.month

unfoldable pub day_key : Instant → Text
day_key t = four_digits t.year ++ dash ∷ two_digits t.month ++ dash ∷ two_digits t.day

two_digits-injective : (a b : ℕ) → a < 100 → b < 100 → two_digits a ≡ two_digits b → a ≡ b
two_digits-injective a b ha hb e =
    let tens : digit (a / 10) ≡ digit (b / 10) = cc in
    let ones : digit a ≡ digit b = cc in omega (arith, ha, hb, tens, ones)

-- a date that these keys are for
pub record IsCivil (t : Instant) : Type 0 where
  pub year_lt : t.year < 10000
  pub month_lt : t.month < 100
  pub day_lt : t.day < 100

four_digits-injective : (a b : ℕ) → a < 10000 → b < 10000 → four_digits a ≡ four_digits b → a ≡ b
four_digits-injective a b ha hb e =
    let d3 : digit (a / 1000) ≡ digit (b / 1000) = cc in
    let d2 : digit (a / 100) ≡ digit (b / 100) = cc in
    let d1 : digit (a / 10) ≡ digit (b / 10) = cc in
    let d0 : digit a ≡ digit b = cc in omega (arith, ha, hb, d3, d2, d1, d0)

pub month_key-injective :
    (t u : Instant)
    → IsCivil t
    → IsCivil u
    → month_key t ≡ month_key u
    → (t.year ≡ u.year) × (t.month ≡ u.month)
unfolding month_key
month_key-injective t u ct cu e = (
  four_digits-injective t.year u.year ct.year_lt cu.year_lt cc,
  two_digits-injective t.month u.month ct.month_lt cu.month_lt cc,
)

pub day_key-injective :
    (t u : Instant)
    → IsCivil t
    → IsCivil u
    → day_key t ≡ day_key u
    → (t.year ≡ u.year) × (t.month ≡ u.month) × (t.day ≡ u.day)
unfolding day_key
day_key-injective t u ct cu e = (
  four_digits-injective t.year u.year ct.year_lt cu.year_lt cc,
  two_digits-injective t.month u.month ct.month_lt cu.month_lt cc,
  two_digits-injective t.day u.day ct.day_lt cu.day_lt cc,
)

pub length-day_key : (t : Instant) → length (day_key t) ≡ 10
unfolding day_key
length-day_key t = refl

pub length-month_key : (t : Instant) → length (month_key t) ≡ 7
unfolding month_key
length-month_key t = refl
