-- ===== src/Text/Trim.antt =====
-- strings.TrimSpace on UTF-8, strings.HasSuffix, strings.Index and strings.Contains.
use sovereignstack.Prelude.{
  ℕ, zero, suc, ◌≡◌, ◌≤◌, ◌<◌, refl, ap, ◌∙◌, Bool, true, false, ◌||◌, ◌&&◌, [], ◌∷◌, ◌++◌, arith,
  length, is_empty, Option, none, some, ◌==◌, leb, if◌then◌else◌,
}
use mathlib.Core.List.{reverse, reverse-reverse, reverse-append}
use sovereignstack.Text.{Text, has_prefix, after_prefix}

-- tab, newline, vertical tab, form feed, carriage return, space
abbrev pub is_space : ℕ → Bool
is_space c = (c == 9) || (c == 10) || (c == 11) || (c == 12) || (c == 13) || (c == 32)

-- U+0085 and U+00A0 in UTF-8
abbrev is_space2 : ℕ → ℕ → Bool
is_space2 c d = (c == 194) && ((d == 133) || (d == 160))

-- U+1680, U+2000 to U+200A, U+2028, U+2029, U+202F, U+205F and U+3000 in UTF-8
abbrev is_space3 : ℕ → ℕ → ℕ → Bool
is_space3 c d e =
    ((c == 225) && (d == 154) && (e == 128))
    || ((c == 226)
        && (d == 128)
        && ((leb 128 e && leb e 138) || (e == 168) || (e == 169) || (e == 175)))
    || ((c == 226) && (d == 129) && (e == 159))
    || ((c == 227) && (d == 128) && (e == 128))

-- how many bytes the white space at the start has, 0 for none
unfoldable pub space_length : Text → ℕ
space_length [] = 0
space_length (c ∷ []) = if is_space c then 1 else 0
space_length (c ∷ d ∷ []) = if is_space c then 1 else if is_space2 c d then 2 else 0
space_length (c ∷ d ∷ e ∷ s) =
    if is_space c then 1 else if is_space2 c d then 2 else if is_space3 c d e then 3 else 0

-- the same at the start of a text that stands in reverse
unfoldable pub space_length_back : Text → ℕ
space_length_back [] = 0
space_length_back (c ∷ []) = if is_space c then 1 else 0
space_length_back (c ∷ d ∷ []) = if is_space c then 1 else if is_space2 d c then 2 else 0
space_length_back (c ∷ d ∷ e ∷ s) =
    if is_space c then 1 else if is_space2 d c then 2 else if is_space3 e d c then 3 else 0

-- what stands behind n more bytes and the white space there
unfoldable pub skip_spaces : (Text → ℕ) → ℕ → Text → Text
skip_spaces spaces n [] = []
skip_spaces spaces (suc n) (c ∷ s) = skip_spaces spaces n s
skip_spaces spaces zero (c ∷ s) = elim (spaces (c ∷ s)) [
  | zero ↦ c ∷ s
  | suc k ↦ skip_spaces spaces k s
]

unfoldable pub trim_left : Text → Text
unfolding skip_spaces
trim_left s = skip_spaces space_length 0 s

-- strings.TrimRight of a text that stands in reverse
unfoldable pub trim_back : Text → Text
unfolding skip_spaces
trim_back s = skip_spaces space_length_back 0 s

unfoldable pub trim_space : Text → Text
unfolding trim_left trim_back
trim_space s = reverse (trim_back (reverse (trim_left s)))

-- strings.HasSuffix(s, suffix)
unfoldable pub has_suffix : Text → Text → Bool
has_suffix s suffix = has_prefix (reverse s) (reverse suffix)

-- What stands before and behind the first occurrence of `sub`: strings.Index(s, sub).
unfoldable pub cut : Text → Text → Option (Text × Text)
cut sub [] = elim (after_prefix [] sub) [ none ↦ none | some rest ↦ some ([], rest) ]
cut sub (c ∷ s) =
    let later = cut sub s in
    elim (after_prefix (c ∷ s) sub) [
      | some rest ↦ some ([], rest)
      | none ↦ elim later [ none ↦ none | some p ↦ some (c ∷ p.0, p.1) ]
    ]

-- strings.Contains(s, sub)
unfoldable pub contains : Text → Text → Bool
unfolding cut
contains s sub = elim (cut sub s) [ none ↦ false | some p ↦ true ]

-- The text neither begins nor ends with a space.
abbrev pub Trimmed : Text → Type 0
Trimmed s = (trim_left s ≡ s) × (trim_back (reverse s) ≡ reverse s)

skip_spaces-length :
    (spaces : Text → ℕ) (n : ℕ) (s : Text) → length (skip_spaces spaces n s) ≤ length s
unfolding skip_spaces
skip_spaces-length spaces n [] = ground arith
skip_spaces-length spaces (suc n) (c ∷ s) = ground (arith, skip_spaces-length spaces n s)
skip_spaces-length spaces zero (c ∷ s) =
    by_spaces (λ j. skip_spaces-length spaces j s) (spaces (c ∷ s))
  where
    by_spaces :
        ((j : ℕ) → length (skip_spaces spaces j s) ≤ length s)
        → (k : ℕ)
        → length (elim k [ zero ↦ c ∷ s | suc j ↦ skip_spaces spaces j s ]) ≤ length (c ∷ s)
    by_spaces shorter zero = ground arith
    by_spaces shorter (suc j) = ground (arith, shorter j)

-- A trimmed text starts with no white space.
trim_left_starts : (c : ℕ) (s : Text) → trim_left (c ∷ s) ≡ c ∷ s → space_length (c ∷ s) ≡ 0
unfolding trim_left skip_spaces
trim_left_starts c s h = by_spaces (space_length (c ∷ s)) h
  where
    by_spaces :
        (k : ℕ) → elim k [ zero ↦ c ∷ s | suc j ↦ skip_spaces space_length j s ] ≡ c ∷ s → k ≡ 0
    by_spaces zero e = refl
    by_spaces (suc j) e =
        let shorter = skip_spaces-length space_length j s in
        let same : length (skip_spaces space_length j s) ≡ suc (length s) = ap length e in
        absurd (omega (arith, shorter, same))

trim_left_keeps : (c : ℕ) (s : Text) → space_length (c ∷ s) ≡ 0 → trim_left (c ∷ s) ≡ c ∷ s
unfolding trim_left skip_spaces
trim_left_keeps c s h = ap (λ k. elim k [ zero ↦ c ∷ s | suc j ↦ skip_spaces space_length j s ]) h

-- no text, or one that starts with an ASCII byte
abbrev pub StartsAscii : Text → Type 0
StartsAscii [] = Unit
StartsAscii (c ∷ s) = c < 128

-- ASCII behind a text makes no white space of its start.
space_length-append :
    (c : ℕ) (s t : Text)
    → StartsAscii t
    → space_length (c ∷ s) ≡ 0
    → space_length (c ∷ (s ++ t)) ≡ 0
unfolding space_length
space_length-append c [] [] ascii h = h
space_length-append c [] (d ∷ []) ascii h = ground arith
space_length-append c [] (d ∷ e ∷ t) ascii h = ground arith
space_length-append c (d ∷ []) [] ascii h = h
space_length-append c (d ∷ []) (e ∷ t) ascii h = ground arith
space_length-append c (d ∷ e ∷ s) t ascii h = h

trim_left-append :
    (s t : Text)
    → is_empty s ≡ false
    → StartsAscii t
    → trim_left s ≡ s
    → trim_left (s ++ t) ≡ s ++ t
trim_left-append [] t filled ascii h = absurd (ground arith)
trim_left-append (c ∷ s) t filled ascii h =
    trim_left_keeps c (s ++ t) (space_length-append c s t ascii (trim_left_starts c s h))

-- A newline behind a trimmed text is trimmed.
pub trim_space_line : (s : Text) → Trimmed s → trim_space (s ++ (10 ∷ [])) ≡ s
unfolding trim_space trim_left trim_back skip_spaces space_length space_length_back
trim_space_line [] h = refl
trim_space_line (c ∷ s) h =
    let line = (c ∷ s) ++ (10 ∷ []) in
    let ascii : 10 < 128 = omega arith in
    let kept : trim_left line ≡ line = trim_left-append (c ∷ s) (10 ∷ []) refl ascii h.0 in
    ap (λ t. reverse (trim_back (reverse t))) kept
    ∙ ap (λ t. reverse (trim_back t)) (reverse-append (c ∷ s) (10 ∷ []))
    ∙ ap reverse (newline (reverse (c ∷ s)) ∙ h.1)
    ∙ reverse-reverse (c ∷ s)
  where
    newline : (t : Text) → trim_back (10 ∷ t) ≡ trim_back t
    newline [] = refl
    newline (d ∷ []) = refl
    newline (d ∷ e ∷ t) = refl

-- n spaces
abbrev pub blanks : ℕ → Text
blanks zero = []
blanks (suc n) = 32 ∷ blanks n

blanks_end : (n : ℕ) → blanks n ++ (32 ∷ []) ≡ 32 ∷ blanks n
blanks_end zero = refl
blanks_end (suc n) = ap (λ t. 32 ∷ t) (blanks_end n)

reverse-blanks : (n : ℕ) → reverse (blanks n) ≡ blanks n
reverse-blanks zero = refl
reverse-blanks (suc n) =
    reverse-append (32 ∷ []) (blanks n) ∙ ap (λ t. t ++ (32 ∷ [])) (reverse-blanks n) ∙ blanks_end n

trim_left-blanks : (n : ℕ) (t : Text) → trim_left (blanks n ++ t) ≡ trim_left t
unfolding trim_left skip_spaces space_length
trim_left-blanks zero t = refl
trim_left-blanks (suc n) t = one (blanks n ++ t) ∙ trim_left-blanks n t
  where
    one : (u : Text) → trim_left (32 ∷ u) ≡ trim_left u
    one [] = refl
    one (d ∷ []) = refl
    one (d ∷ e ∷ u) = refl

trim_back-blanks : (n : ℕ) (t : Text) → trim_back (blanks n ++ t) ≡ trim_back t
unfolding trim_back skip_spaces space_length_back
trim_back-blanks zero t = refl
trim_back-blanks (suc n) t = one (blanks n ++ t) ∙ trim_back-blanks n t
  where
    one : (u : Text) → trim_back (32 ∷ u) ≡ trim_back u
    one [] = refl
    one (d ∷ []) = refl
    one (d ∷ e ∷ u) = refl

blanks-StartsAscii : (n : ℕ) → StartsAscii (blanks n)
blanks-StartsAscii zero = tt
blanks-StartsAscii (suc n) = let ascii : 32 < 128 = omega arith in ascii

-- The spaces around a trimmed text are trimmed.
pub trim_space-blanks :
    (n m : ℕ) (s : Text)
    → is_empty s ≡ false
    → Trimmed s
    → trim_space (blanks n ++ (s ++ blanks m)) ≡ s
unfolding trim_space
trim_space-blanks n m s filled h =
    let kept =
      trim_left-blanks n (s ++ blanks m)
      ∙ trim_left-append s (blanks m) filled (blanks-StartsAscii m) h.0 in
    let turned : reverse (s ++ blanks m) ≡ blanks m ++ reverse s =
      reverse-append s (blanks m) ∙ ap (λ t. t ++ reverse s) (reverse-blanks m) in
    ap (λ t. reverse (trim_back (reverse t))) kept
    ∙ ap (λ t. reverse (trim_back t)) turned
    ∙ ap reverse (trim_back-blanks m (reverse s) ∙ h.1)
    ∙ reverse-reverse s
