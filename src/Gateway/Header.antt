-- ===== src/Gateway/Header.antt =====
-- The names of headers, as net/http keeps them: textproto.CanonicalMIMEHeaderKey, with Header.Set and
-- Header.Del over `Header.Get`.
use sovereignstack.Prelude.{
  ℕ, ◌+◌, ◌-◌, Bool, true, false, not, ◌&&◌, ◌||◌, ◌==◌, [], ◌∷◌, leb, any, if◌then◌else◌,
}
use sovereignstack.Text.{Text, codes, text_eq}

abbrev is_lower : ℕ → Bool
is_lower c = leb 97 c && leb c 122

abbrev is_upper : ℕ → Bool
is_upper c = leb 65 c && leb c 90

-- a byte of a token of RFC 7230
abbrev is_token_byte : ℕ → Bool
is_token_byte c =
    is_lower c
    || is_upper c
    || (leb 48 c && leb c 57)
    || any (λ d. c == d) (codes "!#$%&'*+-.^_`|~")

-- the first letter and those behind a dash in upper case, the others in lower case
abbrev cased : Bool → ℕ → ℕ
cased true c = if is_lower c then c - 32 else c
cased false c = if is_upper c then c + 32 else c

abbrev cased_from : Bool → Text → Text
cased_from first [] = []
cased_from first (c ∷ name) = cased first c ∷ cased_from (c == 45) name

unfoldable pub canonical : Text → Text
canonical name = if any (λ c. not (is_token_byte c)) name then name else cased_from true name

-- Header.Set, and Header.Del for the empty value
abbrev pub set_header : Text → Text → (Text → Text) → Text → Text
set_header name value header h = if text_eq (canonical h) (canonical name) then value else header h
