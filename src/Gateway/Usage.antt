-- ===== src/Gateway/Usage.antt =====
-- `parseTokenUsage` of core/gateway/proxy.go. encoding/json is a parameter.
use mathlib.Core.List.{reverse}
use sovereignstack.Prelude.{ℕ, Bool, ◌&&◌, List, [], ◌∷◌, Option, none, some, if◌then◌else◌}
use sovereignstack.Text.{Text, codes, text_eq, has_prefix, trim_prefix}
use sovereignstack.Text.Split.{split}
use sovereignstack.Text.Trim.{trim_space, contains}
use sovereignstack.Int64.{ℤ, pos, leb_ℤ}

-- json.Unmarshal into the usage payload: the prompt and the completion tokens
abbrev pub UsageDecoder : Type 0
UsageDecoder = Text → Option (ℤ × ℤ)

abbrev is_zero : ℤ → Bool
is_zero n = leb_ℤ n (pos 0) && leb_ℤ (pos 0) n

unfoldable pub try_parse : UsageDecoder → Text → Option (ℤ × ℤ)
try_parse json b = elim (json b) [
  | none ↦ none
  | some p ↦ if is_zero p.0 && is_zero p.1 then none else some p
]

abbrev newline : ℕ
newline = 10

-- what one SSE line says of the usage
unfoldable pub line_usage : UsageDecoder → Text → Option (ℤ × ℤ)
unfolding try_parse
line_usage json raw =
    let line = trim_space raw in
    if has_prefix line (codes "data:")
    then (let payload = trim_space (trim_prefix line (codes "data:")) in
        if text_eq payload (codes "[DONE]") then none else try_parse json payload)
    else none

-- the first line that says something, of lines that come last first
unfoldable pub first_usage : UsageDecoder → List Text → Option (ℤ × ℤ)
first_usage json [] = none
first_usage json (line ∷ lines) =
    let rest = first_usage json lines in
    elim (line_usage json line) [ none ↦ rest | some p ↦ some p ]

abbrev or_zero : Option (ℤ × ℤ) → ℤ × ℤ
or_zero none = (pos 0, pos 0)
or_zero (some p) = p

unfoldable pub parse_token_usage : UsageDecoder → Text → Text → ℤ × ℤ
unfolding first_usage
parse_token_usage json body content_type = or_zero (
    if contains content_type (codes "text/event-stream")
    then first_usage json (reverse (split newline body))
    else try_parse json body)
