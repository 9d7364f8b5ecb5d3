-- ===== src/Admission/Parser.antt =====
-- core/admission/parser.go: what a poll reads out of a /metrics body. strconv.ParseFloat and the
-- conversion of a float to int are parameters; bufio.Scanner gives the lines, and stops at the first
-- one that does not fit its buffer.
pub mod LastSample
use sovereignstack.Prelude.{
  ℕ, ◌^◌, ◌==◌, Bool, true, false, ◌||◌, List, [], ◌∷◌, Option, none, some, leb, if◌then◌else◌,
  is_empty, length,
}
use sovereignstack.Text.{Text, codes, has_prefix, text_eq, trim_prefix}
use sovereignstack.Text.Split.{split}
use sovereignstack.Text.Trim.{trim_space, cut}
use sovereignstack.Int64.{ℤ, pos}
use sovereignstack.Float.{Float}
use sovereignstack.Admission.Controller.{ModelMetrics}

-- the size of the scanner's buffer
abbrev pub max_line : ℕ
max_line = 2 ^ 20

abbrev pub is_blank : ℕ → Bool
is_blank c = (c == 32) || (c == 9)

-- a '{' or a blank
abbrev pub ends_name : ℕ → Bool
ends_name c = (c == 123) || is_blank c

-- the text before the first byte that passes the test, and the text from there on
unfoldable pub break_at : (ℕ → Bool) → Text → Text × Text
break_at stops [] = ([], [])
break_at stops (c ∷ s) =
    let rest = break_at stops s in if stops c then ([], c ∷ s) else (c ∷ rest.0, rest.1)

-- what stands behind the labels, if there are any
abbrev without_labels : Text → Option Text
without_labels rest =
    if has_prefix rest (codes "{")
    then elim (cut (codes "}") rest) [ none ↦ none | some p ↦ some p.1 ]
    else some rest

value_of : Text → Text → Option (Text × Text)
unfolding break_at
value_of name rest = if is_empty rest then none else some (name, (break_at is_blank rest).0)

-- the name and the value
unfoldable pub split_metric_line : Text → Option (Text × Text)
unfolding value_of
split_metric_line line =
    if has_prefix line (codes "#")
    then none
    else let p = break_at ends_name line in
      if is_empty p.0 || is_empty p.1
      then none
      else elim (without_labels p.1) [ none ↦ none | some rest ↦ value_of p.0 (trim_space rest) ]

unfoldable pub normalize_metric_name : Text → Text
normalize_metric_name name =
    if has_prefix name (codes "vllm:")
    then trim_prefix name (codes "vllm:")
    else if has_prefix name (codes "vllm_")
    then trim_prefix name (codes "vllm_")
    else name

module _ (fl : Float) (parse_float : Text → Option fl.F) (to_int : fl.F → ℤ) where
  open fl use {F, of_ℕ, mul, le}

  -- fractions become percentages; greater values are taken as they are
  abbrev pub as_percent : F → F
  as_percent v = if le v (of_ℕ 1) then mul v (of_ℕ 100) else v

  -- the switch on the name
  unfoldable pub read_sample : Text → Text → ModelMetrics fl → ModelMetrics fl
  read_sample name value m = elim (parse_float value) [
    | none ↦ m
    | some v ↦
        if text_eq name (codes "gpu_cache_usage_perc")
        then record m { cache_usage_pct = as_percent v; has_cache_usage = true }
        else if text_eq name (codes "num_requests_running")
        then record m { requests_running = to_int v }
        else if text_eq name (codes "num_requests_waiting")
        then record m { requests_waiting = to_int v }
        else m
  ]

  unfoldable pub read_line : Text → ModelMetrics fl → ModelMetrics fl
  unfolding read_sample
  read_line raw m =
      let line = trim_space raw in
      if is_empty line || has_prefix line (codes "#") then m else elim (split_metric_line line) [
        | none ↦ m
        | some p ↦ read_sample (normalize_metric_name p.0) p.1 m
      ]

  unfoldable pub read_lines : List Text → ModelMetrics fl → ModelMetrics fl
  unfolding read_line
  read_lines [] m = m
  read_lines (raw ∷ lines) m =
      let rest = read_lines lines (read_line raw m) in if leb max_line (length raw) then m else rest

  unfoldable pub parse_prometheus_metrics : Text → ModelMetrics fl
  unfolding read_lines
  parse_prometheus_metrics body = read_lines (split 10 body) (record {
    cache_usage_pct = of_ℕ 0;
    requests_running = pos 0;
    requests_waiting = pos 0;
    has_cache_usage = false;
  })
