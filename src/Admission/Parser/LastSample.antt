-- ===== src/Admission/Parser/LastSample.antt =====
-- The last sample of the cache usage wins.
use sovereignstack.Prelude.{
  ◌≡◌, refl, Bool, true, false, ◌||◌, List, [], ◌∷◌, Option, none, some, arith, leb, if◌then◌else◌,
  is_empty, length, All,
}
use sovereignstack.Text.{Text, codes, has_prefix, text_eq}
use sovereignstack.Text.Split.{split}
use sovereignstack.Text.Trim.{trim_space}
use sovereignstack.Int64.{ℤ}
use sovereignstack.Float.{Float}
use sovereignstack.Admission.Controller.{ModelMetrics}
use sovereignstack.Admission.Parser.{
  max_line, split_metric_line, normalize_metric_name, as_percent, read_sample, read_line,
  read_lines, parse_prometheus_metrics,
}

module _ (fl : Float) (parse_float : Text → Option fl.F) (to_int : fl.F → ℤ) where
  open fl use {F, of_ℕ}

  -- the cache usage that a line tells
  unfoldable pub cache_sample : Text → Option F
  cache_sample raw =
      let line = trim_space raw in
      if is_empty line || has_prefix line (codes "#") then none else elim (split_metric_line line) [
        | none ↦ none
        | some p ↦
            if text_eq (normalize_metric_name p.0) (codes "gpu_cache_usage_perc")
            then parse_float p.1
            else none
      ]

  -- the one that the last such line tells
  unfoldable pub last_sample_of : List Text → Option F
  unfolding cache_sample
  last_sample_of [] = none
  last_sample_of (raw ∷ lines) =
      let later = last_sample_of lines in elim later [ some v ↦ some v | none ↦ cache_sample raw ]

  abbrev pub cache_of : ModelMetrics fl → F × Bool
  cache_of m = (m.cache_usage_pct, m.has_cache_usage)

  abbrev pub told : F × Bool → Option F → F × Bool
  told before none = before
  told before (some v) = (as_percent fl parse_float to_int v, true)

  cache_of-read_line :
      (raw : Text) (m : ModelMetrics fl)
      → cache_of (read_line fl parse_float to_int raw m) ≡ told (cache_of m) (cache_sample raw)
  unfolding read_line read_sample cache_sample
  cache_of-read_line raw m = ground arith

  cache_of-read_lines :
      (lines : List Text) (m : ModelMetrics fl)
      → All (λ raw. leb max_line (length raw) ≡ false) lines
      → cache_of (read_lines fl parse_float to_int lines m)
        ≡ told (cache_of m) (last_sample_of lines)
  unfolding read_lines last_sample_of
  cache_of-read_lines [] m h = refl
  cache_of-read_lines (raw ∷ lines) m h = ground (
    arith,
    cache_of-read_lines lines (read_line fl parse_float to_int raw m) h.1,
    cache_of-read_line raw m,
  )

  -- Of a body whose lines are all shorter than a megabyte, the cache usage is the one that the last
  -- line with such a sample tells, as a percentage; without one it is 0 and marked as missing.
  pub parse_prometheus_metrics-last_sample_of :
      (body : Text)
      → All (λ raw. leb max_line (length raw) ≡ false) (split 10 body)
      → cache_of (parse_prometheus_metrics fl parse_float to_int body)
        ≡ told (of_ℕ 0, false) (last_sample_of (split 10 body))
  unfolding parse_prometheus_metrics
  parse_prometheus_metrics-last_sample_of body h = cache_of-read_lines (split 10 body) _ h
