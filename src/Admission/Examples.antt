-- ===== src/Admission/Examples.antt =====
-- The theorems of admission control, the rate limiter and the registry at concrete inputs, on
-- fixed-point numbers.
use sovereignstack.Prelude.{ℕ, ◌≡◌, ltb, ◌/◌, refl, true, false, ◌∷◌, [], Option, some}
use Prim.Native.Nat.{min}
use sovereignstack.Text.{Text, codes, text_eq}
use sovereignstack.Int64.{ℤ, pos}
use sovereignstack.Dict.{get, put}
use sovereignstack.Float.Fixed.{fixed, fixed-FloatOrder, fixed-FloatUnits}
use sovereignstack.Admission.Controller.{Config, ModelMetrics, Controller, tick}
use sovereignstack.Admission.Threshold.{IsSane, AllInBand, tick-AllInBand}
use sovereignstack.Text.Split.{split}
use sovereignstack.Admission.Parser.{parse_prometheus_metrics}
use sovereignstack.Admission.Parser.LastSample.{
  cache_of, told, last_sample_of, parse_prometheus_metrics-last_sample_of,
}
use sovereignstack.RateLimit as RateLimit
use sovereignstack.RateLimit.{Limits, UserRateLimit}
use sovereignstack.RateLimit.Bucket.{AllCapped, allow-AllCapped}
use sovereignstack.RateLimit.Burst.{granted, granted-eq-min}
use sovereignstack.Router.{
  ModelBackend, RunningModel, Registry, ModelsAnswer, CapabilityAnswer, refresh, get_backend,
}
use sovereignstack.Router.Refresh.{refresh-get_backend, last_running}

abbrev config : Config fixed
config = record {
  enabled = true;
  hard_cache_pct = 95000;
  soft_cache_pct = 80000;
  max_queue_per_gb = pos 4;
  poll_interval = 5000000000;
  ema_alpha = 300;
  calm_duration = 60000000000;
  stress_margin = 2000;
  min_hard_cache_pct = 70000;
}

abbrev controller : Controller fixed
controller = record { cfg = config; total_vram_bytes = pos 0; states = [] }

abbrev busy : ModelMetrics fixed
busy = record {
  cache_usage_pct = 97000;
  requests_running = pos 3;
  requests_waiting = pos 9;
  has_cache_usage = true;
}

config-IsSane : IsSane fixed config
config-IsSane = record { floor_le = refl; margin_pos = refl }

controller-AllInBand : AllInBand fixed fixed-FloatOrder controller
controller-AllInBand = record { at_model = λ m st found. unfold get in cc }

tick-AllInBand_example :
    AllInBand fixed fixed-FloatOrder
      (tick fixed (some ((codes "phi", some busy) ∷ [])) 1000 controller)
tick-AllInBand_example =
    tick-AllInBand fixed fixed-FloatOrder (some ((codes "phi", some busy) ∷ [])) 1000 controller
      config-IsSane controller-AllInBand

-- a minute is 60000000000 nanoseconds
abbrev minutes : ℕ → ℕ
minutes d = d / 60000000

abbrev no_limits : Limits fixed
no_limits = []

no_limits-AllCapped : AllCapped fixed fixed-FloatOrder minutes 3000 no_limits
no_limits-AllCapped u limit found = unfold get in cc

abbrev spent : UserRateLimit fixed
spent = record { tokens = 2000; last_refill_at = 7 }

allow-AllCapped_example : ltb 3000 spent.tokens ≡ false
allow-AllCapped_example =
    allow-AllCapped fixed fixed-FloatOrder minutes 3000 7 (codes "bob") no_limits
      no_limits-AllCapped (codes "bob") spent
      (unfold RateLimit.allow RateLimit.refill RateLimit.take_token get put text_eq in refl)

granted-eq-min_example :
    granted fixed minutes 7 (codes "bob") 3000 5 no_limits ≡ min 5 (fixed-FloatUnits.units 3000)
granted-eq-min_example =
    granted-eq-min fixed fixed-FloatOrder fixed-FloatUnits minutes refl 7 (codes "bob") 3000 refl
      refl refl 5 no_limits (unfold get in refl)

abbrev decimal : ℕ → Text
decimal n = codes "8000"

abbrev silent : ModelBackend → CapabilityAnswer
silent b = CapabilityAnswer.unreachable

abbrev phi : RunningModel
phi = record {
  model_name = codes "phi";
  container_id = codes "c1";
  kind = codes "vllm";
  status = codes "running";
  port = 8000;
}

abbrev old_registry : Registry
old_registry =
    (
      codes "gone",
      record {
        name = codes "gone";
        url = [];
        port = 1;
        kind = [];
        status = [];
        capability = [];
        endpoints = [];
      },
    )
    ∷ []

refresh-get_backend_example :
    get_backend
      (refresh decimal silent (ModelsAnswer.answered 200 (some (phi ∷ []))) old_registry).1
      (codes "phi")
    ≡ last_running decimal silent (phi ∷ []) (codes "phi")
refresh-get_backend_example =
    refresh-get_backend decimal silent (phi ∷ []) old_registry (codes "phi")

abbrev parse_half : Text → Option ℕ
parse_half value = some 500

abbrev whole : ℕ → ℤ
whole v = pos (v / 1000)

abbrev metrics_body : Text
metrics_body = codes "vllm:gpu_cache_usage_perc 0.5"

parse_prometheus_metrics-last_sample_of_example :
    cache_of fixed parse_half whole (parse_prometheus_metrics fixed parse_half whole metrics_body)
    ≡ told fixed parse_half whole
        (0, false)
        (last_sample_of fixed parse_half whole (split 10 metrics_body))
parse_prometheus_metrics-last_sample_of_example =
    parse_prometheus_metrics-last_sample_of fixed parse_half whole metrics_body
      (unfold split in (refl, tt))
