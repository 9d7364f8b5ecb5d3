-- ===== src/Admission/Controller.antt =====
-- core/admission/admission.go and the poll cycle of poller.go. Times and durations are nanoseconds
-- that are not negative; time 0 is the zero time. Each method holds the mutex: one step.
use sovereignstack.Prelude.{
  ℕ, ◌+◌, ◌*◌, ◌^◌, Bool, true, false, not, ◌||◌, ◌&&◌, List, [], ◌∷◌, Option, none, some, ◌==◌,
  ltb, leb, length, if◌then◌else◌,
}
use sovereignstack.Text.{Text}
use sovereignstack.Int64.{ℤ, pos, pos_part, leb_ℤ}
use sovereignstack.Dict.{Dict, get, put}
use sovereignstack.Float.{Float, float_eq}

module _ (fl : Float) where
  open fl use {F}

  pub record Config : Type 0 where
    pub enabled : Bool
    pub hard_cache_pct : F
    pub soft_cache_pct : F
    pub max_queue_per_gb : ℤ
    pub poll_interval : ℕ
    pub ema_alpha : F
    pub calm_duration : ℕ
    pub stress_margin : F
    pub min_hard_cache_pct : F

  -- what parser.go reads out of a /metrics body
  pub record ModelMetrics : Type 0 where
    pub cache_usage_pct : F
    pub requests_running : ℤ
    pub requests_waiting : ℤ
    pub has_cache_usage : Bool

  pub record ModelState : Type 0 where
    pub last_sample : ModelMetrics
    pub cache_usage_ema : F
    pub hard_threshold_pct : F
    pub calm_since : ℕ
    pub updated_at : ℕ
    pub max_queue_depth : ℕ

  -- The reason of a decision, with the numbers that its text shows.
  pub data Reason : Type 0 where
    disabled no_telemetry stale fine : Reason
    hard_cap : F → F → Reason
    queue_cap : ℤ → ℕ → Reason

module _ (fl : Float) where
  open fl use {F, of_ℕ, literal, to_ℕ, add, sub, mul, div, lt, le}

  pub record Decision : Type 0 where
    pub allowed : Bool
    pub reason : Reason fl
    -- in seconds
    pub retry_after : ℕ

  pub record Controller : Type 0 where
    pub cfg : Config fl
    pub total_vram_bytes : ℤ
    pub states : Dict (ModelState fl)

  abbrev second : ℕ
  second = 1000000000

  abbrev float_default : F → F → F
  float_default default x = if float_eq fl x (of_ℕ 0) then default else x

  -- `withDefaults`
  unfoldable pub with_defaults : Config fl → Config fl
  with_defaults c = record c {
    hard_cache_pct = float_default (of_ℕ 95) c.hard_cache_pct;
    soft_cache_pct = float_default (of_ℕ 80) c.soft_cache_pct;
    max_queue_per_gb =
        if leb_ℤ c.max_queue_per_gb (pos 0) && leb_ℤ (pos 0) c.max_queue_per_gb
        then pos 4
        else c.max_queue_per_gb;
    poll_interval = if c.poll_interval == 0 then 5 * second else c.poll_interval;
    ema_alpha = float_default (literal 2 10) c.ema_alpha;
    calm_duration = if c.calm_duration == 0 then 300 * second else c.calm_duration;
    stress_margin = float_default (of_ℕ 10) c.stress_margin;
    min_hard_cache_pct = float_default (of_ℕ 60) c.min_hard_cache_pct;
  }

  -- `New`
  unfoldable pub new : Config fl → ℤ → Controller
  unfolding with_defaults
  new c vram = record { cfg = with_defaults c; total_vram_bytes = vram; states = [] }

  -- the fair share of the queue budget: 0 where it is unknown, else at least 1
  unfoldable pub compute_queue_depth : Controller → ℕ → ℕ
  compute_queue_depth c running_count =
      if leb_ℤ c.total_vram_bytes (pos 0)
        || (running_count == 0)
        || leb_ℤ c.cfg.max_queue_per_gb (pos 0)
      then 0
      else let total_gb = div (of_ℕ (pos_part c.total_vram_bytes)) (of_ℕ (2 ^ 30)) in
        let per_model_gb = div total_gb (of_ℕ running_count) in
        let q = to_ℕ (mul per_model_gb (of_ℕ (pos_part c.cfg.max_queue_per_gb))) in
        if ltb q 1 then 1 else q

  -- the stressed branch of `adjustThreshold`
  unfoldable pub tighten : Config fl → ModelState fl → ModelState fl
  tighten cfg st =
      let dropped = sub st.hard_threshold_pct cfg.stress_margin in
      let new_cap = if lt dropped cfg.min_hard_cache_pct then cfg.min_hard_cache_pct else dropped in
      record st {
        hard_threshold_pct =
            if lt new_cap st.hard_threshold_pct then new_cap else st.hard_threshold_pct;
        calm_since = 0;
      }

  -- the calm branch
  unfoldable pub relax : Config fl → ModelState fl → ℕ → ModelState fl
  relax cfg st now =
      let calm_since = if st.calm_since == 0 then now else st.calm_since in
      if leb (calm_since + cfg.calm_duration) now && lt st.hard_threshold_pct cfg.hard_cache_pct
      then (let raised = add st.hard_threshold_pct (div cfg.stress_margin (of_ℕ 2)) in
          record st {
            hard_threshold_pct =
                if lt cfg.hard_cache_pct raised then cfg.hard_cache_pct else raised;
            calm_since = now;
          })
      else record st { calm_since = calm_since }

  unfoldable pub adjust_threshold : Config fl → ModelState fl → ℕ → ModelState fl
  adjust_threshold cfg st now =
      if le (mul (literal 9 10) st.hard_threshold_pct) st.cache_usage_ema
      then tighten cfg st
      else if lt st.cache_usage_ema cfg.soft_cache_pct
      then relax cfg st now
      else record st { calm_since = 0 }

  -- `observe` on the state of one model
  unfoldable pub observe_state :
      Controller → ModelMetrics fl → ℕ → ℕ → ModelState fl → ModelState fl
  observe_state c sample running_count now st =
      let seen = record st {
        last_sample = sample;
        updated_at = now;
        max_queue_depth = compute_queue_depth c running_count;
      } in
      if not sample.has_cache_usage
      then seen
      else let ema =
          if float_eq fl st.cache_usage_ema (of_ℕ 0)
          then sample.cache_usage_pct
          else add (mul c.cfg.ema_alpha sample.cache_usage_pct)
              (mul (sub (of_ℕ 1) c.cfg.ema_alpha) st.cache_usage_ema) in
        adjust_threshold c.cfg (record seen { cache_usage_ema = ema }) now

  abbrev pub state_or_new : Controller → ModelMetrics fl → Option (ModelState fl) → ModelState fl
  state_or_new c sample (some st) = st
  state_or_new c sample none = record {
    last_sample = sample;
    cache_usage_ema = of_ℕ 0;
    hard_threshold_pct = c.cfg.hard_cache_pct;
    calm_since = 0;
    updated_at = 0;
    max_queue_depth = 0;
  }

  unfoldable pub observe : Text → ModelMetrics fl → ℕ → ℕ → Controller → Controller
  observe model sample running_count now c =
      let st = state_or_new c sample (get c.states model) in
      record c { states = put c.states model (observe_state c sample running_count now st) }

  -- the loop of `tick`, over the running models with what fetching and parsing each one gave
  unfoldable pub observe_all :
      List (Text × Option (ModelMetrics fl)) → ℕ → ℕ → Controller → Controller
  observe_all [] running_count now c = c
  observe_all ((model, none) ∷ rest) running_count now c = observe_all rest running_count now c
  observe_all ((model, some sample) ∷ rest) running_count now c =
      observe_all rest running_count now (observe model sample running_count now c)

  -- `tick`: `none` is a failure to list the models. The clock is read once for the whole cycle.
  unfoldable pub tick :
      Option (List (Text × Option (ModelMetrics fl))) → ℕ → Controller → Controller
  tick none now c = c
  tick (some models) now c = observe_all models (length models) now c

  abbrev admit : Reason fl → Decision
  admit r = record { allowed = true; reason = r; retry_after = 0 }

  abbrev shed : Reason fl → ℕ → Decision
  shed r seconds = record { allowed = false; reason = r; retry_after = seconds }

  -- `Allow` on the state of one model
  unfoldable pub decide : Config fl → ℕ → ModelState fl → Decision
  decide cfg now st =
      if not st.last_sample.has_cache_usage
      then admit no_telemetry
      else if ltb (st.updated_at + 3 * cfg.poll_interval) now
      then admit stale
      else if le st.hard_threshold_pct st.cache_usage_ema
      then shed (hard_cap st.cache_usage_ema st.hard_threshold_pct) 5
      else if ltb 0 st.max_queue_depth
          && leb_ℤ (pos st.max_queue_depth) st.last_sample.requests_waiting
      then shed (queue_cap st.last_sample.requests_waiting st.max_queue_depth) 10
      else admit fine

  unfoldable pub allow : Text → ℕ → Controller → Decision
  allow model now c =
      if not c.cfg.enabled
      then admit disabled
      else elim (get c.states model) [ none ↦ admit no_telemetry | some st ↦ decide c.cfg now st ]
