-- ===== src/Admission/Decide.antt =====
-- When a request is shed, and when it is admitted for want of knowledge.
use sovereignstack.Prelude.{
  ℕ, ◌+◌, ◌*◌, ◌≤◌, ◌<◌, ◌≡◌, ◌↔◌, ◌⊎◌, true, false, none, some, arith, inl, inr, Option-cases,
}
use sovereignstack.Text.{Text, text_eq_refl}
use sovereignstack.Int64.{pos, leb_ℤ}
use sovereignstack.Dict.{get, get-put}
use sovereignstack.Float.{Float, FloatOrder}
use sovereignstack.Float.Order.{le_refl, le_of_lt}
use sovereignstack.Admission.Controller.{
  Config, ModelMetrics, ModelState, Controller, decide, allow, observe, observe_state, state_or_new,
  compute_queue_depth, adjust_threshold, tighten,
}

module _ (fl : Float) where
  open fl use {F, of_ℕ, lt, le}

  -- What it takes to shed: telemetry that is at most three poll intervals old, and cache usage at
  -- the cap or a queue at its own cap.
  pub record MustShed (cfg : Config fl) (now : ℕ) (st : ModelState fl) : Type 0 where
    pub measured : st.last_sample.has_cache_usage ≡ true
    pub recent : now ≤ st.updated_at + 3 * cfg.poll_interval
    pub pressed :
        (le st.hard_threshold_pct st.cache_usage_ema ≡ true)
        ⊎ ((0 < st.max_queue_depth)
            × (leb_ℤ (pos st.max_queue_depth) st.last_sample.requests_waiting ≡ true))

  decide-shed_iff :
      (cfg : Config fl) (now : ℕ) (st : ModelState fl)
      → ((decide fl cfg now st).allowed ≡ false) ↔ MustShed cfg now st
  unfolding decide
  decide-shed_iff cfg now st = (λ h. ground arith, λ h. ground arith)

  -- An enabled controller sheds a request exactly when it has a state of the model that demands it.
  pub allow-shed_iff :
      (model : Text) (now : ℕ) (c : Controller fl)
      → ((allow fl model now c).allowed ≡ false) ↔ (
          (c.cfg.enabled ≡ true)
          × ((st : ModelState fl) × (get c.states model ≡ some st) × MustShed c.cfg now st))
  unfolding allow
  allow-shed_iff model now c = (
    λ h. elim (Option-cases (get c.states model)) [
      | inl fresh ↦ absurd (ground arith)
      | inr (st, found) ↦
          (ground arith, (st, found, (decide-shed_iff c.cfg now st).0 (ground arith)))
    ],
    λ (on, (st, found, must)). ground (arith, (decide-shed_iff c.cfg now st).1 must),
  )

  -- A request that is shed comes with a time to wait, one that is admitted with none.
  pub retry_after_iff :
      (model : Text) (now : ℕ) (c : Controller fl)
      → ((allow fl model now c).allowed ≡ false) ↔ (0 < (allow fl model now c).retry_after)
  unfolding allow decide
  retry_after_iff model now c = (λ h. ground arith, λ h. ground arith)

module _ (fl : Float) (order : FloatOrder fl) where
  open fl use {F, of_ℕ, lt, le, mul, sub, literal}

  tighten_le :
      (cfg : Config fl) (st : ModelState fl)
      → le (tighten fl cfg st).hard_threshold_pct st.hard_threshold_pct ≡ true
  unfolding tighten
  tighten_le cfg st =
      let t = st.hard_threshold_pct in
      let d = sub t cfg.stress_margin in
      ground (
        arith,
        le_refl fl order t,
        le_of_lt fl order d t,
        le_of_lt fl order cfg.min_hard_cache_pct t,
      )

  -- a state at or above its cap is stressed, and stays at or above the new cap
  adjust_threshold_over :
      (cfg : Config fl) (st : ModelState fl) (now : ℕ)
      → le (of_ℕ 0) st.hard_threshold_pct ≡ true
      → le st.hard_threshold_pct st.cache_usage_ema ≡ true
      → let after = adjust_threshold fl cfg st now in
        (le after.hard_threshold_pct after.cache_usage_ema ≡ true)
        × (after.last_sample ≡ st.last_sample)
        × (after.updated_at ≡ st.updated_at)
  unfolding adjust_threshold tighten
  adjust_threshold_over cfg st now nonneg over =
      let t = st.hard_threshold_pct in
      let small = order.nine_tenths-le t nonneg in
      let below = tighten_le cfg st in
      ground (
        arith,
        order.le_trans (mul (literal 9 10) t) t st.cache_usage_ema small over,
        order.le_trans (tighten fl cfg st).hard_threshold_pct t st.cache_usage_ema below over,
      )

  -- On floats that keep the laws, under an enabled controller whose ceiling is not negative: a
  -- model whose first sample has a cache usage at the ceiling or above is shed from then on, until
  -- its telemetry is more than three poll intervals old, while no other sample comes.
  pub overloaded_is_shed :
      (model : Text) (sample : ModelMetrics fl) (n now later : ℕ) (c : Controller fl)
      → c.cfg.enabled ≡ true
      → get c.states model ≡ none
      → sample.has_cache_usage ≡ true
      → le (of_ℕ 0) c.cfg.hard_cache_pct ≡ true
      → le c.cfg.hard_cache_pct sample.cache_usage_pct ≡ true
      → later ≤ now + 3 * c.cfg.poll_interval
      → (allow fl model later (observe fl model sample n now c)).allowed ≡ false
  unfolding allow observe observe_state
  overloaded_is_shed model sample n now later c on fresh has pos_cap over soon =
      let first = record (state_or_new fl c sample none) {
        last_sample = sample;
        updated_at = now;
        max_queue_depth = compute_queue_depth fl c n;
        cache_usage_ema = sample.cache_usage_pct;
      } in
      let (at_cap, kept, time) = adjust_threshold_over c.cfg first now pos_cap over in
      let st = adjust_threshold fl c.cfg first now in
      let must : MustShed fl c.cfg later st = record {
        measured = rw kept has;
        recent = rw time soon;
        pressed = inl at_cap;
      } in
      ground (
        arith,
        le_refl fl order (of_ℕ 0),
        get-put c.states model st model,
        text_eq_refl model,
        (decide-shed_iff fl c.cfg later st).1 must,
      )
