-- ===== src/Admission/Threshold.antt =====
-- The dynamic cap stays between its floor and the configured ceiling, whatever is observed.
use mathlib.Core.Path.{subst}
use mathlib.Core.Option.{some-injective}
use sovereignstack.Prelude.{
  ℕ, ◌≡◌, refl, Bool, true, false, List, [], ◌∷◌, length, Option, none, some, arith, if◌then◌else◌,
  Option-cases, Bool-cases, inl, inr,
}
use sovereignstack.Text.{Text, text_eq}
use sovereignstack.Int64.{ℤ}
use sovereignstack.Dict.{get, get-put, get-empty}
use sovereignstack.Float.{Float, FloatOrder}
use sovereignstack.Float.Order.{le_refl, le_of_not_lt, under}
use sovereignstack.Admission.Controller.{
  Config, ModelMetrics, ModelState, Controller, new, tighten, relax, adjust_threshold,
  observe_state, observe, observe_all, tick, state_or_new,
}

-- What the cap's bounds need of a configuration: the floor is not above the ceiling, and the
-- stress margin is not negative.
pub record IsSane (fl : Float) (cfg : Config fl) : Type 0 where
  pub floor_le : fl.le cfg.min_hard_cache_pct cfg.hard_cache_pct ≡ true
  pub margin_pos : fl.le (fl.of_ℕ 0) cfg.stress_margin ≡ true

-- The floor is not above the cap, and the cap not above the ceiling.
pub record InBand (fl : Float) (cfg : Config fl) (st : ModelState fl) : Type 0 where
  pub above_floor : fl.le cfg.min_hard_cache_pct st.hard_threshold_pct ≡ true
  pub below_ceiling : fl.lt cfg.hard_cache_pct st.hard_threshold_pct ≡ false

module _ (fl : Float) (order : FloatOrder fl) (cfg : Config fl) (sane : IsSane fl cfg) where
  open fl use {F, of_ℕ, add, sub, div, lt, le}

  tighten-InBand : (st : ModelState fl) → InBand fl cfg st → InBand fl cfg (tighten fl cfg st)
  unfolding tighten
  tighten-InBand st h =
      let t = st.hard_threshold_pct in
      let floor = cfg.min_hard_cache_pct in
      let d = sub t cfg.stress_margin in
      ground (
        arith,
        le_refl fl order floor,
        le_of_not_lt fl order d floor,
        under fl order floor t cfg.hard_cache_pct,
        under fl order d t cfg.hard_cache_pct,
      )

  relax-InBand :
      (st : ModelState fl) (now : ℕ) → InBand fl cfg st → InBand fl cfg (relax fl cfg st now)
  unfolding relax
  relax-InBand st now h =
      let t = st.hard_threshold_pct in
      let raised = add t (div cfg.stress_margin (of_ℕ 2)) in
      let grown = order.le-add t _ (order.zero-le-div cfg.stress_margin sane.margin_pos) in
      ground (
        arith,
        sane.floor_le,
        order.lt_irrefl cfg.hard_cache_pct,
        order.le_trans cfg.min_hard_cache_pct t raised h.above_floor grown,
      )

  adjust_threshold-InBand :
      (st : ModelState fl) (now : ℕ)
      → InBand fl cfg st
      → InBand fl cfg (adjust_threshold fl cfg st now)
  unfolding adjust_threshold
  adjust_threshold-InBand st now h = ground (arith, tighten-InBand st h, relax-InBand st now h)

module _ (fl : Float) (order : FloatOrder fl) where
  -- every model's cap is in its band
  pub record AllInBand (c : Controller fl) : Type 0 where
    pub at_model : (m : Text) (st : ModelState fl) → get c.states m ≡ some st → InBand fl c.cfg st

  module _ (c : Controller fl) (sane : IsSane fl c.cfg) where
    observe_state-InBand :
        (sample : ModelMetrics fl) (n now : ℕ) (st : ModelState fl)
        → InBand fl c.cfg st
        → InBand fl c.cfg (observe_state fl c sample n now st)
    unfolding observe_state
    observe_state-InBand sample n now st h = elim (Bool-cases sample.has_cache_usage) [
      | inl seen ↦ rw seen (
          adjust_threshold-InBand fl order c.cfg sane _ now
            (record { above_floor = h.above_floor; below_ceiling = h.below_ceiling }))
      | inr unseen ↦
          rw unseen (record { above_floor = h.above_floor; below_ceiling = h.below_ceiling })
    ]

    state_or_new-InBand :
        (sample : ModelMetrics fl) (m : Text)
        → AllInBand c
        → InBand fl c.cfg (state_or_new fl c sample (get c.states m))
    state_or_new-InBand sample m h = elim (Option-cases (get c.states m)) [
      | inl fresh ↦ rw fresh (record {
        above_floor = sane.floor_le;
        below_ceiling = order.lt_irrefl c.cfg.hard_cache_pct;
      })
      | inr (st, found) ↦ rw found (h.at_model m st found)
    ]

    -- the entry that was written, or an old one
    some_or :
        (b : Bool) (st s : ModelState fl) (old : Option (ModelState fl))
        → (if b then some st else old) ≡ some s
        → InBand fl c.cfg st
        → (old ≡ some s → InBand fl c.cfg s)
        → InBand fl c.cfg s
    some_or true st s old e fits keeps = subst (InBand fl c.cfg) (some-injective _ _ e) fits
    some_or false st s old e fits keeps = keeps e

    observe-AllInBand :
        (m : Text) (sample : ModelMetrics fl) (n now : ℕ)
        → AllInBand c
        → AllInBand (observe fl m sample n now c)
    unfolding observe
    observe-AllInBand m sample n now h =
        let st = observe_state fl c sample n now (state_or_new fl c sample (get c.states m)) in
        let fits = observe_state-InBand sample n now _ (state_or_new-InBand sample m h) in
        record {
          at_model = λ k s found.
              some_or (text_eq m k) st s (get c.states k)
                (subst (λ o. o ≡ some s) (get-put c.states m st k) found) fits (h.at_model k s);
        }

  cfg-observe :
      (c : Controller fl) (m : Text) (sample : ModelMetrics fl) (n now : ℕ)
      → (observe fl m sample n now c).cfg ≡ c.cfg
  unfolding observe
  cfg-observe c m sample n now = refl

  observe_all-AllInBand :
      (models : List (Text × Option (ModelMetrics fl))) (n now : ℕ) (c : Controller fl)
      → IsSane fl c.cfg
      → AllInBand c
      → AllInBand (observe_all fl models n now c)
  unfolding observe_all
  observe_all-AllInBand [] n now c sane h = h
  observe_all-AllInBand ((m, none) ∷ models) n now c sane h =
      observe_all-AllInBand models n now c sane h
  observe_all-AllInBand ((m, some sample) ∷ models) n now c sane h =
      observe_all-AllInBand models n now (observe fl m sample n now c) (rw cfg-observe sane)
        (observe-AllInBand c sane m sample n now h)

  -- Where the floor is not above the ceiling and the stress margin is not negative, on floats that
  -- keep the laws: a poll cycle, whatever it lists and fetches, keeps every model's cap between
  -- the floor and the configured ceiling.
  pub tick-AllInBand :
      (polled : Option (List (Text × Option (ModelMetrics fl)))) (now : ℕ) (c : Controller fl)
      → IsSane fl c.cfg
      → AllInBand c
      → AllInBand (tick fl polled now c)
  unfolding tick
  tick-AllInBand none now c sane h = h
  tick-AllInBand (some models) now c sane h =
      observe_all-AllInBand models (length models) now c sane h

  -- A new controller has no model yet.
  pub new-AllInBand : (cfg : Config fl) (vram : ℤ) → AllInBand (new fl cfg vram)
  unfolding new
  new-AllInBand cfg vram = record { at_model = λ m st found. cc (get-empty {V = ModelState fl} m) }
