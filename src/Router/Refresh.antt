-- ===== src/Router/Refresh.antt =====
-- What the registry holds after a refresh, and what a failed one leaves.
use sovereignstack.Prelude.{
  ℕ, ◌≡◌, refl, List, [], ◌∷◌, Option, none, some, arith, if◌then◌else◌, ◌&&◌, err,
}
use sovereignstack.Text.{Text, text_eq}
use sovereignstack.Dict.{get, put, get-put, get-empty}
use sovereignstack.Router.{
  ModelBackend, RunningModel, Registry, ModelsAnswer, CapabilityAnswer, RefreshError, running,
  new_backend, fetch_capability, build_registry, refresh, get_backend,
}

module _ (decimal : ℕ → Text) (query : ModelBackend → CapabilityAnswer) where
  -- A refresh that returns an error keeps the registry.
  pub refresh-err_keeps :
      (a : ModelsAnswer) (registry : Registry) (x : RefreshError)
      → (refresh decimal query a registry).0 ≡ err x
      → (refresh decimal query a registry).1 ≡ registry
  unfolding refresh
  refresh-err_keeps ModelsAnswer.unreachable registry x h = refl
  refresh-err_keeps (ModelsAnswer.answered status decoded) registry x h = ground arith

  -- The last running entry of a name, with what its own endpoint told.
  unfoldable pub last_running : List RunningModel → Text → Option ModelBackend
  last_running [] k = none
  last_running (m ∷ models) k =
      let later = last_running models k in
      let b = new_backend decimal m in
      let here =
        if text_eq m.status running && text_eq m.model_name k
        then some (fetch_capability (query b) b)
        else none in
      elim later [ some found ↦ some found | none ↦ here ]

  get-build_registry :
      (models : List RunningModel) (registry : Registry) (k : Text)
      → get (build_registry decimal query models registry) k
        ≡ elim (last_running models k) [ some b ↦ some b | none ↦ get registry k ]
  unfolding build_registry last_running
  get-build_registry [] registry k = refl
  get-build_registry (m ∷ models) registry k =
      let b = new_backend decimal m in
      let b' = fetch_capability (query b) b in
      ground (
        arith,
        get-build_registry models
            (if text_eq m.status running then put registry m.model_name b' else registry) k,
        get-put registry m.model_name b' k,
      )

  -- After a refresh that got a decoded answer the registry holds a model exactly as the last
  -- running entry of its name in the answer describes it; what it held before is gone.
  pub refresh-get_backend :
      (models : List RunningModel) (registry : Registry) (k : Text)
      → get_backend (refresh decimal query (ModelsAnswer.answered 200 (some models)) registry).1 k
        ≡ last_running models k
  unfolding refresh
  refresh-get_backend models registry k =
      ground (arith, get-build_registry models [] k, get-empty {0} {V = ModelBackend} k)
