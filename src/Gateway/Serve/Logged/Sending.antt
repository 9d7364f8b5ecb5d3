-- ===== src/Gateway/Serve/Logged/Sending.antt =====
-- What the checks and the forwarding behind them leave in the log.
use sovereignstack.Prelude.{
  ℕ, ◌≡◌, refl, ◌∙◌, ap, Bool, true, false, ◌∷◌, Option, none, some, arith, ltb, if◌then◌else◌,
  length,
}
use sovereignstack.Text.{Text}
use sovereignstack.Int64.{ℤ}
use sovereignstack.Float.{Float}
use sovereignstack.Gateway.ClientIp.{Request, get_client_ip}
use sovereignstack.Gateway.Director.{director}
use sovereignstack.Gateway.Usage.{parse_token_usage}
use sovereignstack.Gateway.State.{
  error, request, response, State, bad_body, Exchange, finished, cut_off, proxied, aborted, World,
  Gateway, stop, go, Handler, log_audit, continue, ◌>>=◌,
}
use sovereignstack.Gateway.Stages.{account, forward, read_body}
use sovereignstack.Gateway.Stages.Checked.{
  check_source_ip-Checked, check_access-Checked, check_token_quota-Checked,
  check_rate_limit-Checked, check_admission-Checked, check_capability-Checked,
}
use sovereignstack.Gateway.Serve.{guarded}
use sovereignstack.Gateway.Serve.Logged.{Accounted, size_of, outcome, bind-Accounted}

module _ {fl : Float} {S : Type 0} (gw : Gateway fl S) (w : World fl S) (r : Request) where
  module _ (user_id model : Text) (s : State fl S) where
    audit-account :
        (status size : ℕ) (used : ℤ × ℤ) (s₁ : State fl S)
        → (account gw w r user_id model status size used s₁).audit
          ≡ (if ltb status 400
              then response user_id model r.request_uri status size used.0 used.1
              else error user_id r.request_uri status (get_client_ip r))
            ∷ s₁.audit
    unfolding account
    audit-account status size used s₁ = ground arith

    -- what the gateway does behind the exchange with the backend
    exchange-Accounted :
        (x : Exchange) (s₁ : State fl S)
        → s₁.audit ≡ s.audit
        → s₁.counters ≡ s.counters
        → let sent = director gw w r in
          let asked = request user_id model r.request_uri (size_of gw w r r.body) in
          Accounted gw w r user_id model s (elim x [
            | cut_off status ↦ (stop (aborted sent status), log_audit fl S asked s₁)
            | finished answer ↦
                let used = parse_token_usage w.json_usage answer.body answer.content_type in
                (
                  stop (proxied sent answer),
                  account gw w r user_id model answer.status
                      (length answer.body)
                      used
                      (log_audit fl S asked s₁),
                )
          ])
    exchange-Accounted (cut_off status) s₁ e c = record {
      reply = _;
      replied = refl;
      logged = ap (λ log. request user_id model r.request_uri (size_of gw w r r.body) ∷ log) e;
      uncharged = λ h. c;
    }
    exchange-Accounted (finished answer) s₁ e c =
        let asked = request user_id model r.request_uri (size_of gw w r r.body) in
        let used = parse_token_usage w.json_usage answer.body answer.content_type in
        record {
          reply = _;
          replied = refl;
          logged =
              audit-account answer.status (length answer.body) used (log_audit fl S asked s₁)
              ∙ ap (λ log. outcome gw w r user_id model answer ∷ asked ∷ log) e;
          uncharged = λ h. cc;
        }

    forward-Accounted :
        (s₁ : State fl S)
        → s₁.audit ≡ s.audit
        → s₁.counters ≡ s.counters
        → Accounted gw w r user_id model s (forward gw w r user_id model (size_of gw w r r.body) s₁)
    unfolding forward
    forward-Accounted s₁ e c = exchange-Accounted (w.upstream (director gw w r)) s₁ e c

    -- the body is read, and the request goes out
    body-Accounted :
        (o : Option Text) (readable : Bool) (s₁ : State fl S) (f : ℕ → Handler fl S (Unit {0}))
        → s₁.audit ≡ s.audit
        → s₁.counters ≡ s.counters
        → Accounted gw w r user_id model s (f (size_of gw w r o) s₁)
        → Accounted gw w r user_id model s (
            continue
              (elim o [
                | none ↦ (go 0, s₁)
                | some body ↦ if readable then (go (length body), s₁) else (
                  stop bad_body,
                  log_audit fl S (error user_id r.request_uri 400 (get_client_ip r)) s₁,
                )
              ])
              f)
    body-Accounted none readable s₁ f e c h = h
    body-Accounted (some body) true s₁ f e c h = h
    body-Accounted (some body) false s₁ f e c h = record {
      reply = bad_body;
      replied = refl;
      logged = ap (λ log. error user_id r.request_uri 400 (get_client_ip r) ∷ log) e;
      uncharged = λ sent. c;
    }

    sent-Accounted :
        (s₁ : State fl S)
        → s₁.audit ≡ s.audit
        → s₁.counters ≡ s.counters
        → Accounted gw w r user_id model s
            ((read_body gw w r user_id >>= λ size. forward gw w r user_id model size) s₁)
    unfolding read_body
    sent-Accounted s₁ e c = body-Accounted r.body r.readable s₁ _ e c (forward-Accounted s₁ e c)

    pub guarded-Accounted :
        (s₀ : State fl S)
        → s₀.audit ≡ s.audit
        → s₀.counters ≡ s.counters
        → Accounted gw w r user_id model s (guarded gw w r user_id model s₀)
    unfolding guarded
    guarded-Accounted s₀ e₀ c₀ =
        bind-Accounted gw w r user_id model s s₀ _ (check_source_ip-Checked gw w r user_id s₀) e₀ c₀
          λ _ s₁ e₁ c₁.
            bind-Accounted gw w r user_id model s s₁ _
              (check_access-Checked gw w r user_id s₁ model) e₁ c₁
              λ _ s₂ e₂ c₂.
                bind-Accounted gw w r user_id model s s₂ _
                  (check_token_quota-Checked gw w r user_id s₂) e₂ c₂
                  λ _ s₃ e₃ c₃.
                    bind-Accounted gw w r user_id model s s₃ _
                      (check_rate_limit-Checked gw w r user_id s₃) e₃ c₃
                      λ _ s₄ e₄ c₄.
                        bind-Accounted gw w r user_id model s s₄ _
                          (check_admission-Checked gw w r user_id s₄ model) e₄ c₄
                          λ _ s₅ e₅ c₅.
                            bind-Accounted gw w r user_id model s s₅ _
                              (check_capability-Checked gw w r user_id s₅) e₅ c₅
                              λ _ s₆ e₆ c₆. sent-Accounted s₆ e₆ c₆
