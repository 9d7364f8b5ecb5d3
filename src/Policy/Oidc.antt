-- ===== src/Policy/Oidc.antt =====
-- core/management/policy/oidc.go: signing in by OpenID Connect. The provider's libraries are a
-- parameter, as are the random texts; a session's lifetime is a duration that is not negative.
-- `handleCallback` takes the lock twice, so its two locked regions are functions of their own, which
-- `Policy.Oidc.Interleaved` runs between those of other calls.
pub mod Interleaved
use sovereignstack.Prelude.{
  ℕ, ◌+◌, ◌*◌, ◌==◌, Bool, true, false, not, ◌||◌, List, [], Option, none, some, Result, ok, err,
  ltb, if◌then◌else◌, is_empty,
}
use sovereignstack.Text.{Text, codes}
use sovereignstack.Dict.{Dict, get, put, remove}
use sovereignstack.Policy.Session.{SessionCrypto, sign_session, verify_session}
use sovereignstack.Policy.Service.{
  Session, OidcState, Service, PolicyRequest, PolicyReply, not_configured, invalid_state,
  missing_code, exchange_failed, no_id_token, id_token_refused, redirected, signed_in, logged_out,
}

-- A verified ID token: its subject and its claims, "" for one that is missing or no string.
pub record IdToken : Type 0 where
  pub subject : Text
  pub claim : Text → Text

-- oauth2.Config and oidc.IDTokenVerifier
pub record Provider : Type 0 where
  pub auth_code_url : Text → Text
  -- `Exchange` with the `id_token` of its answer, "" where there is none
  pub exchange : Text → Option Text
  pub verify : Text → Option IdToken

-- OIDCConfig
pub record OidcConfig : Type 0 where
  pub issuer_url : Text
  pub client_id : Text
  pub redirect_url : Text
  pub admin_claim : Text
  pub session_ttl : ℕ
  pub session_secret : Text

pub data OidcError : Type 0 where
  missing_fields no_secret not_discovered : OidcError

-- the nanoseconds of a minute
abbrev pub minute : ℕ
minute = 60 * 1000000000

-- the configured secret, or a random one
abbrev pub secret_of : Text → Option Text → Option Text
secret_of secret random = if is_empty secret then random else some secret

unfoldable pub enable_oidc :
    Option Text → (Text → Bool) → OidcConfig → Service → Result OidcError (Unit {0}) × Service
enable_oidc random discovers cfg s =
    if is_empty cfg.issuer_url || is_empty cfg.client_id || is_empty cfg.redirect_url
    then (err missing_fields, s)
    else elim (secret_of cfg.session_secret random) [
      | none ↦ (err no_secret, s)
      | some secret ↦ if not (discovers cfg.issuer_url) then (err not_discovered, s) else (
        ok tt,
        record s {
          oidc = some (record {
            admin_claim = if is_empty cfg.admin_claim then codes "role" else cfg.admin_claim;
            session_ttl = if cfg.session_ttl == 0 then 8 * (60 * minute) else cfg.session_ttl;
            session_secret = secret;
            sessions = [];
            states = [];
          });
        },
      )
    ]

unfoldable pub add_state : ℕ → Text → OidcState → OidcState
add_state now state o = record o { states = put o.states state (now + 10 * minute) }

unfoldable pub handle_login : Provider → ℕ → Text → Service → PolicyReply × Service
handle_login p now state s = elim s.oidc [
  | none ↦ (not_configured, s)
  | some o ↦ (redirected (p.auth_code_url state), record s { oidc = some (add_state now state o) })
]

abbrev pub is_valid_state : ℕ → Option ℕ → Bool
is_valid_state now none = false
is_valid_state now (some expiry) = not (ltb expiry now)

-- the first locked region of the callback: the state is used up, and it was valid
unfoldable pub take_state : ℕ → Text → OidcState → Bool × OidcState
take_state now state o =
    (is_valid_state now (get o.states state), record o { states = remove o.states state })

-- what the callback does between its locked regions: the session of the token, or the answer
unfoldable pub exchange_code : Provider → ℕ → OidcState → Text → Result PolicyReply Session
exchange_code p now o code = if is_empty code then err missing_code else elim (p.exchange code) [
  | none ↦ err exchange_failed
  | some raw_id ↦ if is_empty raw_id then err no_id_token else elim (p.verify raw_id) [
    | none ↦ err id_token_refused
    | some token ↦ ok (record {
      subject = token.subject;
      role = token.claim o.admin_claim;
      expires = now + o.session_ttl;
    })
  ]
]

-- the second locked region
unfoldable pub add_session : Text → Session → OidcState → OidcState
add_session sid sess o = record o { sessions = put o.sessions sid sess }

unfoldable pub handle_callback :
    Provider → SessionCrypto → ℕ → Text → Service → PolicyRequest → PolicyReply × Service
handle_callback p c now sid s r = elim s.oidc [
  | none ↦ (not_configured, s)
  | some o ↦
      let taken = take_state now (r.query (codes "state")) o in
      let s_taken : Service = record s { oidc = some taken.1 } in
      if not taken.0
      then (invalid_state, s_taken)
      else elim (exchange_code p now taken.1 (r.query (codes "code"))) [
        | err reply ↦ (reply, s_taken)
        | ok sess ↦ (
          signed_in (sign_session c o.session_secret sid) sess.subject sess.role sess.expires,
          record s { oidc = some (add_session sid sess taken.1) },
        )
      ]
]

abbrev pub end_session : Option Text → OidcState → OidcState
end_session none o = o
end_session (some sid) o = record o { sessions = remove o.sessions sid }

abbrev pub cookie_session : SessionCrypto → Text → Option Text → Option Text
cookie_session c secret none = none
cookie_session c secret (some value) = verify_session c secret value

unfoldable pub handle_logout : SessionCrypto → Service → PolicyRequest → PolicyReply × Service
handle_logout c s r = elim s.oidc [
  | none ↦ (not_configured, s)
  | some o ↦ (
    logged_out,
    record s { oidc = some (end_session (cookie_session c o.session_secret r.cookie) o) },
  )
]
