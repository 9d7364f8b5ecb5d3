-- ===== src/Policy/Admins.antt =====
-- core/management/policy/admins.go and `checkAdminAuth` of policy.go.
use sovereignstack.Prelude.{
  ℕ, Bool, true, false, not, ◌&&◌, [], ◌∷◌, Option, none, some, ltb, if◌then◌else◌, is_empty,
}
use sovereignstack.Text.{Text, codes, text_eq, has_prefix, trim_prefix}
use sovereignstack.Dict.{Dict, get}
use sovereignstack.Policy.Session.{SessionCrypto, verify_session}
use sovereignstack.Policy.Service.{Session, OidcState, AdminAction, Service, PolicyRequest}

abbrev pub admin_role : Text
admin_role = codes "admin"

abbrev pub bearer : Text
bearer = codes "Bearer "

-- the subject of a session that is there, is an admin's and has not expired
abbrev pub live_subject : ℕ → Option Session → Text
live_subject now none = []
live_subject now (some sess) =
    if not (text_eq sess.role admin_role)
    then []
    else if ltb sess.expires now
    then []
    else sess.subject

abbrev pub cookie_subject : SessionCrypto → ℕ → OidcState → Option Text → Text
cookie_subject c now o none = []
cookie_subject c now o (some value) = elim (verify_session c o.session_secret value) [
  | none ↦ []
  | some sid ↦ live_subject now (get o.sessions sid)
]

unfoldable pub actor_from_oidc_session : SessionCrypto → ℕ → Service → PolicyRequest → Text
actor_from_oidc_session c now s r = elim s.oidc [
  | none ↦ []
  | some o ↦ cookie_subject c now o r.cookie
]

-- the loop over the named admins
unfoldable pub named_actor : Text → Dict Text → Option Text
named_actor token [] = none
named_actor token ((name, expected) ∷ admins) =
    let rest = named_actor token admins in
    if not (is_empty expected) && text_eq token expected then some name else rest

unfoldable pub authenticate_admin : SessionCrypto → ℕ → Service → PolicyRequest → Text
unfolding named_actor
authenticate_admin c now s r =
    if not (has_prefix r.authorization bearer)
    then actor_from_oidc_session c now s r
    else let token = trim_prefix r.authorization bearer in
      if not (is_empty s.admin_key) && text_eq token s.admin_key
      then admin_role
      else elim (named_actor token s.named_admins) [
        | some name ↦ name
        | none ↦ actor_from_oidc_session c now s r
      ]

abbrev pub is_open : Option OidcState → Bool
is_open none = true
is_open (some o) = false

unfoldable pub check_admin_auth : SessionCrypto → ℕ → Service → PolicyRequest → Bool
check_admin_auth c now s r =
    if is_empty s.admin_key && is_empty s.named_admins && is_open s.oidc
    then true
    else not (is_empty (authenticate_admin c now s r))

unfoldable pub audit : Text → AdminAction → Service → Service
audit actor action s =
    if s.has_audit
    then record s {
      audits = (if is_empty actor then codes "unknown" else actor, action) ∷ s.audits;
    }
    else s
