-- ===== src/Policy/Users.antt =====
-- core/management/policy/policy.go: the handlers of users, model grants, quotas and access checks. A
-- handler takes the service and returns its reply with the new service.
pub mod Ends
pub mod Protected
pub mod Audited
use sovereignstack.Prelude.{
  ℕ, ◌==◌, Bool, true, false, not, ◌&&◌, ◌||◌, List, [], ◌∷◌, Option, none, some, Result, ok, err,
  ltb, leb, if◌then◌else◌, is_empty, length, get_elem?,
}
use sovereignstack.Text.{Text, codes, text_eq}
use sovereignstack.Text.Split.{split}
use sovereignstack.Int64.{ℤ}
use sovereignstack.Keys.Profile.{UserProfile}
use sovereignstack.Keys.Store.{
  Env, Outcome, get_by_id, list_users, grant_model_access, revoke_model_access, set_quota,
  can_access,
}
use sovereignstack.Gateway.ClientIp.{Method, get, post, put, patch, delete, other}
use sovereignstack.Policy.Session.{SessionCrypto}
use sovereignstack.Policy.Service.{
  Service, AdminAction, grant_model, revoke_model, PolicyRequest, PolicyReply, invalid_path,
  method_not_allowed, unauthorized, user_not_found, bad_body, users_listed, profile_read,
  store_refused, model_granted, model_revoked, quota_set, missing_params, access_checked,
}
use sovereignstack.Policy.Admins.{check_admin_auth, authenticate_admin, audit}

-- the byte '/'
abbrev pub slash : ℕ
slash = 47

abbrev pub text_of : Option Text → Text
text_of none = []
text_of (some t) = t

-- parts[n], "" where there is none
abbrev pub part : List Text → ℕ → Text
part parts n = text_of (get_elem? parts n)

abbrev pub is_get : Method → Bool
is_get get = true
is_get m = false

abbrev pub is_patch : Method → Bool
is_patch patch = true
is_patch m = false

-- What follows a call of the store: its error, or the audit and the answer.
unfoldable pub finish :
    Text → AdminAction → PolicyReply → Service → Outcome (Unit {0}) → PolicyReply × Service
finish actor action reply s (r, ks) = elim r [
  | err x ↦ (store_refused x, record s { store = ks })
  | ok done ↦ (reply, audit actor action (record s { store = ks }))
]

unfoldable pub list_all : SessionCrypto → Env → PolicyRequest → Service → PolicyReply × Service
list_all c e r s =
    if not (is_get r.method)
    then (method_not_allowed, s)
    else if not (check_admin_auth c e.now s r)
    then (unauthorized, s)
    else (users_listed (list_users s.store), s)

unfoldable pub change_models :
    SessionCrypto → Env → PolicyRequest → Text → Text → Service → PolicyReply × Service
unfolding finish
change_models c e r id model s =
    if not (check_admin_auth c e.now s r)
    then (unauthorized, s)
    else let actor = authenticate_admin c e.now s r in
      elim r.method [
        | post ↦
            finish actor (grant_model id model) (model_granted model) s
              (grant_model_access e id model s.store)
        | delete ↦
            finish actor (revoke_model id model) (model_revoked model) s
              (revoke_model_access e id model s.store)
        | _ ↦ (method_not_allowed, s)
      ]

unfoldable pub change_quota :
    SessionCrypto → Env → PolicyRequest → Text → Service → PolicyReply × Service
unfolding finish
change_quota c e r id s =
    if not (is_patch r.method)
    then (method_not_allowed, s)
    else if not (check_admin_auth c e.now s r)
    then (unauthorized, s)
    else elim r.quota [
      | none ↦ (bad_body, s)
      | some (daily, monthly) ↦
          finish (authenticate_admin c e.now s r) (AdminAction.set_quota id daily monthly)
            (quota_set daily monthly) s (set_quota e id daily monthly s.store)
    ]

-- What is behind the lookup of the user.
unfoldable pub handle_user :
    SessionCrypto → Env → PolicyRequest → List Text → UserProfile → Service → PolicyReply × Service
unfolding change_models change_quota
handle_user c e r parts user s =
    if leb 7 (length parts) && text_eq (part parts 5) (codes "models")
    then change_models c e r (part parts 4) (part parts 6) s
    else if leb 6 (length parts) && text_eq (part parts 5) (codes "quota")
    then change_quota c e r (part parts 4) s
    else if is_get r.method
    then (profile_read user, s)
    else (method_not_allowed, s)

unfoldable pub handle_parts :
    SessionCrypto → Env → PolicyRequest → List Text → Service → PolicyReply × Service
unfolding handle_user list_all
handle_parts c e r parts s =
    if ltb (length parts) 4
    then (invalid_path, s)
    else if length parts == 4 || (length parts == 5 && is_empty (part parts 4))
    then list_all c e r s
    else elim (get_by_id s.store (part parts 4)) [
      | none ↦ (user_not_found, s)
      | some user ↦ handle_user c e r parts user s
    ]

unfoldable pub handle_users : SessionCrypto → Env → PolicyRequest → Service → PolicyReply × Service
unfolding handle_parts
handle_users c e r s = handle_parts c e r (split slash r.path) s

unfoldable pub handle_access_check : PolicyRequest → Service → PolicyReply
handle_access_check r s =
    let user = r.query (codes "user") in
    let model = r.query (codes "model") in
    if not (is_get r.method)
    then method_not_allowed
    else if is_empty user || is_empty model
    then missing_params
    else access_checked user model (can_access s.store user model)
