-- ===== src/Policy/Users/Ends.antt =====
-- The three ways in which the handler of users ends: an answer that changes nothing, the list of the
-- users, or a call of the key store with its audit.
use sovereignstack.Prelude.{
  ◌==◌, ◌≡◌, refl, Bool, true, false, not, ◌&&◌, ◌||◌, List, Option, none, some, if◌then◌else◌,
  length, is_empty, leb, ltb,
}
use sovereignstack.Text.{Text, codes, text_eq}
use sovereignstack.Text.Split.{split}
use sovereignstack.Int64.{ℤ}
use sovereignstack.Keys.Profile.{UserProfile}
use sovereignstack.Keys.Store.{
  Env, Outcome, KeyStore, get_by_id, list_users, grant_model_access, revoke_model_access, set_quota,
}
use sovereignstack.Gateway.ClientIp.{Method, get, post, put, patch, delete, other}
use sovereignstack.Policy.Session.{SessionCrypto}
use sovereignstack.Policy.Service.{
  Service, AdminAction, grant_model, revoke_model, PolicyRequest, PolicyReply, method_not_allowed,
  invalid_path, user_not_found, unauthorized, bad_body, profile_read, users_listed, store_refused,
  model_granted, model_revoked, quota_set,
}
use sovereignstack.Policy.Admins.{check_admin_auth, authenticate_admin}
use sovereignstack.Policy.Users.{
  part, slash, is_get, is_patch, finish, list_all, change_models, change_quota, handle_user,
  handle_parts, handle_users,
}

-- the answers that stem from an admin's call
abbrev pub is_admin_reply : PolicyReply → Bool
is_admin_reply (users_listed users) = true
is_admin_reply (store_refused x) = true
is_admin_reply (model_granted model) = true
is_admin_reply (model_revoked model) = true
is_admin_reply (quota_set daily monthly) = true
is_admin_reply reply = false

-- A call of the store for a user, with the action that is audited and the answer to a success.
pub data Call (e : Env) (ks : KeyStore) (id : Text)
    : AdminAction → PolicyReply → Outcome (Unit {0}) → Type 0 where
  grants :
      (model : Text)
      → Call e ks id (grant_model id model) (model_granted model) (grant_model_access e id model ks)
  revokes :
      (model : Text)
      → Call e ks id
          (revoke_model id model)
          (model_revoked model)
          (revoke_model_access e id model ks)
  limits :
      (daily monthly : ℤ)
      → Call e ks id
          (AdminAction.set_quota id daily monthly)
          (quota_set daily monthly)
          (set_quota e id daily monthly ks)

pub data Ends (c : SessionCrypto) (e : Env) (r : PolicyRequest) (s : Service) (id : Text)
    : PolicyReply × Service → Type 0 where
  harmless : (reply : PolicyReply) → is_admin_reply reply ≡ false → Ends c e r s id (reply, s)
  listed :
      check_admin_auth c e.now s r ≡ true → Ends c e r s id (users_listed (list_users s.store), s)
  called :
      (action : AdminAction) (reply : PolicyReply) (out : Outcome (Unit {0}))
      → check_admin_auth c e.now s r ≡ true
      → Call e s.store id action reply out
      → Ends c e r s id (finish (authenticate_admin c e.now s r) action reply s out)

module _ (c : SessionCrypto) (e : Env) (r : PolicyRequest) (s : Service) (id : Text) where
  if-Ends :
      (b : Bool) (m n : PolicyReply × Service)
      → (b ≡ true → Ends c e r s id m)
      → (b ≡ false → Ends c e r s id n)
      → Ends c e r s id (if b then m else n)
  if-Ends true m n em en = em refl
  if-Ends false m n em en = en refl

  -- behind the admin check
  guarded-Ends :
      (b : Bool) (n : PolicyReply × Service)
      → (b ≡ true → Ends c e r s id n)
      → Ends c e r s id (if not b then (unauthorized, s) else n)
  guarded-Ends true n en = en refl
  guarded-Ends false n en = harmless unauthorized refl

  list_all-Ends : Ends c e r s id (list_all c e r s)
  unfolding list_all
  list_all-Ends =
      if-Ends (not (is_get r.method)) _ _ (λ _. harmless method_not_allowed refl)
        (λ _. guarded-Ends (check_admin_auth c e.now s r) _ listed)

  change_models-Ends : (model : Text) → Ends c e r s id (change_models c e r id model s)
  unfolding change_models
  change_models-Ends model =
      guarded-Ends (check_admin_auth c e.now s r) _ (λ h. by_method h r.method)
    where
      by_method :
          check_admin_auth c e.now s r ≡ true
          → (m : Method)
          → Ends c e r s id (elim m [
            | post ↦
                finish
                  (authenticate_admin c e.now s r)
                  (grant_model id model)
                  (model_granted model)
                  s
                  (grant_model_access e id model s.store)
            | delete ↦
                finish
                  (authenticate_admin c e.now s r)
                  (revoke_model id model)
                  (model_revoked model)
                  s
                  (revoke_model_access e id model s.store)
            | _ ↦ (method_not_allowed, s)
          ])
      by_method h get = harmless method_not_allowed refl
      by_method h post = called _ _ _ h (grants model)
      by_method h put = harmless method_not_allowed refl
      by_method h patch = harmless method_not_allowed refl
      by_method h delete = called _ _ _ h (revokes model)
      by_method h other = harmless method_not_allowed refl

  change_quota-Ends : Ends c e r s id (change_quota c e r id s)
  unfolding change_quota
  change_quota-Ends =
      if-Ends (not (is_patch r.method)) _ _ (λ _. harmless method_not_allowed refl)
        (λ _. guarded-Ends (check_admin_auth c e.now s r) _ (λ h. by_body h r.quota))
    where
      by_body :
          check_admin_auth c e.now s r ≡ true
          → (body : Option (ℤ × ℤ))
          → Ends c e r s id (elim body [
            | none ↦ (bad_body, s)
            | some (daily, monthly) ↦
                finish
                  (authenticate_admin c e.now s r)
                  (AdminAction.set_quota id daily monthly)
                  (quota_set daily monthly)
                  s
                  (set_quota e id daily monthly s.store)
          ])
      by_body h none = harmless bad_body refl
      by_body h (some (daily, monthly)) = called _ _ _ h (limits daily monthly)

module _ (c : SessionCrypto) (e : Env) (r : PolicyRequest) (s : Service) (parts : List Text) where
  handle_user-Ends :
      (user : UserProfile) → Ends c e r s (part parts 4) (handle_user c e r parts user s)
  unfolding handle_user
  handle_user-Ends user =
      if-Ends c e r s (part parts 4)
        (leb 7 (length parts) && text_eq (part parts 5) (codes "models")) _ _
        (λ _. change_models-Ends c e r s (part parts 4) (part parts 6))
        (λ _.
          if-Ends c e r s (part parts 4)
            (leb 6 (length parts) && text_eq (part parts 5) (codes "quota")) _ _
            (λ _. change_quota-Ends c e r s (part parts 4))
            (λ _.
              if-Ends c e r s (part parts 4) (is_get r.method) _ _
                (λ _. harmless (profile_read user) refl) (λ _. harmless method_not_allowed refl)))

  handle_parts-Ends : Ends c e r s (part parts 4) (handle_parts c e r parts s)
  unfolding handle_parts
  handle_parts-Ends =
      if-Ends c e r s (part parts 4) (ltb (length parts) 4) _ _ (λ _. harmless invalid_path refl)
        (λ _.
          if-Ends c e r s (part parts 4)
            (length parts == 4 || (length parts == 5 && is_empty (part parts 4))) _ _
            (λ _. list_all-Ends c e r s (part parts 4))
            (λ _. by_user (get_by_id s.store (part parts 4))))
    where
      by_user :
          (found : Option UserProfile)
          → Ends c e r s (part parts 4) (elim found [
            | none ↦ (user_not_found, s)
            | some user ↦ handle_user c e r parts user s
          ])
      by_user none = harmless user_not_found refl
      by_user (some user) = handle_user-Ends user

-- the parts of the request's path
abbrev pub parts_of : PolicyRequest → List Text
parts_of r = split slash r.path

pub handle_users-Ends :
    (c : SessionCrypto) (e : Env) (r : PolicyRequest) (s : Service)
    → Ends c e r s (part (parts_of r) 4) (handle_users c e r s)
unfolding handle_users
handle_users-Ends c e r s = handle_parts-Ends c e r s (parts_of r)
