-- ===== src/Policy/Service.antt =====
-- core/management/policy/policy.go and oidc.go: the service, its sessions, a request and the replies.
use sovereignstack.Prelude.{ℕ, Bool, List, Option}
use sovereignstack.Text.{Text}
use sovereignstack.Int64.{ℤ}
use sovereignstack.Dict.{Dict}
use sovereignstack.Keys.Profile.{UserProfile, KeyError}
use sovereignstack.Keys.Store.{KeyStore}
use sovereignstack.Gateway.ClientIp.{Method}

-- oidcSession
pub record Session : Type 0 where
  pub subject : Text
  pub role : Text
  pub expires : ℕ

-- the part of the OIDC bundle that does not belong to its libraries
pub record OidcState : Type 0 where
  pub admin_claim : Text
  pub session_ttl : ℕ
  pub session_secret : Text
  pub sessions : Dict Session
  -- the OAuth `state` values that were handed out, with their expiry
  pub states : Dict ℕ

-- what an audited call did
pub data AdminAction : Type 0 where
  grant_model revoke_model : Text → Text → AdminAction
  set_quota : Text → ℤ → ℤ → AdminAction

pub record Service : Type 0 where
  pub store : KeyStore
  pub admin_key : Text
  pub named_admins : Dict Text
  -- whether `AdminAudit` is set, and its calls: actor and action, the latest first
  pub has_audit : Bool
  pub audits : List (Text × AdminAction)
  pub oidc : Option OidcState

-- *http.Request, as far as the handlers read it: `query` is "" for a missing parameter, `cookie` is
-- the session cookie, `quota` what json decodes out of the body
pub record PolicyRequest : Type 0 where
  pub method : Method
  pub path : Text
  pub authorization : Text
  pub query : Text → Text
  pub cookie : Option Text
  pub quota : Option (ℤ × ℤ)

pub data PolicyReply : Type 0 where
  invalid_path method_not_allowed unauthorized user_not_found bad_body : PolicyReply
  users_listed : List UserProfile → PolicyReply
  profile_read : UserProfile → PolicyReply
  store_refused : KeyError → PolicyReply
  model_granted model_revoked : Text → PolicyReply
  quota_set : ℤ → ℤ → PolicyReply
  missing_params : PolicyReply
  -- user, model, and the answer
  access_checked : Text → Text → Bool → PolicyReply
  not_configured invalid_state missing_code exchange_failed no_id_token id_token_refused :
      PolicyReply
  redirected : Text → PolicyReply
  -- the cookie's value, the subject, the role and the expiry
  signed_in : Text → Text → Text → ℕ → PolicyReply
  logged_out : PolicyReply
