-- ===== src/Policy/Examples.antt =====
-- The theorems of the policy service at concrete inputs.
use sovereignstack.Prelude.{
  ◌+◌, ◌-◌, ◌≡◌, ◌↔◌, refl, Option, if◌then◌else◌, ltb, Option-cases, inl, inr, false, true, [],
  ◌∷◌, ◌++◌, none, some, arith,
}
use sovereignstack.Text.{Text, codes, text_eq, has_prefix, after_prefix, trim_prefix}
use sovereignstack.Text.Split.{Free, split}
use sovereignstack.Dict.{get, put, remove}
use sovereignstack.Keys.Save.{save_locked, write_file, snapshot}
use sovereignstack.Keys.Store.{get_by_id, grant_model_access, save_users, allows}
use sovereignstack.Keys.Store.Persist.{InSync}
use sovereignstack.Keys.Examples.{env, in_sync, in_sync-InSync}
use sovereignstack.Gateway.ClientIp.{post}
use sovereignstack.Policy.Session.{SessionCrypto, dot, verify_session, cut_last}
use sovereignstack.Policy.Session.RoundTrip.{SessionLaws, Signed, verify_session_iff}
use sovereignstack.Policy.Service.{Session, OidcState, Service, PolicyRequest}
use sovereignstack.Policy.Admins.{
  check_admin_auth, authenticate_admin, cookie_subject, admin_role, named_actor, audit,
  actor_from_oidc_session,
}
use sovereignstack.Policy.Oidc.{
  Provider, IdToken, add_state, take_state, exchange_code, add_session,
}
use sovereignstack.Policy.Oidc.Interleaved.{
  World, login, accept, sign_in, Reach, here, next, fresh, IsPaid, Vouched, Reach-IsPaid,
  admin_cookie-Vouched,
}
use sovereignstack.Policy.Users.{
  part, handle_users, handle_parts, handle_user, change_models, finish,
}
use sovereignstack.Policy.Users.Ends.{parts_of, is_admin_reply}
use sovereignstack.Policy.Users.Protected.{handle_users_protected}
use sovereignstack.Policy.Users.Audited.{
  Kept, handle_users_audited, is_refused, handle_users-InSync,
}

-- A base64 that moves every byte behind '.', and an HMAC that hides nothing.
abbrev moved : Text → Text
moved [] = []
moved (b ∷ t) = (b + 47) ∷ moved t

abbrev moved_back : Text → Option Text
moved_back [] = some []
moved_back (b ∷ t) = elim (moved_back t) [
  | none ↦ none
  | some u ↦ if ltb b 47 then none else some ((b - 47) ∷ u)
]

moved_back-moved : (t : Text) → moved_back (moved t) ≡ some t
moved_back-moved [] = refl
moved_back-moved (b ∷ t) = ground (arith, moved_back-moved t)

moved_back-Free : (t bytes : Text) → moved_back t ≡ some bytes → Free dot t
moved_back-Free [] bytes h = tt
moved_back-Free (b ∷ t) bytes h = elim (Option-cases (moved_back t)) [
  | inl failed ↦ absurd (ground arith)
  | inr (u, found) ↦ (ground arith, moved_back-Free t u found)
]

abbrev open_mac : SessionCrypto
open_mac = record { mac = λ secret sid. secret ++ sid; encode = moved; decode = moved_back }

open_mac-SessionLaws : SessionLaws open_mac
open_mac-SessionLaws = record { decode-encode = moved_back-moved; decode-Free = moved_back-Free }

abbrev cookie : Text
cookie = codes "sid" ++ dot ∷ moved (codes "secretsid")

verify_session_iff_example :
    (verify_session open_mac (codes "secret") cookie ≡ some (codes "sid"))
    ↔ Signed open_mac (codes "secret") cookie (codes "sid")
verify_session_iff_example =
    verify_session_iff open_mac open_mac-SessionLaws (codes "secret") cookie (codes "sid")

abbrev carol : IdToken
carol = record { subject = codes "carol"; claim = λ name. codes "admin" }

abbrev keycloak : Provider
keycloak = record {
  auth_code_url = λ state. state;
  exchange = λ code. some code;
  verify = λ raw_id. some carol;
}

abbrev empty_oidc : OidcState
empty_oidc = record {
  admin_claim = codes "role";
  session_ttl = 100;
  session_secret = codes "secret";
  sessions = [];
  states = [];
}

abbrev carols : Session
carols = record { subject = codes "carol"; role = codes "admin"; expires = 107 }

abbrev signed_in_oidc : OidcState
signed_in_oidc = record empty_oidc { sessions = (codes "sid", carols) ∷ [] }

abbrev one_login : World
one_login = record { oidc = signed_in_oidc; in_flight = 0; logins = 1 }

-- a login, its callback's first region and its second
reaches : Reach keycloak (fresh empty_oidc) one_login
unfolding add_state take_state exchange_code add_session put remove get text_eq
reaches =
    next (next (next here (login 5 (codes "state"))) (accept 6 (codes "state") refl))
      (sign_in 7 0 (codes "code") (codes "sid") carols refl refl)

Reach-IsPaid_example : IsPaid one_login
Reach-IsPaid_example = Reach-IsPaid keycloak empty_oidc one_login reaches

is_carol : cookie_subject open_mac 50 signed_in_oidc (some cookie) ≡ codes "carol"
unfolding verify_session cut_last get text_eq
is_carol = refl

admin_cookie-Vouched_example :
    Vouched keycloak
      (codes "role")
      (cookie_subject open_mac 50 signed_in_oidc (some cookie))
      admin_role
admin_cookie-Vouched_example =
    admin_cookie-Vouched keycloak open_mac empty_oidc one_login 50 cookie reaches
      (unfold verify_session cut_last get text_eq in refl)

abbrev service : Service
service = record {
  store = in_sync;
  admin_key = codes "k1";
  named_admins = [];
  has_audit = true;
  audits = [];
  oidc = none;
}

abbrev grant_request : Text → PolicyRequest
grant_request authorization = record {
  method = post;
  path = codes "/api/v1/users/alice/models/llama";
  authorization = authorization;
  query = λ name. [];
  cookie = none;
  quota = none;
}

abbrev ask_alice : PolicyRequest
ask_alice = grant_request (codes "Bearer k1")

abbrev ask_mallory : PolicyRequest
ask_mallory = grant_request (codes "Bearer guess")

handle_users_protected_example :
    ((handle_users open_mac env ask_mallory service).1 ≡ service)
    × (is_admin_reply (handle_users open_mac env ask_mallory service).0 ≡ false)
handle_users_protected_example = handle_users_protected open_mac env ask_mallory service (
    unfold check_admin_auth authenticate_admin actor_from_oidc_session has_prefix trim_prefix
      after_prefix text_eq named_actor in
    refl)

handle_users_audited_example :
    Kept
      (authenticate_admin open_mac env.now service ask_alice)
      (part (parts_of ask_alice) 4)
      service
      (handle_users open_mac env ask_alice service)
handle_users_audited_example = handle_users_audited open_mac env ask_alice service refl

granted : is_refused (handle_users open_mac env ask_alice service).0 ≡ false
unfolding handle_users handle_parts handle_user change_models finish split check_admin_auth
    authenticate_admin actor_from_oidc_session has_prefix trim_prefix after_prefix text_eq
    named_actor audit get_by_id get grant_model_access save_users save_locked write_file snapshot
    allows put
granted = refl

handle_users-InSync_example : InSync env.save (handle_users open_mac env ask_alice service).1.store
handle_users-InSync_example =
    handle_users-InSync open_mac env ask_alice service in_sync-InSync granted
