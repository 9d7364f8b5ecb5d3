-- ===== src/Policy/Users/Protected.antt =====
-- What a request without an admin credential can do.
use sovereignstack.Prelude.{◌≡◌, refl, false}
use sovereignstack.Text.{Text}
use sovereignstack.Keys.Store.{Env}
use sovereignstack.Policy.Session.{SessionCrypto}
use sovereignstack.Policy.Service.{Service, PolicyRequest, PolicyReply}
use sovereignstack.Policy.Admins.{check_admin_auth}
use sovereignstack.Policy.Users.{handle_users}
use sovereignstack.Policy.Users.Ends.{
  is_admin_reply, Ends, harmless, listed, called, handle_users-Ends,
}

Ends-denied :
    {c : SessionCrypto} {e : Env} {r : PolicyRequest} {s : Service} {id : Text}
    {out : PolicyReply × Service}
    → Ends c e r s id out
    → check_admin_auth c e.now s r ≡ false
    → (out.1 ≡ s) × (is_admin_reply out.0 ≡ false)
Ends-denied (harmless reply plain) denied = (refl, plain)
Ends-denied (listed admin) denied = cc
Ends-denied (called action reply out admin call) denied = cc

-- A request that is no admin's leaves the whole service as it was (users, keys.json, sessions and
-- audit log) and gets no list of users and no answer of a change, whatever its path, method and
-- body.
pub handle_users_protected :
    (c : SessionCrypto) (e : Env) (r : PolicyRequest) (s : Service)
    → check_admin_auth c e.now s r ≡ false
    → ((handle_users c e r s).1 ≡ s) × (is_admin_reply (handle_users c e r s).0 ≡ false)
handle_users_protected c e r s denied = Ends-denied (handle_users-Ends c e r s) denied
