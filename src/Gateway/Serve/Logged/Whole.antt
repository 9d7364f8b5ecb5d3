-- ===== src/Gateway/Serve/Logged/Whole.antt =====
-- The authentication, and with it the whole handler.
use sovereignstack.Prelude.{◌⊎◌, ◌≡◌, ◌++◌, take}
use sovereignstack.Text.{Text, codes}
use sovereignstack.Float.{Float}
use sovereignstack.Gateway.ClientIp.{Request, get_client_ip}
use sovereignstack.Gateway.State.{
  auth_failure, auth_failed, State, unauthorized, World, Gateway, Step, stop, go, count, log_audit,
}
use sovereignstack.Gateway.Serve.Logged.{user_of}

module _ {fl : Float} {S : Type 0} (gw : Gateway fl S) (w : World fl S) (r : Request) where
  -- the user goes on, or the key is refused
  abbrev Authenticated : Text → State fl S → Step fl S Text × State fl S → Type 0
  Authenticated key s out =
      (out ≡ (go (user_of gw.auth_provider key), s))
      ⊎ (out ≡ (
        stop unauthorized,
        count fl S gw auth_failed (
            log_audit fl S
              (auth_failure (take 8 key ++ codes "...") r.request_uri (get_client_ip r)) s),
      ))
