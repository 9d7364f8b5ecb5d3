-- ===== src/Gateway/Serve.antt =====
-- `ServeHTTP` of core/gateway/proxy.go.
pub mod Safety
pub mod Logged
use sovereignstack.Prelude.{ℕ}
use sovereignstack.Text.{Text}
use sovereignstack.Float.{Float}
use sovereignstack.Gateway.ClientIp.{Request}
use sovereignstack.Gateway.Director.{extract_model_name}
use sovereignstack.Gateway.Stages.{
  authenticate, serve_special, check_source_ip, check_access, check_token_quota, check_rate_limit,
  check_admission, check_capability, read_body, forward,
}
use sovereignstack.Gateway.State.{
  State, Reply, World, Gateway, Step, Handler, received, count, ◌>>=◌, ◌>>◌,
}

module _ {fl : Float} {S : Type 0} (gw : Gateway fl S) (w : World fl S) (r : Request) where
  -- the checks behind the gateway's own endpoints, and the forwarding
  unfoldable pub guarded : Text → Text → Handler fl S (Unit {0})
  guarded user_id model = do
    check_source_ip gw w r user_id
    check_access gw w r user_id model
    check_token_quota gw w r user_id
    check_rate_limit gw w r user_id
    check_admission gw w r user_id model
    check_capability gw w r user_id
    size ← read_body gw w r user_id
    forward gw w r user_id model size

  unfoldable pub serve_http : Handler fl S (Unit {0})
  unfolding guarded
  serve_http s =
      (do
        user_id ← authenticate gw w r
        serve_special gw w r user_id
        guarded user_id (extract_model_name w r))
        (count fl S gw received s)
