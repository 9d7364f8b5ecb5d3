-- ===== src/Gateway/Director.antt =====
-- `director` and `extractModelName` of core/gateway/proxy.go: where a request is sent, and the model
-- that it names. Header names are compared in their canonical form.
pub mod Forwarding
use Prim.Native.Nat.{min}
use sovereignstack.Prelude.{
  Bool, true, false, ◌||◌, [], ◌++◌, none, some, if◌then◌else◌, is_empty, take,
}
use sovereignstack.Text.{Text, codes}
use sovereignstack.Float.{Float}
use sovereignstack.Router.{get_backend}
use sovereignstack.Gateway.Paths.{
  extract_model_name_from_path, strip_model_prefix_from_path, single_joining_slash,
}
use sovereignstack.Gateway.ClientIp.{Request, Method, post, put, get_client_ip}
use sovereignstack.Gateway.Header.{set_header}
use sovereignstack.Gateway.State.{Url, Forwarded, World, Gateway}

abbrev pub unknown_model : Text
unknown_model = codes "unknown"

abbrev is_post_or_put : Method → Bool
is_post_or_put post = true
is_post_or_put put = true
is_post_or_put _ = false

abbrev join_query : Text → Text → Text
join_query a b = if is_empty a || is_empty b then a ++ b else a ++ codes "&" ++ b

module _ {fl : Float} {S : Type 0} where
  -- the model field of the bytes that one Read of at most 512 gives
  unfoldable pub peek_model : World fl S → Text → Text
  peek_model w body = elim (w.json_model (take (min 512 (w.first_read body)) body)) [
    | none ↦ unknown_model
    | some model ↦ if is_empty model then unknown_model else model
  ]

  unfoldable pub extract_model_name : World fl S → Request → Text
  unfolding peek_model
  extract_model_name w r =
      let name = extract_model_name_from_path r.path in
      if is_empty name
      then if is_post_or_put r.method
        then elim r.body [ none ↦ unknown_model | some body ↦ peek_model w body ]
        else unknown_model
      else name

  -- the target, and the path without its routing directive
  unfoldable pub route : Gateway fl S → World fl S → Text → Url × Text
  route gw w path =
      let name = extract_model_name_from_path path in
      elim gw.model_router [
        | none ↦ (gw.target_url, path)
        | some registry ↦ if is_empty name then (gw.target_url, path) else (
          elim (get_backend w.registry_later name) [
            | none ↦ gw.target_url
            | some b ↦ w.parse_url b.url
          ],
          strip_model_prefix_from_path path name,
        )
      ]

  forward_headers : Gateway fl S → Request → Text → Text
  forward_headers gw r =
      let stripped = set_header gw.api_key_header [] r.header in
      let ip = get_client_ip (record r { header = stripped }) in
      let with_ip =
        if is_empty ip then stripped else set_header (codes "X-Forwarded-For") ip stripped in
      let with_proto = set_header (codes "X-Forwarded-Proto") (codes "http") with_ip in
      if is_empty (with_proto (codes "X-Forwarded-Host"))
      then set_header (codes "X-Forwarded-Host") r.host with_proto
      else with_proto

  unfoldable pub director : Gateway fl S → World fl S → Request → Forwarded
  unfolding forward_headers
  director gw w r =
      let (target, path) = route gw w r.path in
      record {
        url = record {
          scheme = target.scheme;
          host = target.host;
          path = single_joining_slash target.path path;
          raw_query = join_query target.raw_query r.raw_query;
        };
        header = forward_headers gw r;
        body = r.body;
      }
