-- ===== src/Gateway/Director/Forwarding.antt =====
-- What the backend gets to see of a request.
use sovereignstack.Prelude.{
  ◌≡◌, false, List, ◌∷◌, [], ◌++◌, some, arith, is_empty, All, if◌then◌else◌,
}
use sovereignstack.Text.{Text, codes, text_eq}
use sovereignstack.Text.Split.{join, Free}
use sovereignstack.Float.{Float}
use sovereignstack.Router.{Registry}
use sovereignstack.Gateway.ClientIp.{Request}
use sovereignstack.Gateway.Paths.{slash, single_joining_slash}
use sovereignstack.Gateway.Paths.Extract.{IsPlain, routed, extract_model_name_from_path-routed}
use sovereignstack.Gateway.Paths.Strip.{strip_model_prefix_from_path-routed}
use sovereignstack.Gateway.Header.{canonical}
use sovereignstack.Gateway.State.{World, Gateway}
use sovereignstack.Gateway.Director.{route, forward_headers, director}

module _ {fl : Float} {S : Type 0} (gw : Gateway fl S) (w : World fl S) (r : Request) where
  -- Of the headers that the gateway does not set itself, the director hands every one as it came to
  -- the reverse proxy but the API key's, which is removed; names are compared in their canonical form.
  -- So the bearer token of an Authorization header is kept.
  pub header-director :
      (h : Text)
      → text_eq (canonical h) (canonical (codes "X-Forwarded-For")) ≡ false
      → text_eq (canonical h) (canonical (codes "X-Forwarded-Proto")) ≡ false
      → text_eq (canonical h) (canonical (codes "X-Forwarded-Host")) ≡ false
      → (director gw w r).header h
        ≡ (if text_eq (canonical h) (canonical gw.api_key_header) then [] else r.header h)
  unfolding director forward_headers
  header-director h for proto host = ground arith

  -- The path that a routed request is sent with is the target's joined with the path without the
  -- routing directive, whether the registry still knows the model or not.
  pub path-director :
      (registry : Registry) (before : List Text) (name next : Text) (parts : List Text)
      → gw.model_router ≡ some registry
      → r.path ≡ slash ∷ join slash (routed before name next parts)
      → All IsPlain before
      → is_empty name ≡ false
      → Free slash name
      → All (Free slash) (next ∷ parts)
      → (director gw w r).url.path
        ≡ single_joining_slash
            (route gw w r.path).0.path
            (slash ∷ join slash (before ++ next ∷ parts))
  unfolding director route
  path-director registry before name next parts on path plain ne fn ft =
      let found = extract_model_name_from_path-routed before name next parts plain ne fn ft in
      let stripped = strip_model_prefix_from_path-routed before name next parts plain in
      cc (on, path, found, stripped, ne)
