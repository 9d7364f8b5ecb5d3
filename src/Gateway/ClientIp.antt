-- ===== src/Gateway/ClientIp.antt =====
-- `getClientIP` of core/gateway/proxy.go, and what a request is.
pub mod Spoof
use sovereignstack.Prelude.{
  ℕ, Bool, true, false, List, [], ◌∷◌, Option, none, some, if◌then◌else◌, is_empty,
}
use sovereignstack.Text.{Text, codes}
use sovereignstack.Text.Split.{split}
use sovereignstack.Text.Trim.{trim_space}

pub data Method : Type 0 where
  get post put patch delete other : Method

-- *http.Request: `header` is `Header.Get`, "" where the header is missing; `body` is `none` for a
-- nil body, and `readable` says whether reading it to the end succeeds.
pub record Request : Type 0 where
  pub method : Method
  pub path : Text
  pub raw_query : Text
  pub host : Text
  pub request_uri : Text
  pub remote_addr : Text
  pub header : Text → Text
  pub body : Option Text
  pub readable : Bool

-- the first part of a split, which is never empty
abbrev pub first : List Text → Text → Text
first [] d = d
first (x ∷ xs) d = x

abbrev pub comma : ℕ
comma = 44

abbrev pub colon : ℕ
colon = 58

unfoldable pub get_client_ip : Request → Text
get_client_ip r =
    let xff = r.header (codes "X-Forwarded-For") in
    let xri = r.header (codes "X-Real-IP") in
    if is_empty xff
    then if is_empty xri then first (split colon r.remote_addr) r.remote_addr else xri
    else trim_space (first (split comma xff) xff)
