-- ===== src/Policy/Session.antt =====
-- core/management/policy/oidc.go, `signSession` and `verifySession`: the session id with its
-- HMAC-SHA-256. The HMAC and base64 are parameters.
pub mod RoundTrip
use sovereignstack.Prelude.{ℕ, ◌==◌, List, [], ◌∷◌, ◌++◌, Option, none, some, if◌then◌else◌}
use sovereignstack.Text.{Text, text_eq}

pub record SessionCrypto : Type 0 where
  -- HMAC-SHA-256 under a secret
  pub mac : Text → Text → Text
  -- base64.RawURLEncoding
  pub encode : Text → Text
  pub decode : Text → Option Text

-- the byte '.'
abbrev pub dot : ℕ
dot = 46

-- what stands before and behind the last `b`: strings.LastIndex(s, string(b))
unfoldable pub cut_last : ℕ → Text → Option (Text × Text)
cut_last b [] = none
cut_last b (c ∷ s) =
    let later = cut_last b s in
    elim later [ some p ↦ some (c ∷ p.0, p.1) | none ↦ if c == b then some ([], s) else none ]

unfoldable pub sign_session : SessionCrypto → Text → Text → Text
sign_session c secret sid = sid ++ dot ∷ c.encode (c.mac secret sid)

unfoldable pub verify_session : SessionCrypto → Text → Text → Option Text
unfolding cut_last
verify_session c secret value = elim (cut_last dot value) [
  | none ↦ none
  | some p ↦ elim (c.decode p.1) [
    | none ↦ none
    | some expected ↦ if text_eq (c.mac secret p.0) expected then some p.0 else none
  ]
]
