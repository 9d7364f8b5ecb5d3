-- ===== src/Policy/Session/RoundTrip.antt =====
-- Which cookies pass: the signed ones, and only those that carry the signature of their id.
use sovereignstack.Prelude.{
  ℕ, ◌≡◌, ◌↔◌, refl, ap, sym, ◌∙◌, [], ◌∷◌, ◌++◌, none, some, arith, Option-cases, inl, inr, ==_iff,
}
use sovereignstack.Text.{Text, text_eq_refl, text_eq_iff}
use sovereignstack.Text.Split.{Free}
use sovereignstack.Policy.Session.{SessionCrypto, dot, cut_last, sign_session, verify_session}

-- The documented behaviour of base64: decoding undoes encoding, and refuses a text with a '.'.
pub record SessionLaws (c : SessionCrypto) : Type 0 where
  pub decode-encode : (t : Text) → c.decode (c.encode t) ≡ some t
  pub decode-Free : (t bytes : Text) → c.decode t ≡ some bytes → Free dot t

cut_last-none : (b : ℕ) (s : Text) → Free b s → cut_last b s ≡ none
unfolding cut_last
cut_last-none b [] h = refl
cut_last-none b (c ∷ s) h = ground (arith, cut_last-none b s h.1)

cut_last-append : (b : ℕ) (p s : Text) → Free b s → cut_last b (p ++ b ∷ s) ≡ some (p, s)
unfolding cut_last
cut_last-append b [] s h = ground (arith, cut_last-none b s h)
cut_last-append b (c ∷ p) s h = ground (arith, cut_last-append b p s h)

cut_last_sound : (b : ℕ) (s p q : Text) → cut_last b s ≡ some (p, q) → s ≡ p ++ b ∷ q
unfolding cut_last
cut_last_sound b [] p q e = cc
cut_last_sound b (c ∷ s) p q e = elim (Option-cases (cut_last b s)) [
  | inl missing ↦ ground (arith, ==_iff c b)
  | inr (r, found) ↦ ground (arith, cut_last_sound b s r.0 r.1)
]

-- the session id, a dot, and a text that decodes to the id's HMAC
abbrev pub Signed : SessionCrypto → Text → Text → Text → Type 0
Signed c secret value sid =
    (sig : Text) × (value ≡ sid ++ dot ∷ sig) × (c.decode sig ≡ some (c.mac secret sid))

verify_session_sound :
    (c : SessionCrypto) (secret value sid : Text)
    → verify_session c secret value ≡ some sid
    → Signed c secret value sid
unfolding verify_session
verify_session_sound c secret value sid h = elim (Option-cases (cut_last dot value)) [
  | inl missing ↦ absurd (ground arith)
  | inr ((p, q), found) ↦ elim (Option-cases (c.decode q)) [
    | inl broken ↦ absurd (ground arith)
    | inr (expected, decoded) ↦
        let same : c.mac secret p ≡ expected =
          ground (arith, text_eq_iff (c.mac secret p) expected) in
        let id : p ≡ sid = ground arith in
        (
          q,
          cut_last_sound dot value p q found ∙ ap (λ t. t ++ dot ∷ q) id,
          decoded ∙ ap some (sym same ∙ ap (c.mac secret) id),
        )
  ]
]

verify_session_complete :
    (c : SessionCrypto) (laws : SessionLaws c) (secret value sid : Text)
    → Signed c secret value sid
    → verify_session c secret value ≡ some sid
unfolding verify_session
verify_session_complete c laws secret value sid (sig, shape, decoded) = rw shape (
    ground (
      arith,
      cut_last-append dot sid sig (laws.decode-Free sig (c.mac secret sid) decoded),
      decoded,
      text_eq_refl (c.mac secret sid),
    ))

-- With a base64 that keeps its laws, a cookie value verifies as a session id exactly when it is that
-- id, a dot, and a text that decodes to the HMAC of the id under the server's secret.
pub verify_session_iff :
    (c : SessionCrypto) (laws : SessionLaws c) (secret value sid : Text)
    → (verify_session c secret value ≡ some sid) ↔ Signed c secret value sid
verify_session_iff c laws secret value sid =
    (verify_session_sound c secret value sid, verify_session_complete c laws secret value sid)

-- What signing returns verifies, whatever the session id.
pub verify_session-sign_session :
    (c : SessionCrypto) (laws : SessionLaws c) (secret sid : Text)
    → verify_session c secret (sign_session c secret sid) ≡ some sid
unfolding sign_session
verify_session-sign_session c laws secret sid =
    verify_session_complete c laws secret (sid ++ dot ∷ c.encode (c.mac secret sid)) sid
      (c.encode (c.mac secret sid), refl, laws.decode-encode (c.mac secret sid))
