-- ===== src/Policy/Oidc/Interleaved.antt =====
-- The sign-in calls of core/management/policy/oidc.go in any interleaving: a step is one locked region
-- (a login, the two regions of a callback, a logout), and between them other calls run.
use sovereignstack.Prelude.{
  ℕ, suc, ◌+◌, ◌≤◌, ◌≡◌, refl, ◌∙◌, true, false, [], ◌∷◌, Option, none, some, arith, length, ok,
  Option-cases, Bool-cases, inl, inr, is_empty, ltb,
}
use sovereignstack.Text.{Text, text_eq, text_eq_iff}
use sovereignstack.Dict.{Dict, get, put, remove, get-put, get-remove}
use sovereignstack.Policy.Session.{SessionCrypto, verify_session}
use sovereignstack.Policy.Service.{Session, OidcState}
use sovereignstack.Policy.Admins.{admin_role, live_subject, cookie_subject}
use sovereignstack.Policy.Oidc.{
  IdToken, Provider, add_state, is_valid_state, take_state, exchange_code, add_session, end_session,
}

-- The sign-in state, the callbacks between their two regions, and the logins so far.
pub record World : Type 0 where
  pub oidc : OidcState
  pub in_flight : ℕ
  pub logins : ℕ

pub data Step (p : Provider) : World → World → Type 0 where
  login :
      {w : World} (now : ℕ) (state : Text)
      → Step p w (record w { oidc = add_state now state w.oidc; logins = suc w.logins })
  accept :
      {w : World} (now : ℕ) (state : Text)
      → (take_state now state w.oidc).0 ≡ true
      → Step p w (record w { oidc = (take_state now state w.oidc).1; in_flight = suc w.in_flight })
  reject :
      {w : World} (now : ℕ) (state : Text)
      → Step p w (record w { oidc = (take_state now state w.oidc).1 })
  sign_in :
      {w : World} (now n : ℕ) (code sid : Text) (sess : Session)
      → w.in_flight ≡ suc n
      → exchange_code p now w.oidc code ≡ ok sess
      → Step p w (record w { oidc = add_session sid sess w.oidc; in_flight = n })
  give_up : {w : World} (n : ℕ) → w.in_flight ≡ suc n → Step p w (record w { in_flight = n })
  logout : {w : World} (sid : Option Text) → Step p w (record w { oidc = end_session sid w.oidc })

pub data Reach (p : Provider) (v : World) : World → Type 0 where
  here : Reach p v v
  next : {w x : World} → Reach p v w → Step p w x → Reach p v x

-- a token that the provider verified, with this subject and this value of a claim
abbrev pub Vouched : Provider → Text → Text → Text → Type 0
Vouched p claim subject role =
    (raw_id : Text) × (token : IdToken) × (p.verify raw_id ≡ some token)
    × (subject ≡ token.subject)
    × (role ≡ token.claim claim)

abbrev pub AllVouched : Provider → OidcState → Type 0
AllVouched p o =
    (sid : Text) (sess : Session)
    → get o.sessions sid ≡ some sess
    → Vouched p o.admin_claim sess.subject sess.role

-- No more logins are pending, under way and signed in than there were.
abbrev pub IsPaid : World → Type 0
IsPaid w = length w.oidc.states + w.in_flight + length w.oidc.sessions ≤ w.logins

length-put {ℓ} : {V : Type ℓ} (d : Dict V) (k : Text) (v : V) → length (put d k v) ≤ suc (length d)
unfolding put
length-put [] k v = omega arith
length-put ((j, w) ∷ d) k v = ground (arith, length-put d k v)

length-remove {ℓ} : {V : Type ℓ} (d : Dict V) (k : Text) → length (remove d k) ≤ length d
unfolding remove
length-remove [] k = omega arith
length-remove ((j, w) ∷ d) k = ground (arith, length-remove d k)

length-remove_found {ℓ} :
    {V : Type ℓ} (d : Dict V) (k : Text) (v : V)
    → get d k ≡ some v
    → suc (length (remove d k)) ≤ length d
unfolding remove get
length-remove_found [] k v h = cc
length-remove_found ((j, w) ∷ d) k v h =
    ground (arith, length-remove_found d k v, length-remove d k)

valid_state-found :
    (now : ℕ) (o : Option ℕ) → is_valid_state now o ≡ true → (expiry : ℕ) × (o ≡ some expiry)
valid_state-found now none h = cc
valid_state-found now (some expiry) h = (expiry, refl)

exchange_code-Vouched :
    (p : Provider) (now : ℕ) (o : OidcState) (code : Text) (sess : Session)
    → exchange_code p now o code ≡ ok sess
    → Vouched p o.admin_claim sess.subject sess.role
unfolding exchange_code
exchange_code-Vouched p now o code sess h = elim (Option-cases (p.exchange code)) [
  | inl failed ↦ absurd (ground arith)
  | inr (raw_id, exchanged) ↦ elim (Option-cases (p.verify raw_id)) [
    | inl refused ↦ absurd (ground arith)
    | inr (token, verified) ↦ (raw_id, token, verified, ground arith, ground arith)
  ]
]

Step-AllVouched :
    {p : Provider} {w x : World} → Step p w x → AllVouched p w.oidc → AllVouched p x.oidc
unfolding add_state take_state add_session
Step-AllVouched (login now state) h = h
Step-AllVouched (accept now state valid) h = h
Step-AllVouched (reject now state) h = h
Step-AllVouched {p} {w} (sign_in now n code new_sid new running exchanged) h = λ sid sess found.
    elim (Bool-cases (text_eq new_sid sid)) [
      | inl same ↦
          let one : some new ≡ some sess =
            ground (arith, get-put w.oidc.sessions new_sid new sid) in
          let (raw_id, token, verified, subject, role) =
            exchange_code-Vouched p now w.oidc code new exchanged in
          (raw_id, token, verified, ground arith, ground arith)
      | inr other ↦ h sid sess (ground (arith, get-put w.oidc.sessions new_sid new sid))
    ]
Step-AllVouched (give_up n running) h = h
Step-AllVouched (logout none) h = h
Step-AllVouched {p} {w} (logout (some sid)) h =
    λ j sess found. h j sess (ground (arith, get-remove w.oidc.sessions sid j))

Step-IsPaid : {p : Provider} {w x : World} → Step p w x → IsPaid w → IsPaid x
unfolding add_state take_state add_session
Step-IsPaid {w = w} (login now state) h =
    omega (arith, h, length-put w.oidc.states state (now + 600000000000))
Step-IsPaid {w = w} (accept now state valid) h =
    let (expiry, found) = valid_state-found now (get w.oidc.states state) valid in
    omega (arith, h, length-remove_found w.oidc.states state expiry found)
Step-IsPaid {w = w} (reject now state) h = omega (arith, h, length-remove w.oidc.states state)
Step-IsPaid {w = w} (sign_in now n code sid sess running exchanged) h =
    omega (arith, h, running, length-put w.oidc.sessions sid sess)
Step-IsPaid (give_up n running) h = omega (arith, h, running)
Step-IsPaid (logout none) h = h
Step-IsPaid {w = w} (logout (some sid)) h = omega (arith, h, length-remove w.oidc.sessions sid)

-- nothing has happened yet
abbrev pub fresh : OidcState → World
fresh o = record { oidc = record o { sessions = []; states = [] }; in_flight = 0; logins = 0 }

-- In every interleaving of logins, callbacks and logouts, the states that wait, the callbacks under
-- way and the sessions together are at most the logins: a state is good for one sign-in, however
-- often and by how many callbacks it is presented.
pub Reach-IsPaid : (p : Provider) (o : OidcState) (w : World) → Reach p (fresh o) w → IsPaid w
Reach-IsPaid p o w here = omega arith
Reach-IsPaid p o w (next reach step) = Step-IsPaid step (Reach-IsPaid p o _ reach)

Reach-AllVouched :
    (p : Provider) (o : OidcState) (w : World) → Reach p (fresh o) w → AllVouched p w.oidc
unfolding get
Reach-AllVouched p o w here = λ sid sess found. cc
Reach-AllVouched p o w (next reach step) = Step-AllVouched step (Reach-AllVouched p o _ reach)

Step-claim : {p : Provider} {v x : World} → Step p v x → x.oidc.admin_claim ≡ v.oidc.admin_claim
unfolding add_state take_state add_session
Step-claim (login now state) = refl
Step-claim (accept now state valid) = refl
Step-claim (reject now state) = refl
Step-claim (sign_in now n code sid sess running exchanged) = refl
Step-claim (give_up n running) = refl
Step-claim (logout none) = refl
Step-claim (logout (some sid)) = refl

Reach-claim :
    (p : Provider) (o : OidcState) (w : World)
    → Reach p (fresh o) w
    → w.oidc.admin_claim ≡ o.admin_claim
Reach-claim p o w here = refl
Reach-claim p o w (next reach step) = Step-claim step ∙ Reach-claim p o _ reach

live_subject-found :
    (now : ℕ) (o : Option Session)
    → is_empty (live_subject now o) ≡ false
    → (sess : Session) × (o ≡ some sess)
      × (live_subject now o ≡ sess.subject)
      × (sess.role ≡ admin_role)
      × (ltb sess.expires now ≡ false)
live_subject-found now none h = cc
live_subject-found now (some sess) h =
    (sess, refl, ground arith, ground (arith, text_eq_iff sess.role admin_role), ground arith)

-- In every interleaving of logins, callbacks and logouts, a cookie that makes its bearer an admin
-- names the subject of an ID token that the provider verified, and that token's claim, the one that
-- was configured, is "admin".
pub admin_cookie-Vouched :
    (p : Provider) (c : SessionCrypto) (o : OidcState) (w : World) (now : ℕ) (value : Text)
    → Reach p (fresh o) w
    → is_empty (cookie_subject c now w.oidc (some value)) ≡ false
    → Vouched p o.admin_claim (cookie_subject c now w.oidc (some value)) admin_role
admin_cookie-Vouched p c o w now value reach h =
    elim (Option-cases (verify_session c w.oidc.session_secret value)) [
      | inl broken ↦ absurd (ground arith)
      | inr (sid, verified) ↦
          let (sess, found, subject, role, live) =
            live_subject-found now (get w.oidc.sessions sid) (ground arith) in
          let (raw_id, token, passed, names, claims) =
            Reach-AllVouched p o w reach sid sess found in
          let claim = Reach-claim p o w reach in (raw_id, token, passed, ground arith, cc)
    ]
