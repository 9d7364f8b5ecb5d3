-- ===== src/Health/Readiness.antt =====
-- When a process is ready.
use sovereignstack.Prelude.{◌≡◌, false, [], ◌∷◌, some, arith}
use sovereignstack.Text.{Text, text_eq_iff}
use sovereignstack.Dict.{Dict, get, get-put}
use sovereignstack.Health.{Checker, Check, results_of, all_ok, readiness, register}

-- the probe answers 503
abbrev pub IsUnhealthy : Checker → Type 0
IsUnhealthy c = (readiness c).code ≡ 503

all_ok-get :
    (checks : Dict Check) (name message : Text)
    → get checks name ≡ some (some message)
    → all_ok (results_of checks) ≡ false
unfolding get
all_ok-get [] name message h = cc
all_ok-get ((k, check) ∷ checks) name message h = ground (arith, all_ok-get checks name message)

-- One failing check under any name makes the readiness probe answer 503, whatever the others say.
pub readiness-failing :
    (c : Checker) (name message : Text) → get c.checks name ≡ some (some message) → IsUnhealthy c
unfolding readiness
readiness-failing c name message h = ground (arith, all_ok-get c.checks name message h)

-- A check that is registered again replaces the one before it: if it fails now, the probe answers 503.
pub readiness-register :
    (c : Checker) (name message : Text) → IsUnhealthy (register name (some message) c)
unfolding register
readiness-register c name message =
    readiness-failing (register name (some message) c) name message
      (ground (arith, get-put c.checks name (some message) name, text_eq_iff name name))
