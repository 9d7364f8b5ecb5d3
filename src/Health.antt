-- ===== src/Health.antt =====
-- core/health/health.go: the probes of a process. The checks run in parallel, so their results come in
-- any order, which the order of the map stands for. A check is a parameter; the latencies are left out.
pub mod Readiness
use sovereignstack.Prelude.{
  ℕ, ◌*◌, ◌≡◌, Bool, true, false, ◌||◌, List, [], ◌∷◌, Option, none, some, any, leb, ltb,
  if◌then◌else◌,
}
use sovereignstack.Text.{Text, codes}
use sovereignstack.Dict.{Dict, put}

-- `Check`: `none` for a healthy probe, or its error
abbrev pub Check : Type 0
Check = Option Text

-- what each registered check says now
pub record Checker : Type 0 where
  pub checks : Dict Check
  pub timeout : ℕ
  pub version : Text

pub record CheckResult : Type 0 where
  pub is_ok : Bool
  pub error : Text

-- the status code, whether the status is "ok", and the result of each check
pub record Probe : Type 0 where
  pub code : ℕ
  pub is_ok : Bool
  pub version : Text
  pub checks : Dict CheckResult

-- `New`, with a timeout of three seconds in nanoseconds
abbrev pub new_checker : Checker
new_checker = record { checks = []; timeout = 3 * 1000000000; version = [] }

unfoldable pub set_version : Text → Checker → Checker
set_version version c = record c { version = version }

unfoldable pub set_timeout : ℕ → Checker → Checker
set_timeout timeout c = record c { timeout = timeout }

unfoldable pub register : Text → Check → Checker → Checker
register name check c = record c { checks = put c.checks name check }

unfoldable pub liveness : Checker → Probe
liveness c = record { code = 200; is_ok = true; version = c.version; checks = [] }

abbrev pub result_of : Check → CheckResult
result_of none = record { is_ok = true; error = [] }
result_of (some message) = record { is_ok = false; error = message }

abbrev pub results_of : Dict Check → Dict CheckResult
results_of [] = []
results_of ((name, check) ∷ checks) = (name, result_of check) ∷ results_of checks

-- the loop over the results, up to the first that failed
abbrev pub all_ok : Dict CheckResult → Bool
all_ok [] = true
all_ok ((name, res) ∷ results) = let rest = all_ok results in if res.is_ok then rest else false

unfoldable pub readiness : Checker → Probe
readiness c =
    let results = results_of c.checks in
    record {
      code = if all_ok results then 200 else 503;
      is_ok = all_ok results;
      version = c.version;
      checks = results;
    }

-- `HTTPCheck`: the status of the answer, `none` where the request fails
unfoldable pub http_check : Option ℕ → (ℕ → Text) → Text → Check
http_check none status_text failure = some failure
http_check (some code) status_text failure =
    if ltb code 200 || leb 300 code then some (status_text code) else none
