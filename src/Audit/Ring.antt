-- ===== src/Audit/Ring.antt =====
-- The log in memory holds the last entries, and gives the last of them back.
use sovereignstack.Prelude.{
  ℕ, zero, suc, ◌+◌, ◌-◌, ◌≤◌, ◌≡◌, ◌||◌, refl, sym, ◌∙◌, ap, List, [], ◌∷◌, ◌++◌, arith, ltb, leb,
  if◌then◌else◌, length, drop, length-append, length-drop, Bool-cases, inl, inr,
}
use mathlib.Core.List.{append_assoc, append-nil}
use sovereignstack.Int64.{pos}
use sovereignstack.Audit.{AuditLog, Logger, new_logger, stamped, log, get_logs}

-- the last n of a list
abbrev pub last : ℕ → List AuditLog → List AuditLog
last n entries = drop (length entries - n) entries

-- the entries of a sequence of calls of `Log`, as they are kept
abbrev pub kept : List (ℕ × AuditLog) → List AuditLog
kept [] = []
kept ((now, e) ∷ calls) = stamped now e ∷ kept calls

-- the calls, one after the other
abbrev pub log_all : List (ℕ × AuditLog) → Logger → Logger
log_all [] l = l
log_all ((now, e) ∷ calls) l = log_all calls (log now e l)

drop-append_le :
    (k : ℕ) (xs ys : List AuditLog) → k ≤ length xs → drop k (xs ++ ys) ≡ drop k xs ++ ys
drop-append_le zero xs ys h = refl
drop-append_le (suc k) [] ys h = absurd (omega (arith, h))
drop-append_le (suc k) (x ∷ xs) ys h = drop-append_le k xs ys (omega (arith, h))

drop_nil : (n : ℕ) → drop {A = AuditLog} n [] ≡ []
drop_nil zero = refl
drop_nil (suc n) = refl

drop-drop : (a b : ℕ) (xs : List AuditLog) → drop a (drop b xs) ≡ drop (b + a) xs
drop-drop a zero xs = let e : 0 + a ≡ a = omega arith in rw e refl
drop-drop a (suc b) [] = drop_nil a ∙ sym (drop_nil (suc b + a))
drop-drop a (suc b) (x ∷ xs) =
    let e : suc b + a ≡ suc (b + a) = omega arith in rw e (drop-drop a b xs)

-- one call keeps the last entries of what was logged
logs-log :
    (now : ℕ) (e : AuditLog) (l : Logger)
    → (log now e l).logs ≡ last l.max_logs (l.logs ++ stamped now e ∷ [])
unfolding log
logs-log now e l =
    let logs = l.logs ++ stamped now e ∷ [] in
    elim (Bool-cases (ltb l.max_logs (length logs))) [
      | inl full ↦ rw full refl
      | inr room ↦
          let none_dropped : 0 ≡ length logs - l.max_logs = ground arith in
          rw room (ap (λ n. drop n logs) none_dropped)
    ]

last-append :
    (m : ℕ) (all : List AuditLog) (e : AuditLog)
    → last m (last m all ++ e ∷ []) ≡ last m (all ++ e ∷ [])
last-append m all e =
    let k = length all - m in
    let more = all ++ e ∷ [] in
    let grown : drop k all ++ e ∷ [] ≡ drop k more =
      sym (drop-append_le k all (e ∷ []) (omega arith)) in
    let same : k + (length (drop k more) - m) ≡ length more - m =
      omega (arith, length-drop k more, length-append all (e ∷ [])) in
    ap (last m) grown ∙ drop-drop (length (drop k more) - m) k more ∙ ap (λ n. drop n more) same

logs-log_all :
    (calls : List (ℕ × AuditLog)) (l : Logger) (before : List AuditLog)
    → l.logs ≡ last l.max_logs before
    → (log_all calls l).logs ≡ last l.max_logs (before ++ kept calls)
unfolding log
logs-log_all [] l before h = h ∙ ap (last l.max_logs) (sym (append-nil before))
logs-log_all ((now, e) ∷ calls) l before h =
    let one =
      logs-log now e l
      ∙ ap (λ logs. last l.max_logs (logs ++ stamped now e ∷ [])) h
      ∙ last-append l.max_logs before (stamped now e) in
    logs-log_all calls (log now e l) (before ++ stamped now e ∷ []) one
    ∙ ap (last l.max_logs) (append_assoc before (stamped now e ∷ []) (kept calls))

-- However many entries are logged in a new log, it holds the last of them, as many as it may hold,
-- in their order.
pub log_all-last :
    (max_logs : ℕ) (calls : List (ℕ × AuditLog))
    → (log_all calls (new_logger max_logs)).logs ≡ last max_logs (kept calls)
unfolding new_logger
log_all-last max_logs calls =
    logs-log_all calls (new_logger max_logs) [] (sym (drop_nil (0 - max_logs)))

shown_from :
    (a m n : ℕ)
    → 1 ≤ n
    → n ≤ m
    → a - m + (a - (a - m) - (if leb (n + 0) 0 || ltb (a - (a - m)) n then a - (a - m) else n))
      ≡ a - n
shown_from a m n positive fits = ground arith

-- Asked for n entries, where n is positive and not more than the log may hold, a log that was new
-- before the calls gives the last n entries that were logged, or all if there are fewer.
pub get_logs-log_all :
    (max_logs n : ℕ) (calls : List (ℕ × AuditLog))
    → 1 ≤ n
    → n ≤ max_logs
    → get_logs (pos n) (log_all calls (new_logger max_logs)) ≡ last n (kept calls)
unfolding get_logs
get_logs-log_all max_logs n calls positive fits =
    let all = kept calls in
    let l = log_all calls (new_logger max_logs) in
    let held : l.logs ≡ last max_logs all = log_all-last max_logs calls in
    let size = length-drop (length all - max_logs) all in
    rw (held, size)
      (drop-drop _ (length all - max_logs) all
        ∙ ap (λ k. drop k all) (shown_from (length all) max_logs n positive fits))
