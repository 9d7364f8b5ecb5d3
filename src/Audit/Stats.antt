-- ===== src/Audit/Stats.antt =====
-- The statistics agree with the queries of the log.
use sovereignstack.Prelude.{
  ℕ, suc, ◌+◌, ◌≡◌, refl, false, List, [], ◌∷◌, arith, if◌then◌else◌, is_empty, length, keep,
  Bool-cases, inl, inr,
}
use sovereignstack.Text.{Text, text_eq, text_eq_iff}
use sovereignstack.Dict.{Dict, get, put, get-put}
use sovereignstack.Audit.{
  AuditLog, Logger, get_stats, tally, count_of, get_logs_by_user, get_logs_by_model,
}

count_of-put :
    (d : Dict ℕ) (k : Text) (n : ℕ) (j : Text)
    → count_of (put d k n) j ≡ (if text_eq k j then n else count_of d j)
unfolding count_of
count_of-put d k n j = ground (arith, get-put d k n j)

count_of-nil : (k : Text) → count_of [] k ≡ 0
unfolding count_of get
count_of-nil k = refl

count_of-tally :
    (key : AuditLog → Text) (logs : List AuditLog) (d : Dict ℕ) (k : Text)
    → is_empty k ≡ false
    → count_of (tally key logs d) k ≡ count_of d k + length (keep (λ e. text_eq (key e) k) logs)
unfolding tally
count_of-tally key [] d k h = omega arith
count_of-tally key (e ∷ logs) d k h = elim (Bool-cases (is_empty (key e))) [
  | inl unnamed ↦ ground (arith, count_of-tally key logs d k h, text_eq_iff (key e) k)
  | inr named ↦
      let d' = put d (key e) (suc (count_of d (key e))) in
      ground (
        arith,
        count_of-tally key logs d' k h,
        text_eq_iff (key e) k,
        count_of-put d (key e) (suc (count_of d (key e))) k,
      )
]

-- For every user and every model with a name, the distributions of the statistics have as many
-- entries as the query by that user, or by that model, returns.
pub get_stats-counts :
    (l : Logger) (name : Text)
    → is_empty name ≡ false
    → (count_of (get_stats l).user_request_distribution name ≡ length (get_logs_by_user name l))
      × (count_of (get_stats l).model_usage_distribution name ≡ length (get_logs_by_model name l))
unfolding get_stats get_logs_by_user get_logs_by_model
get_stats-counts l name h = (
  ground (arith, count_of-tally (λ e. e.user) l.logs [] name h, count_of-nil name),
  ground (arith, count_of-tally (λ e. e.model) l.logs [] name h, count_of-nil name),
)
