-- ===== src/Audit.antt =====
-- core/audit/logger.go: the audit log in memory; `Jsonl` is the log in files, `Sinks` the fan-out and
-- the pruner. The mutex of the first is held through every method, so a method
-- is one step. Times are nanoseconds, and 0 is the zero time.
pub mod Ring
pub mod Stats
pub mod Jsonl
pub mod Sinks
mod Examples
use sovereignstack.Prelude.{
  ℕ, suc, ◌+◌, ◌-◌, ◌==◌, Bool, true, false, ◌&&◌, ◌||◌, List, [], ◌∷◌, ◌++◌, none, some, ltb,
  if◌then◌else◌, is_empty, length, drop, keep,
}
use sovereignstack.Text.{Text, codes, text_eq}
use sovereignstack.Int64.{ℤ, pos, pos_part, add64, leb_ℤ}
use sovereignstack.Dict.{Dict, get, put}

pub data AuditLevel : Type 0 where
  info warn failure : AuditLevel

pub record AuditLog : Type 0 where
  pub timestamp : ℕ
  pub event_type : Text
  pub level : AuditLevel
  pub user : Text
  pub model : Text
  pub method : Text
  pub endpoint : Text
  pub request_size : ℤ
  pub response_size : ℤ
  pub tokens_used : ℤ
  pub tokens_generated : ℤ
  pub duration_ms : ℤ
  pub status_code : ℕ
  pub error_message : Text
  pub ip_address : Text
  pub user_agent : Text
  pub correlation_id : Text

-- the latest entry last
pub record Logger : Type 0 where
  pub logs : List AuditLog
  pub max_logs : ℕ

unfoldable pub new_logger : ℕ → Logger
new_logger max_logs = record { logs = []; max_logs = max_logs }

-- the entry that is kept: stamped with the time, if it has none
abbrev pub stamped : ℕ → AuditLog → AuditLog
stamped now entry = if entry.timestamp == 0 then record entry { timestamp = now } else entry

-- `Log` at a time
unfoldable pub log : ℕ → AuditLog → Logger → Logger
log now entry l =
    let logs = l.logs ++ stamped now entry ∷ [] in
    record l {
      logs = if ltb l.max_logs (length logs) then drop (length logs - l.max_logs) logs else logs;
    }

abbrev blank : ℕ → AuditLog
blank now = record {
  timestamp = now;
  event_type = [];
  level = info;
  user = [];
  model = [];
  method = [];
  endpoint = [];
  request_size = pos 0;
  response_size = pos 0;
  tokens_used = pos 0;
  tokens_generated = pos 0;
  duration_ms = pos 0;
  status_code = 0;
  error_message = [];
  ip_address = [];
  user_agent = [];
  correlation_id = [];
}

module _ (now : ℕ) where
  unfoldable pub log_request :
      (user model endpoint method ip_address user_agent correlation_id : Text) → ℤ → Logger → Logger
  unfolding log
  log_request user model endpoint method ip_address user_agent correlation_id request_size =
      log now (record (blank now) {
        event_type = codes "request";
        user = user;
        model = model;
        method = method;
        endpoint = endpoint;
        request_size = request_size;
        ip_address = ip_address;
        user_agent = user_agent;
        correlation_id = correlation_id;
      })

  unfoldable pub log_response :
      (user model endpoint correlation_id : Text)
      → ℕ
      → (response_size used generated ms : ℤ) → Logger
      → Logger
  unfolding log
  log_response user model endpoint correlation_id status_code response_size used generated ms =
      log now (record (blank now) {
        event_type = codes "response";
        user = user;
        model = model;
        endpoint = endpoint;
        response_size = response_size;
        tokens_used = used;
        tokens_generated = generated;
        duration_ms = ms;
        status_code = status_code;
        correlation_id = correlation_id;
      })

  unfoldable pub log_error :
      (user endpoint correlation_id message : Text) → ℕ → Text → Logger → Logger
  unfolding log
  log_error user endpoint correlation_id message status_code ip_address =
      log now (record (blank now) {
        event_type = codes "error";
        level = failure;
        user = user;
        endpoint = endpoint;
        error_message = message;
        status_code = status_code;
        ip_address = ip_address;
        correlation_id = correlation_id;
      })

  unfoldable pub log_auth_failure : (user endpoint ip_address reason : Text) → Logger → Logger
  unfolding log
  log_auth_failure user endpoint ip_address reason = log now (record (blank now) {
    event_type = codes "auth_failure";
    level = warn;
    user = user;
    endpoint = endpoint;
    error_message = codes "auth failed: " ++ reason;
    status_code = 401;
    ip_address = ip_address;
  })

-- the last n entries; all of them where n is not positive or too large
unfoldable pub get_logs : ℤ → Logger → List AuditLog
get_logs n l =
    let len = length l.logs in
    let k = if leb_ℤ n (pos 0) || ltb len (pos_part n) then len else pos_part n in
    drop (len - k) l.logs

unfoldable pub get_logs_by_user : Text → Logger → List AuditLog
get_logs_by_user user l = keep (λ e. text_eq e.user user) l.logs

unfoldable pub get_logs_by_model : Text → Logger → List AuditLog
get_logs_by_model model l = keep (λ e. text_eq e.model model) l.logs

unfoldable pub get_logs_in_time_range : ℕ → ℕ → Logger → List AuditLog
get_logs_in_time_range start end l = keep (λ e. ltb start e.timestamp && ltb e.timestamp end) l.logs

unfoldable pub clear_logs : Logger → Logger
clear_logs l = record l { logs = [] }

-- the totals of `GetStats`, without the two distributions
pub record Totals : Type 0 where
  pub total_requests : ℕ
  pub total_errors : ℕ
  pub total_tokens_used : ℤ
  pub total_tokens_generated : ℤ
  pub total_duration_ms : ℤ

pub record AuditStats : Type 0 where
  pub total_logs : ℕ
  pub totals : Totals
  pub unique_users : ℕ
  pub unique_models : ℕ
  pub user_request_distribution : Dict ℕ
  pub model_usage_distribution : Dict ℕ

-- the switch on the event type
unfoldable pub add_to_totals : AuditLog → Totals → Totals
add_to_totals e t =
    if text_eq e.event_type (codes "request")
    then record t { total_requests = suc t.total_requests }
    else if text_eq e.event_type (codes "error")
    then record t { total_errors = suc t.total_errors }
    else if text_eq e.event_type (codes "response")
    then record t {
      total_tokens_used = add64 t.total_tokens_used e.tokens_used;
      total_tokens_generated = add64 t.total_tokens_generated e.tokens_generated;
      total_duration_ms = add64 t.total_duration_ms e.duration_ms;
    }
    else t

unfoldable pub total_up : List AuditLog → Totals → Totals
unfolding add_to_totals
total_up [] t = t
total_up (e ∷ logs) t = total_up logs (add_to_totals e t)

-- `m[k]` of a map to numbers, 0 where the key is missing
unfoldable pub count_of : Dict ℕ → Text → ℕ
count_of d k = elim (get d k) [ none ↦ 0 | some n ↦ n ]

-- `if key != "" { counts[key]++ }` for every entry
unfoldable pub tally : (AuditLog → Text) → List AuditLog → Dict ℕ → Dict ℕ
unfolding count_of
tally key [] d = d
tally key (e ∷ logs) d =
    tally key logs (if is_empty (key e) then d else put d (key e) (suc (count_of d (key e))))

unfoldable pub get_stats : Logger → AuditStats
unfolding total_up tally
get_stats l =
    let users = tally (λ e. e.user) l.logs [] in
    let models = tally (λ e. e.model) l.logs [] in
    record {
      total_logs = length l.logs;
      totals = total_up l.logs (record {
        total_requests = 0;
        total_errors = 0;
        total_tokens_used = pos 0;
        total_tokens_generated = pos 0;
        total_duration_ms = pos 0;
      });
      unique_users = length users;
      unique_models = length models;
      user_request_distribution = users;
      model_usage_distribution = models;
    }
