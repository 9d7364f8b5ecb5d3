-- ===== src/Audit/Examples.antt =====
-- The theorems of the audit log at concrete inputs.
use sovereignstack.Prelude.{ℕ, ◌≡◌, refl, true, List, [], ◌∷◌, length, some, All}
use sovereignstack.Text.{Text, codes}
use sovereignstack.Int64.{pos}
use sovereignstack.Audit.{
  AuditLog, AuditLevel, Logger, new_logger, get_stats, count_of, get_logs_by_user,
  get_logs_by_model,
}
use sovereignstack.Dict.{get, put}
use sovereignstack.Text.{text_eq}
use sovereignstack.Audit.Jsonl.{
  JsonlEnv, JsonlLogger, Disk, path_of, new_jsonl_logger, rotate, jsonl_log, write_entry,
  encode_entry, gzip_file, GzipEnv,
}
use sovereignstack.Audit.Jsonl.Findable.{Found}
use sovereignstack.Audit.Jsonl.World.{
  World, call, same_day, new_day, begin_gzip, end_gzip, begun, Reach, here, next,
}
use sovereignstack.Audit.Jsonl.Durable.{started, jsonl_log-Found}
use sovereignstack.Audit.Ring.{last, kept, log_all, log_all-last}
use sovereignstack.Audit.Stats.{get_stats-counts}

abbrev entry_of : Text → AuditLog
entry_of user = record {
  timestamp = 0;
  event_type = codes "request";
  level = AuditLevel.info;
  user = user;
  model = codes "phi";
  method = [];
  endpoint = [];
  request_size = pos 0;
  response_size = pos 0;
  tokens_used = pos 0;
  tokens_generated = pos 0;
  duration_ms = pos 0;
  status_code = 0;
  error_message = [];
  ip_address = [];
  user_agent = [];
  correlation_id = [];
}

abbrev three_calls : List (ℕ × AuditLog)
three_calls =
    (1, entry_of (codes "bob")) ∷ (2, entry_of (codes "eve")) ∷ (3, entry_of (codes "bob")) ∷ []

log_all-last_example : (log_all three_calls (new_logger 2)).logs ≡ last 2 (kept three_calls)
log_all-last_example = log_all-last 2 three_calls

abbrev small_log : Logger
small_log = record { logs = entry_of (codes "bob") ∷ entry_of (codes "eve") ∷ []; max_logs = 2 }

get_stats-counts_example :
    (count_of (get_stats small_log).user_request_distribution (codes "bob")
      ≡ length (get_logs_by_user (codes "bob") small_log))
    × (count_of (get_stats small_log).model_usage_distribution (codes "bob")
        ≡ length (get_logs_by_model (codes "bob") small_log))
get_stats-counts_example = get_stats-counts small_log (codes "bob") refl

abbrev on_day : ℕ → Text → JsonlEnv
on_day now day = record {
  now = now;
  day = day;
  makes_dir = true;
  opens = λ path. true;
  encodes = true;
}

abbrev first_day : JsonlEnv
first_day = on_day 1 (codes "2026-05-01")

abbrev second_day : JsonlEnv
second_day = on_day 2 (codes "2026-05-02")

abbrev empty_dir : Disk
empty_dir = record { files = []; compressing = [] }

abbrev first_path : Text
first_path = path_of (codes "a/") (codes "2026-05-01")

abbrev first_logger : JsonlLogger
first_logger = record {
  dir_path = codes "a/";
  current_file = some first_path;
  writes_to = some first_path;
  current_day = codes "2026-05-01";
  ring = new_logger 1000;
}

-- a request on each of two days
abbrev two_days : World
two_days = call second_day (entry_of (codes "eve")) (
    call first_day (entry_of (codes "bob"))
      (started first_logger (new_jsonl_logger first_day (codes "a/") empty_dir).1))

abbrev all_well : GzipEnv
all_well = record { opens = true; creates = true; copies = true; closes = true; removes = true }

-- the first day's file while it is compressed, with one more request meanwhile
abbrev compressing : World
compressing = call second_day (entry_of (codes "amy")) (record two_days {
  disk = record two_days.disk { files = gzip_file (begun all_well) first_path two_days.disk.files };
  running = first_path ∷ [];
})

-- and when it is compressed
abbrev compressed : World
compressed = record compressing {
  disk = record compressing.disk { files = gzip_file all_well first_path compressing.disk.files };
  running = [];
}

compressed-Reach :
    Reach (started first_logger (new_jsonl_logger first_day (codes "a/") empty_dir).1) compressed
unfolding new_jsonl_logger rotate jsonl_log write_entry encode_entry get put text_eq
compressed-Reach =
    next
      (next
        (next
          (next (next here (same_day first_day (entry_of (codes "bob")) refl))
            (new_day second_day (entry_of (codes "eve")) refl tt))
          (begin_gzip all_well first_path ([], [], refl) tt))
        (same_day second_day (entry_of (codes "amy")) refl))
      (end_gzip all_well first_path [] [] ([], [], refl) refl)

jsonl_log-Found_example : All (Found (codes "a/") compressed.disk.files) compressed.written
unfolding new_jsonl_logger rotate jsonl_log write_entry get text_eq
jsonl_log-Found_example =
    jsonl_log-Found first_day (codes "a/") empty_dir first_logger (λ e. cc) refl tt compressed refl
      compressed-Reach
