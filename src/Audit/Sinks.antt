-- ===== src/Audit/Sinks.antt =====
-- core/audit/multi.go: the fan-out to several sinks, behind the interface `AuditLogger`; and
-- core/audit/retention.go: the pruner of old rows, over a parameter for the database.
use sovereignstack.Prelude.{
  ℕ, ◌-◌, ◌*◌, Bool, true, false, List, [], ltb, if◌then◌else◌, Result, ok, err, length, keep, not,
}
use sovereignstack.Text.{Text}
use sovereignstack.Int64.{ℤ, pos, leb_ℤ, ltb_ℤ, pos_part}
use sovereignstack.Audit.{AuditLog}

-- AuditLogger, over a state of its own; the stamping of the time is the sink's
pub record AuditLogger (S : Type 0) : Type 0 where
  pub log : AuditLog → S → S
  pub get_logs : ℤ → S → List AuditLog
  pub get_logs_by_user : Text → S → List AuditLog
  pub get_logs_by_model : Text → S → List AuditLog
  pub get_logs_in_time_range : ℕ → ℕ → S → List AuditLog

-- the sinks of MultiSinkLogger, each with its state
pub data Sinks : Type 1 where
  no_sinks : Sinks
  sink : (S : Type 0) → AuditLogger S → S → Sinks → Sinks

unfoldable pub multi_log : AuditLog → Sinks → Sinks
multi_log entry no_sinks = no_sinks
multi_log entry (sink S logger s rest) =
    let others = multi_log entry rest in sink S logger (logger.log entry s) others

-- the reads, of the first sink
unfoldable pub multi_get_logs : ℤ → Sinks → List AuditLog
multi_get_logs n no_sinks = []
multi_get_logs n (sink S logger s rest) = logger.get_logs n s

unfoldable pub multi_get_logs_by_user : Text → Sinks → List AuditLog
multi_get_logs_by_user user no_sinks = []
multi_get_logs_by_user user (sink S logger s rest) = logger.get_logs_by_user user s

unfoldable pub multi_get_logs_by_model : Text → Sinks → List AuditLog
multi_get_logs_by_model model no_sinks = []
multi_get_logs_by_model model (sink S logger s rest) = logger.get_logs_by_model model s

unfoldable pub multi_get_logs_in_time_range : ℕ → ℕ → Sinks → List AuditLog
multi_get_logs_in_time_range start end no_sinks = []
multi_get_logs_in_time_range start end (sink S logger s rest) =
    logger.get_logs_in_time_range start end s

-- the nanoseconds of a minute and of an hour
abbrev minute : ℕ
minute = 60 * 1000000000

abbrev hour : ℕ
hour = 60 * minute

pub data PruneError : Type 0 where
  delete_failed : PruneError

-- `retention` and `interval` are durations, which may be negative.
pub record Pruner : Type 0 where
  pub retention : ℤ
  pub interval : ℤ
  pub stopped : Bool

unfoldable pub new_pruner : ℤ → ℤ → Pruner
new_pruner retention interval = record {
  retention = retention;
  interval = if ltb_ℤ interval (pos minute) then pos hour else interval;
  stopped = false;
}

-- whether the background loop is started
unfoldable pub starts : Pruner → Bool
starts p = not (leb_ℤ p.retention (pos 0))

unfoldable pub stop : Pruner → Pruner
stop p = record p { stopped = true }

-- The rows of audit_logs, and DELETE … WHERE timestamp < ?: it may fail, and it may not say how many
-- rows it removed, which then counts as none.
unfoldable pub prune_once :
    Bool → Bool → ℕ → Pruner → List AuditLog → Result PruneError ℕ × List AuditLog
prune_once deletes counts now p rows =
    if leb_ℤ p.retention (pos 0)
    then (ok 0, rows)
    else if not deletes
    then (err delete_failed, rows)
    else let cutoff = now - pos_part p.retention in
      let kept = keep (λ row. not (ltb row.timestamp cutoff)) rows in
      (ok (if counts then length rows - length kept else 0), kept)
