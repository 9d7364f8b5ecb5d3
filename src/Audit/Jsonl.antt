-- ===== src/Audit/Jsonl.antt =====
-- core/audit/jsonl.go: the audit log in daily files of JSON lines, with a ring in memory. Its file
-- mutex is held through the writing of an entry, so that is one step; the compression of a finished
-- file runs in the background; `gzip_file` is one that no other compression of the file comes between,
-- and World has its two steps. A line is the entry that it encodes.
pub mod Paths
pub mod Findable
pub mod World
pub mod Writing
pub mod Rotating
pub mod Durable
use sovereignstack.Prelude.{
  ℕ, ◌-◌, Bool, true, false, not, List, [], ◌∷◌, ◌++◌, Option, none, some, ltb, if◌then◌else◌,
  length, drop,
}
use sovereignstack.Text.{Text, codes, text_eq}
use sovereignstack.Text.Trim.{has_suffix}
use sovereignstack.Int64.{ℤ}
use sovereignstack.Dict.{Dict, get, put, remove}
use sovereignstack.Audit.{
  AuditLog, Logger, new_logger, stamped, get_logs, get_logs_by_user, get_logs_by_model,
  get_logs_in_time_range,
}

pub data File : Type 0 where
  plain : List AuditLog → File
  packed : List AuditLog → File
  -- a compressed file that was not finished
  partial : File

-- `dir_path` is the cleaned directory with its separator; `writes_to` is the file behind the encoder,
-- `none` once it has been closed.
pub record JsonlLogger : Type 0 where
  pub dir_path : Text
  pub current_file : Option Text
  pub writes_to : Option Text
  pub current_day : Text
  pub ring : Logger

-- the directory, and the files whose compression has been started
pub record Disk : Type 0 where
  pub files : Dict File
  pub compressing : List Text

-- The outside world of one call: the clock and its day, and which of the file operations succeed.
pub record JsonlEnv : Type 0 where
  pub now : ℕ
  pub day : Text
  pub makes_dir : Bool
  pub opens : Text → Bool
  pub encodes : Bool

-- filepath.Join(l.dir, "audit-"+day+".jsonl")
abbrev pub path_of : Text → Text → Text
path_of dir_path day = dir_path ++ (codes "audit-" ++ (day ++ codes ".jsonl"))

-- OpenFile with O_CREATE and O_APPEND
abbrev pub opened : Dict File → Text → Dict File
opened files path = elim (get files path) [ none ↦ put files path (plain []) | some f ↦ files ]

-- the file that `rotate` closes and hands to the compression
abbrev pub closing : Option Text → List Text → List Text
closing none compressing = compressing
closing (some old) compressing = old ∷ compressing

unfoldable pub rotate : JsonlEnv → JsonlLogger → Disk → Bool × JsonlLogger × Disk
rotate e l disk =
    let path = path_of l.dir_path e.day in
    let compressing = closing l.current_file disk.compressing in
    if not (e.opens path)
    then (
      false,
      record l { writes_to = elim l.current_file [ none ↦ l.writes_to | some old ↦ none ] },
      record disk { compressing = compressing },
    )
    else (
      true,
      record l { current_file = some path; writes_to = some path; current_day = e.day },
      record { files = opened disk.files path; compressing = compressing },
    )

unfoldable pub new_jsonl_logger : JsonlEnv → Text → Disk → Option JsonlLogger × Disk
unfolding rotate
new_jsonl_logger e dir_path disk =
    if not e.makes_dir
    then (none, disk)
    else let (done, l, after) =
        rotate e
          (record {
            dir_path = dir_path;
            current_file = none;
            writes_to = none;
            current_day = [];
            ring = new_logger 1000;
          })
          disk in
      (if done then some l else none, after)

-- the lines with one more; a line to a file that is not there any more is lost
abbrev pub add_line : Dict File → Text → AuditLog → Option File → Dict File
add_line files path entry (some (plain lines)) = put files path (plain (lines ++ entry ∷ []))
add_line files path entry f = files

-- `encoder.Encode`, whose error is dropped
unfoldable pub encode_entry : JsonlEnv → JsonlLogger → AuditLog → Dict File → Dict File
encode_entry e l entry files = elim l.writes_to [
  | none ↦ files
  | some path ↦ if e.encodes then add_line files path entry (get files path) else files
]

unfoldable pub add_to_ring : AuditLog → Logger → Logger
add_to_ring entry ring =
    let logs = ring.logs ++ entry ∷ [] in
    record ring {
      logs =
          if ltb ring.max_logs (length logs) then drop (length logs - ring.max_logs) logs else logs;
    }

unfoldable pub write_entry : JsonlEnv → AuditLog → JsonlLogger → Disk → JsonlLogger × Disk
unfolding encode_entry add_to_ring
write_entry e entry l disk = (
  record l { ring = add_to_ring entry l.ring },
  record disk { files = encode_entry e l entry disk.files },
)

unfoldable pub jsonl_log : JsonlEnv → AuditLog → JsonlLogger → Disk → JsonlLogger × Disk
unfolding write_entry rotate
jsonl_log e entry l disk =
    if text_eq e.day l.current_day
    then write_entry e (stamped e.now entry) l disk
    else let (done, rotated, after) = rotate e l disk in
      if done then write_entry e (stamped e.now entry) rotated after else (rotated, after)

-- which steps of a compression succeed
pub record GzipEnv : Type 0 where
  pub opens : Bool
  pub creates : Bool
  pub copies : Bool
  pub closes : Bool
  pub removes : Bool

abbrev pub gz : Text → Text
gz path = path ++ codes ".gz"

abbrev pub lines_of : File → List AuditLog
lines_of (plain lines) = lines
lines_of (packed lines) = lines
lines_of partial = []

-- the compression of a file that was opened
unfoldable pub gzip_opened : GzipEnv → Text → File → Dict File → Dict File
gzip_opened g src f files =
    if not g.creates
    then files
    else if not g.copies
    then put files (gz src) partial
    else if not g.closes
    then put files (gz src) partial
    else let done = put files (gz src) (packed (lines_of f)) in
      if g.removes then remove done src else done

unfoldable pub gzip_file : GzipEnv → Text → Dict File → Dict File
unfolding gzip_opened
gzip_file g src files =
    if has_suffix src (codes ".gz")
    then files
    else if not g.opens
    then files
    else elim (get files src) [ none ↦ files | some f ↦ gzip_opened g src f files ]

unfoldable pub close : JsonlLogger → JsonlLogger
close l = elim l.current_file [
  | none ↦ l
  | some path ↦ record l { current_file = none; writes_to = none }
]

-- the reads, of the ring
unfoldable pub jsonl_get_logs : ℤ → JsonlLogger → List AuditLog
jsonl_get_logs n l = get_logs n l.ring

unfoldable pub jsonl_get_logs_by_user : Text → JsonlLogger → List AuditLog
jsonl_get_logs_by_user user l = get_logs_by_user user l.ring

unfoldable pub jsonl_get_logs_by_model : Text → JsonlLogger → List AuditLog
jsonl_get_logs_by_model model l = get_logs_by_model model l.ring

unfoldable pub jsonl_get_logs_in_time_range : ℕ → ℕ → JsonlLogger → List AuditLog
jsonl_get_logs_in_time_range start end l = get_logs_in_time_range start end l.ring
