-- ===== src/Audit/Jsonl/World.antt =====
-- The daily files in their runs: the calls and compressions as steps, and what is so between them.
use sovereignstack.Prelude.{
  ◌≡◌, ◌≢◌, Bool, true, false, ◌||◌, ◌&&◌, List, [], ◌∷◌, ◌++◌, Option, none, some, All,
  if◌then◌else◌,
}
use sovereignstack.Text.{Text, text_eq}
use sovereignstack.Dict.{Dict, get}
use sovereignstack.Audit.{AuditLog, stamped}
use sovereignstack.Audit.Jsonl.{
  File, plain, JsonlLogger, Disk, JsonlEnv, GzipEnv, path_of, jsonl_log, gzip_file,
}
use sovereignstack.Audit.Jsonl.Findable.{Has, Found}

-- The log and its directory, the compressions that have begun and not ended, the days that had a file,
-- and the entries that reached one, by day.
pub record World : Type 0 where
  pub logger : JsonlLogger
  pub disk : Disk
  pub running : List Text
  pub past : Text → Bool
  pub written : List (Text × AuditLog)

abbrev pub is_some : Option Text → Bool
is_some none = false
is_some (some path) = true

-- the entries that reached a file, after a call that left this logger: one more, if the file is the
-- day's, it is open, and the encoder succeeded
abbrev pub noted :
    JsonlEnv → AuditLog → JsonlLogger → List (Text × AuditLog) → List (Text × AuditLog)
noted e entry after written =
    if is_some after.writes_to && (e.encodes && text_eq e.day after.current_day)
    then (e.day, stamped e.now entry) ∷ written
    else written

-- a call of `Log`
abbrev pub call : JsonlEnv → AuditLog → World → World
call e entry w =
    let (after, disk) = jsonl_log e entry w.logger w.disk in
    record {
      logger = after;
      disk = disk;
      running = w.running;
      past = λ k. w.past k || text_eq after.current_day k;
      written = noted e entry after w.written;
    }

-- no file, or one of lines
abbrev pub IsPlain : Option File → Type 0
IsPlain none = Unit
IsPlain (some (plain lines)) = Unit
IsPlain (some f) = ⊥

-- What a compression has done when it has opened its file and created the compressed one, if both
-- succeed: nothing is copied yet.
abbrev pub begun : GzipEnv → GzipEnv
begun g = record g { copies = false }

-- A call on the logger's day or on a new one, and the two steps of the compression of a file that was
-- handed over, now or again: it begins where none of the same file runs, and ends with the copy and
-- the removal. Other calls and the compressions of other files come in between.
pub data Step : World → World → Type 0 where
  same_day :
      {w : World} (e : JsonlEnv) (entry : AuditLog)
      → e.day ≡ w.logger.current_day
      → Step w (call e entry w)
  new_day :
      {w : World} (e : JsonlEnv) (entry : AuditLog)
      → w.past e.day ≡ false
      → IsPlain (get w.disk.files (path_of w.logger.dir_path e.day))
      → Step w (call e entry w)
  begin_gzip :
      {w : World} (g : GzipEnv) (src : Text)
      → Has src w.disk.compressing
      → All (λ p. p ≢ src) w.running
      → Step w (record w {
        disk = record w.disk { files = gzip_file (begun g) src w.disk.files };
        running = src ∷ w.running;
      })
  end_gzip :
      {w : World} (g : GzipEnv) (src : Text) (before after : List Text)
      → Has src w.disk.compressing
      → w.running ≡ before ++ src ∷ after
      → Step w (record w {
        disk = record w.disk { files = gzip_file g src w.disk.files };
        running = before ++ after;
      })

pub data Reach (v : World) : World → Type 0 where
  here : Reach v v
  next : {w x : World} → Reach v w → Step w x → Reach v x

-- The file behind the encoder is the logger's day's, and is there.
abbrev pub IsOpen : JsonlLogger → Dict File → Option Text → Type 0
IsOpen l files none = Unit
IsOpen l files (some path) =
    (path ≡ path_of l.dir_path l.current_day)
    × ((lines : List AuditLog) × (get files path ≡ some (plain lines)))

-- a file of a past day
abbrev pub IsPast : World → Text → Type 0
IsPast w path = (day : Text) × (w.past day ≡ true) × (path ≡ path_of w.logger.dir_path day)

-- one that is not written any more
abbrev pub IsShut : World → Option Text → Text → Type 0
IsShut w target path = IsPast w path × (target ≢ some path)

abbrev pub IsDone : World → Text → Type 0
IsDone w path = IsShut w w.logger.writes_to path

abbrev pub IsCurrent : World → Option Text → Type 0
IsCurrent w none = Unit
IsCurrent w (some path) = IsPast w path

pub record IsSound (w : World) : Type 0 where
  pub found : All (Found w.logger.dir_path w.disk.files) w.written
  pub seen : All (λ at. w.past at.0 ≡ true) w.written
  pub today : w.past w.logger.current_day ≡ true
  pub target : IsOpen w.logger w.disk.files w.logger.writes_to
  pub done : All (IsDone w) w.disk.compressing
  pub current : IsCurrent w w.logger.current_file

pub All-map {ℓ κ μ} :
    {A : Type ℓ} {P : A → Type κ} {Q : A → Type μ} (xs : List A)
    → ((x : A) → P x → Q x)
    → All P xs
    → All Q xs
All-map [] f h = tt
All-map (x ∷ xs) f h = (f x h.0, All-map xs f h.1)

pub All-Has {ℓ κ} :
    {A : Type ℓ} (P : A → Type κ) (before after : List A) (x : A)
    → All P (before ++ x ∷ after)
    → P x
All-Has P [] after x h = h.0
All-Has P (b ∷ before) after x h = All-Has P before after x h.1
