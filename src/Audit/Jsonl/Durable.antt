-- ===== src/Audit/Jsonl/Durable.antt =====
-- No entry that reached a file is lost by the calls and the compressions that follow it.
use sovereignstack.Prelude.{
  ◌≡◌, ◌≢◌, refl, ap, sym, ◌∙◌, Bool, true, false, ◌||◌, List, [], ◌∷◌, ◌++◌, Option, none, some,
  arith, All, if◌then◌else◌, Bool-cases, inl, inr,
}
use mathlib.Core.Path.{subst}
use sovereignstack.Text.{Text, text_eq, text_eq_iff, text_eq_refl}
use sovereignstack.Dict.{get}
use sovereignstack.Audit.{AuditLog, new_logger}
use sovereignstack.Audit.Jsonl.{
  plain, JsonlLogger, Disk, JsonlEnv, GzipEnv, path_of, rotate, new_jsonl_logger, write_entry,
  jsonl_log, gzip_file,
}
use sovereignstack.Audit.Jsonl.Findable.{Has, Found, gzip_file-Found, get-gzip_file_ne}
use sovereignstack.Audit.Jsonl.World.{
  World, call, IsPlain, IsOpen, IsDone, IsSound, All-map, All-Has, Step, same_day, new_day,
  begin_gzip, end_gzip, begun, Reach, here, next,
}
use sovereignstack.Audit.Jsonl.Writing.{widened-IsSound, write-IsSound, noted-other, after}
use sovereignstack.Audit.Jsonl.Rotating.{rotated, rotated-IsSound}

rotate-current_day :
    (e : JsonlEnv) (l : JsonlLogger) (disk : Disk)
    → (rotate e l disk).1.current_day ≡ (if (rotate e l disk).0 then e.day else l.current_day)
unfolding rotate
rotate-current_day e l disk = elim (Bool-cases (e.opens (path_of l.dir_path e.day))) [
  | inl opens ↦ rw opens refl
  | inr refused ↦ rw refused refl
]

module _ (e : JsonlEnv) (entry : AuditLog) (w : World) (s : IsSound w) where
  same_day-IsSound : e.day ≡ w.logger.current_day → IsSound (call e entry w)
  unfolding jsonl_log write_entry
  same_day-IsSound same =
      let today : text_eq e.day w.logger.current_day ≡ true =
        ground (arith, text_eq_iff e.day w.logger.current_day) in
      rw today (
        widened-IsSound _ (λ k. w.past k || text_eq w.logger.current_day k) (λ k h. ground arith)
          (write-IsSound e entry w s same))

  module _ (fresh : w.past e.day ≡ false) where
    other_day : text_eq e.day w.logger.current_day ≡ false
    other_day = elim (Bool-cases (text_eq e.day w.logger.current_day)) [
      | inr other ↦ other
      | inl equal ↦
          let same : w.logger.current_day ≡ e.day =
            ground (arith, text_eq_iff e.day w.logger.current_day) in
          let old : w.past e.day ≡ true = subst (λ d. w.past d ≡ true) same s.today in absurd cc
    ]

    rotated_day :
        (b : Bool)
        → (rotate e w.logger w.disk).0 ≡ b
        → (rotate e w.logger w.disk).1.current_day ≡ (if b then e.day else w.logger.current_day)
    rotated_day b done =
        rotate-current_day e w.logger w.disk
        ∙ ap (λ d. if d then e.day else w.logger.current_day) done

    new_day-IsSound :
        IsPlain (get w.disk.files (path_of w.logger.dir_path e.day)) → IsSound (call e entry w)
    unfolding jsonl_log write_entry
    new_day-IsSound plain_file =
        let sound = rotated-IsSound e w s fresh plain_file in
        elim (Bool-cases (rotate e w.logger w.disk).0) [
          | inl done ↦
              rw (other_day, done)
                (write-IsSound e entry (rotated e w) sound (sym (rotated_day true done)))
          | inr kept ↦
              rw (other_day, kept)
                (subst (λ wr. IsSound (record (rotated e w) { written = wr }))
                  (sym (
                    noted-other e entry (rotate e w.logger w.disk).1 w.written
                      (ap (text_eq e.day) (rotated_day false kept) ∙ other_day)))
                  sound)
        ]

module _ (w : World) (s : IsSound w) where
  compress-IsSound :
      (g : GzipEnv) (src : Text)
      → Has src w.disk.compressing
      → IsSound (record w { disk = record w.disk { files = gzip_file g src w.disk.files } })
  compress-IsSound g src (before, after, e_split) =
      let ((day, h, at), shut) =
        All-Has (IsDone w) before after src (subst (All (IsDone w)) e_split s.done) in
      subst
        (λ p. IsSound (record w { disk = record w.disk { files = gzip_file g p w.disk.files } }))
        (sym at)
        (record {
          found =
              All-map w.written
                (λ (d, old) found. gzip_file-Found w.logger.dir_path w.disk.files g day d old found)
                s.found;
          seen = s.seen;
          today = s.today;
          target =
              still_open g day (λ t. shut (t ∙ ap some (sym at))) w.logger.writes_to refl s.target;
          done = s.done;
          current = s.current;
        })
    where
      still_open :
          (g : GzipEnv) (day : Text)
          → w.logger.writes_to ≢ some (path_of w.logger.dir_path day)
          → (o : Option Text) → w.logger.writes_to ≡ o
          → IsOpen w.logger w.disk.files o
          → IsOpen w.logger (gzip_file g (path_of w.logger.dir_path day) w.disk.files) o
      still_open g day shut none eq t = tt
      still_open g day shut (some path) eq (at, (lines, there)) = (
        at,
        (
          lines,
          subst
              (λ p.
                get (gzip_file g (path_of w.logger.dir_path day) w.disk.files) p
                ≡ some (plain lines))
              (sym at)
              (get-gzip_file_ne w.logger.dir_path w.disk.files g day w.logger.current_day
                  (λ same. shut (eq ∙ ap some (at ∙ ap (path_of w.logger.dir_path) (sym same))))
                ∙ subst (λ p. get w.disk.files p ≡ some (plain lines)) at there),
        ),
      )

-- The compressions that run are no part of what is sound.
running-IsSound :
    (w : World) (running : List Text) → IsSound w → IsSound (record w { running = running })
running-IsSound w running s = record {
  found = s.found;
  seen = s.seen;
  today = s.today;
  target = s.target;
  done = s.done;
  current = s.current;
}

Step-IsSound : {w x : World} → Step w x → IsSound w → IsSound x
Step-IsSound {w} (same_day e entry same) s = same_day-IsSound e entry w s same
Step-IsSound {w} (new_day e entry fresh plain_file) s = new_day-IsSound e entry w s fresh plain_file
Step-IsSound {w} (begin_gzip g src listed alone) s =
    running-IsSound _ (src ∷ w.running) (compress-IsSound w s (begun g) src listed)
Step-IsSound {w} (end_gzip g src before after listed ran) s =
    running-IsSound _ (before ++ after) (compress-IsSound w s g src listed)

Reach-IsSound : (v w : World) → IsSound v → Reach v w → IsSound w
Reach-IsSound v w s here = s
Reach-IsSound v w s (next reach step) = Step-IsSound step (Reach-IsSound v _ s reach)

-- the logger that `NewJSONLLogger` rotates
abbrev unopened : Text → JsonlLogger
unopened dir_path = record {
  dir_path = dir_path;
  current_file = none;
  writes_to = none;
  current_day = [];
  ring = new_logger 1000;
}

-- a logger just opened, before any call
abbrev pub started : JsonlLogger → Disk → World
started l disk = record {
  logger = l;
  disk = disk;
  running = [];
  past = λ k. text_eq [] k || text_eq l.current_day k;
  written = [];
}

module _ (e : JsonlEnv) (dir_path : Text) (disk : Disk) (l : JsonlLogger) (dated : [] ≢ e.day)
    (idle : disk.compressing ≡ [])
    (plain_file : IsPlain (get disk.files (path_of dir_path e.day))) where
  before : World
  before = record {
    logger = unopened dir_path;
    disk = disk;
    running = [];
    past = λ k. text_eq [] k;
    written = [];
  }

  started-IsSound :
      (new_jsonl_logger e dir_path disk).0 ≡ some l
      → IsSound (started l (new_jsonl_logger e dir_path disk).1)
  unfolding new_jsonl_logger before
  started-IsSound opened_it =
      let empty : IsSound before = record {
        found = tt;
        seen = tt;
        today = text_eq_refl [];
        target = tt;
        done = subst (All (IsDone before)) (sym idle) tt;
        current = tt;
      } in
      let sound =
        rotated-IsSound e before empty (ground (arith, text_eq_iff [] e.day)) plain_file in
      elim (Bool-cases e.makes_dir) [
        | inr no_dir ↦ absurd (ground arith)
        | inl made ↦ elim (Bool-cases (rotate e (unopened dir_path) disk).0) [
          | inr refused ↦ absurd (ground arith)
          | inl done ↦
              let same : (rotate e (unopened dir_path) disk).1 ≡ l = ground arith in
              rw made
                (subst (λ k. IsSound (started k (rotate e (unopened dir_path) disk).2)) same sound)
        ]
      ]

  -- From a logger just opened, whatever calls of `Log` follow, with compressions that begin and end
  -- between them, and with whatever failures: every entry that reached its day's file is found there, or
  -- in the compressed file once the plain one is gone. This is so as long as the clock returns to no
  -- past day, the day's own path holds no file but one of lines, no compression is under way at the
  -- start, and no two compressions of one file overlap.
  pub jsonl_log-Found :
      (w : World)
      → (new_jsonl_logger e dir_path disk).0 ≡ some l
      → Reach (started l (new_jsonl_logger e dir_path disk).1) w
      → All (Found w.logger.dir_path w.disk.files) w.written
  jsonl_log-Found w opened_it reach = (Reach-IsSound _ w (started-IsSound opened_it) reach).found
