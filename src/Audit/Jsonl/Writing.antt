-- ===== src/Audit/Jsonl/Writing.antt =====
-- Writing a line keeps the files sound.
use sovereignstack.Prelude.{
  ◌≡◌, refl, ap, sym, ◌∙◌, Bool, true, false, List, [], ◌∷◌, ◌++◌, Option, none, some, arith,
  Bool-cases, Option-cases, inl, inr,
}
use mathlib.Core.Path.{subst}
use sovereignstack.Text.{Text, text_eq, text_eq_iff}
use sovereignstack.Dict.{Dict, get, put, get-put_self}
use sovereignstack.Audit.{AuditLog, stamped}
use sovereignstack.Audit.Jsonl.{
  File, plain, JsonlLogger, JsonlEnv, path_of, encode_entry, write_entry,
}
use sovereignstack.Audit.Jsonl.Findable.{Has-last, Found, Found-subst, put-Found_line}
use sovereignstack.Audit.Jsonl.World.{World, noted, is_some, IsOpen, IsCurrent, IsSound, All-map}

-- the world with another logger, other files and other entries
abbrev pub changed : World → JsonlLogger → Dict File → List (Text × AuditLog) → World
changed w l files written = record w {
  logger = l;
  disk = record w.disk { files = files };
  written = written;
}

pub changed-IsSound :
    (w : World) (l : JsonlLogger) (files after : Dict File) (written more : List (Text × AuditLog))
    → after ≡ files
    → more ≡ written
    → IsSound (changed w l files written)
    → IsSound (changed w l after more)
changed-IsSound w l files after written more same_files same_written s =
    subst (λ fs. IsSound (changed w l fs more)) (sym same_files)
      (subst (λ wr. IsSound (changed w l files wr)) (sym same_written) s)

module _ (e : JsonlEnv) (l : JsonlLogger) (s : AuditLog) (files : Dict File) where
  encode_entry-none : l.writes_to ≡ none → encode_entry e l s files ≡ files
  unfolding encode_entry
  encode_entry-none h = rw h refl

  encode_entry-failed : e.encodes ≡ false → encode_entry e l s files ≡ files
  unfolding encode_entry
  encode_entry-failed h = elim (Option-cases l.writes_to) [
    | inl shut ↦ rw shut refl
    | inr (path, writing) ↦ rw (writing, h) refl
  ]

  encode_entry-some :
      (path : Text) (lines : List AuditLog)
      → l.writes_to ≡ some path
      → e.encodes ≡ true
      → get files path ≡ some (plain lines)
      → encode_entry e l s files ≡ put files path (plain (lines ++ s ∷ []))
  unfolding encode_entry
  encode_entry-some path lines writing h there = rw (writing, h, there) refl

module _ (e : JsonlEnv) (entry : AuditLog) (l : JsonlLogger)
    (written : List (Text × AuditLog)) where
  noted-none : l.writes_to ≡ none → noted e entry l written ≡ written
  noted-none h = rw h refl

  noted-failed : e.encodes ≡ false → noted e entry l written ≡ written
  noted-failed h = elim (Bool-cases (is_some l.writes_to)) [
    | inl writing ↦ rw (writing, h) refl
    | inr shut ↦ rw shut refl
  ]

  pub noted-other : text_eq e.day l.current_day ≡ false → noted e entry l written ≡ written
  noted-other h = ground (arith, h)

  noted-some :
      (path : Text)
      → l.writes_to ≡ some path
      → e.encodes ≡ true
      → e.day ≡ l.current_day
      → noted e entry l written ≡ (e.day, stamped e.now entry) ∷ written
  noted-some path writing h same =
      let today : text_eq e.day l.current_day ≡ true =
        ground (arith, text_eq_iff e.day l.current_day) in
      rw (writing, h, today) refl

-- more days
pub widened-IsSound :
    (w : World) (past : Text → Bool)
    → ((k : Text) → w.past k ≡ true → past k ≡ true)
    → IsSound w
    → IsSound (record w { past = past })
widened-IsSound w past more s = record {
  found = s.found;
  seen = All-map w.written (λ at h. more at.0 h) s.seen;
  today = more w.logger.current_day s.today;
  target = s.target;
  done =
      All-map w.disk.compressing (λ path ((day, h, e), shut). ((day, more day h, e), shut)) s.done;
  current = current-widened w.logger.current_file s.current;
}
  where
    current-widened : (o : Option Text) → IsCurrent w o → IsCurrent (record w { past = past }) o
    current-widened none c = tt
    current-widened (some path) (day, h, e) = (day, more day h, e)

-- a line to the open file of the day
module _ (e : JsonlEnv) (entry : AuditLog) (w : World) (s : IsSound w)
    (same : e.day ≡ w.logger.current_day) where
  abbrev pub line : AuditLog
  line = stamped e.now entry

  abbrev pub after : JsonlLogger
  after = (write_entry e line w.logger w.disk).0

  abbrev day : Text
  day = w.logger.current_day

  abbrev path : Text
  path = path_of w.logger.dir_path day

  ring-IsSound : IsSound (changed w after w.disk.files w.written)
  unfolding write_entry
  ring-IsSound = record {
    found = s.found;
    seen = s.seen;
    today = s.today;
    target = s.target;
    done = s.done;
    current = s.current;
  }

  line-IsSound :
      (lines : List AuditLog)
      → w.logger.writes_to ≡ some path
      → get w.disk.files path ≡ some (plain lines)
      → IsSound (
          changed w after
            (put w.disk.files path (plain (lines ++ line ∷ [])))
            ((e.day, line) ∷ w.written))
  unfolding write_entry
  line-IsSound lines writing there =
      let longer = plain (lines ++ line ∷ []) in
      let files = put w.disk.files path longer in
      record {
        found = (
          subst (λ d. Found w.logger.dir_path files (d, line)) (sym same)
              (Found-subst w.logger.dir_path files line day (some longer) _
                (get-put_self w.disk.files path longer) refl (Has-last line lines)),
          All-map w.written
              (λ (d, old) h.
                put-Found_line w.logger.dir_path w.disk.files day d old lines line there h)
              s.found,
        );
        seen = (subst (λ d. w.past d ≡ true) (sym same) s.today, s.seen);
        today = s.today;
        target =
            subst (IsOpen w.logger files) (sym writing)
              (refl, (lines ++ line ∷ [], get-put_self w.disk.files path longer));
        done = s.done;
        current = s.current;
      }

  pub write-IsSound :
      IsSound (
        changed w after
          (write_entry e line w.logger w.disk).1.files
          (noted e entry after w.written))
  unfolding write_entry
  write-IsSound = elim (Option-cases w.logger.writes_to) [
    | inl shut ↦
        changed-IsSound w after w.disk.files _ w.written _
          (encode_entry-none e w.logger line w.disk.files shut)
          (noted-none e entry after w.written shut) ring-IsSound
    | inr (target, writing) ↦ elim (Bool-cases e.encodes) [
      | inr failed ↦
          changed-IsSound w after w.disk.files _ w.written _
            (encode_entry-failed e w.logger line w.disk.files failed)
            (noted-failed e entry after w.written failed) ring-IsSound
      | inl encoded ↦
          let (at_day, (lines, there)) = subst (IsOpen w.logger w.disk.files) writing s.target in
          let there_now : get w.disk.files path ≡ some (plain lines) =
            subst (λ p. get w.disk.files p ≡ some (plain lines)) at_day there in
          let writing_now : w.logger.writes_to ≡ some path = writing ∙ ap some at_day in
          changed-IsSound w after (put w.disk.files path (plain (lines ++ line ∷ []))) _
            ((e.day, line) ∷ w.written) _
            (encode_entry-some e w.logger line w.disk.files path lines writing_now encoded
              there_now)
            (noted-some e entry after w.written path writing_now encoded same)
            (line-IsSound lines writing_now there_now)
    ]
  ]
