-- ===== src/Audit/Jsonl/Rotating.antt =====
-- Rotating to a new day keeps the files sound, whether the new file opens or not.
use sovereignstack.Prelude.{
  ◌≡◌, ◌≢◌, refl, sym, true, false, ◌||◌, List, [], ◌∷◌, Option, none, some, arith, All, Bool-cases,
  inl, inr, ◌⊎◌,
}
use mathlib.Core.Path.{subst}
use sovereignstack.Text.{Text, text_eq, text_eq_refl}
use sovereignstack.Dict.{Dict, get, put, get-put_self}
use sovereignstack.Audit.{AuditLog}
use sovereignstack.Audit.Jsonl.{
  File, plain, packed, partial, JsonlEnv, path_of, opened, closing, rotate,
}
use sovereignstack.Audit.Jsonl.Paths.{path_of-injective}
use sovereignstack.Audit.Jsonl.Findable.{Found, put-Found_ne}
use sovereignstack.Audit.Jsonl.World.{World, IsPlain, IsPast, IsShut, IsCurrent, IsSound, All-map}
use sovereignstack.Audit.Jsonl.Writing.{widened-IsSound}

-- a rotation on its own
abbrev pub rotated : JsonlEnv → World → World
rotated e w =
    let (done, l, disk) = rotate e w.logger w.disk in
    record w { logger = l; disk = disk; past = λ k. w.past k || text_eq l.current_day k }

-- An open file stays where the rotation opens it.
opened-cases :
    (files : Dict File) (p : Text)
    → IsPlain (get files p)
    → ((opened files p ≡ files) × ((lines : List AuditLog) × (get files p ≡ some (plain lines))))
      ⊎ (opened files p ≡ put files p (plain []))
opened-cases files p h = by_file (get files p) refl h
  where
    by_file :
        (o : Option File)
        → get files p ≡ o
        → IsPlain o
        → ((elim o [ none ↦ put files p (plain []) | some f ↦ files ] ≡ files)
            × ((lines : List AuditLog) × (get files p ≡ some (plain lines))))
          ⊎ (elim o [ none ↦ put files p (plain []) | some f ↦ files ] ≡ put files p (plain []))
    by_file none e plain_file = inr refl
    by_file (some (plain lines)) e plain_file = inl (refl, (lines, e))
    by_file (some (packed lines)) e plain_file = absurd plain_file
    by_file (some partial) e plain_file = absurd plain_file

closing-done :
    (w : World) (o target : Option Text)
    → IsCurrent w o
    → ((path : Text) → IsPast w path → target ≢ some path)
    → All (IsPast w) w.disk.compressing
    → All (IsShut w target) (closing o w.disk.compressing)
closing-done w none target c shut done =
    All-map w.disk.compressing (λ path p. (p, shut path p)) done
closing-done w (some old) target c shut done =
    ((c, shut old c), All-map w.disk.compressing (λ path p. (p, shut path p)) done)

module _ (e : JsonlEnv) (w : World) (s : IsSound w) where
  -- the rotation could not open the new file
  abbrev failed : World
  failed = record w {
    logger = record w.logger {
      writes_to = elim w.logger.current_file [ none ↦ w.logger.writes_to | some old ↦ none ];
    };
    disk = record w.disk { compressing = closing w.logger.current_file w.disk.compressing };
  }

  failed-IsSound : IsSound failed
  failed-IsSound = by_current w.logger.current_file s.current
    where
      by_current :
          (o : Option Text)
          → IsCurrent w o
          → IsSound (record w {
            logger = record w.logger {
              writes_to = elim o [ none ↦ w.logger.writes_to | some old ↦ none ];
            };
            disk = record w.disk { compressing = closing o w.disk.compressing };
          })
      by_current none c = record {
        found = s.found;
        seen = s.seen;
        today = s.today;
        target = s.target;
        done = s.done;
        current = s.current;
      }
      by_current (some old) c = record {
        found = s.found;
        seen = s.seen;
        today = s.today;
        target = tt;
        done =
            closing-done w (some old) none c (λ path p h. cc)
              (All-map w.disk.compressing (λ path d. d.0) s.done);
        current = s.current;
      }

  abbrev path : Text
  path = path_of w.logger.dir_path e.day

  -- the rotation opened the new file
  abbrev moved : Dict File → World
  moved files = record w {
    logger = record w.logger {
      current_file = some path;
      writes_to = some path;
      current_day = e.day;
    };
    disk = record { files = files; compressing = closing w.logger.current_file w.disk.compressing };
    past = λ k. w.past k || text_eq e.day k;
  }

  module _ (fresh : w.past e.day ≡ false) where
    wider : (k : Text) → w.past k ≡ true → (w.past k || text_eq e.day k) ≡ true
    wider k h = ground arith

    other_day : (k : Text) → w.past k ≡ true → e.day ≢ k
    other_day k h same =
        let old : w.past e.day ≡ true = subst (λ d. w.past d ≡ true) (sym same) h in cc

    other_path : (p : Text) → IsPast w p → some path ≢ some p
    other_path p (d, h, at) same =
        let equal : path ≡ path_of w.logger.dir_path d = cc in
        other_day d h (path_of-injective w.logger.dir_path e.day d equal)

    -- with files in which the new file is open and the entries are found
    moved-IsSound :
        (files : Dict File) (lines : List AuditLog)
        → get files path ≡ some (plain lines)
        → All (Found w.logger.dir_path files) w.written
        → IsSound (moved files)
    moved-IsSound files lines there found = record {
      found = found;
      seen = All-map w.written (λ at h. wider at.0 h) s.seen;
      today = ground (arith, text_eq_refl e.day);
      target = (refl, (lines, there));
      done =
          All-map (closing w.logger.current_file w.disk.compressing)
            (λ p ((d, h, at), shut). ((d, wider d h, at), shut))
            (closing-done w w.logger.current_file (some path) s.current other_path
              (All-map w.disk.compressing (λ p d. d.0) s.done));
      current = (e.day, ground (arith, text_eq_refl e.day), refl);
    }

    written-Found :
        (written : List (Text × AuditLog))
        → All (Found w.logger.dir_path w.disk.files) written
        → All (λ at. w.past at.0 ≡ true) written
        → All (Found w.logger.dir_path (put w.disk.files path (plain []))) written
    written-Found [] found seen = tt
    written-Found ((d, entry) ∷ written) found seen = (
      put-Found_ne w.logger.dir_path w.disk.files e.day d entry (plain []) (other_day d seen.0)
          found.0,
      written-Found written found.1 seen.1,
    )

    opened-IsSound : IsPlain (get w.disk.files path) → IsSound (moved (opened w.disk.files path))
    opened-IsSound plain_file = elim (opened-cases w.disk.files path plain_file) [
      | inl (same, (lines, there)) ↦
          subst (λ fs. IsSound (moved fs)) (sym same)
            (moved-IsSound w.disk.files lines there s.found)
      | inr new ↦
          subst (λ fs. IsSound (moved fs)) (sym new)
            (moved-IsSound (put w.disk.files path (plain [])) []
              (get-put_self w.disk.files path (plain [])) (written-Found w.written s.found s.seen))
    ]

    -- `done` says whether the rotation succeeded
    pub rotated-IsSound : IsPlain (get w.disk.files path) → IsSound (rotated e w)
    unfolding rotate
    rotated-IsSound plain_file = elim (Bool-cases (e.opens path)) [
      | inl opens ↦ rw opens (opened-IsSound plain_file)
      | inr refused ↦ rw refused (
          widened-IsSound failed (λ k. w.past k || text_eq w.logger.current_day k)
            (λ k h. ground arith) failed-IsSound)
    ]
