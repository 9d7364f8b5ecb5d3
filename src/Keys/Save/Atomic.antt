-- ===== src/Keys/Save/Atomic.antt =====
-- The write of keys.json is all or nothing, at every moment and on every failure.
use sovereignstack.Prelude.{
  ◌≡◌, ◌⊎◌, inl, inr, false, ◌∷◌, Option, none, some, arith, All, Result, ok, err, Option-cases,
  Bool, true, Result-cases,
}
use sovereignstack.Text.{Text}
use sovereignstack.Dict.{Dict}
use sovereignstack.Keys.Profile.{
  UserProfile, KeyError, SaveStep, open_lock, take_lock, create_temp, write_temp, chmod_temp,
  sync_temp, close_temp, rename_temp,
}
use sovereignstack.Keys.Save.{SaveEnv, Io, Disk, write_file, snapshot, save_shown, save_locked}

-- keys.json holds the old text or the whole new one.
abbrev pub OldOrNew : Option Text → Text → Disk → Type 0
OldOrNew old bytes d = (d.keys_file ≡ old) ⊎ (d.keys_file ≡ some bytes)

write_file-OldOrNew :
    (e : SaveEnv) (bytes : Text) (io : Io)
    → All (OldOrNew io.disk.keys_file bytes) io.history
    → All
        (OldOrNew io.disk.keys_file bytes)
        ((write_file e bytes io).1.disk ∷ (write_file e bytes io).1.history)
unfolding write_file
write_file-OldOrNew e bytes io h = ground arith

-- What a save leaves behind, by its result: a refused save leaves keys.json as it was; a successful
-- one leaves the new text and no temporary file.
abbrev pub Settled : Text → Io → Result KeyError (Unit {0}) → Io → Type 0
Settled bytes before (err x) after = after.disk.keys_file ≡ before.disk.keys_file
Settled bytes before (ok u) after =
    (after.disk.keys_file ≡ some bytes) × (after.disk.temp_file ≡ none)

write_file-Settled :
    (e : SaveEnv) (bytes : Text) (io : Io)
    → Settled bytes io (write_file e bytes io).0 (write_file e bytes io).1
unfolding write_file
write_file-Settled e bytes io = ground arith

module _ (e : SaveEnv) (master_key : Text) (users : Dict UserProfile) (io : Io)
    (shown : Dict UserProfile) (bytes : Text)
    (taken : snapshot e.cipher master_key users ≡ ok shown)
    (marshalled : e.marshal shown ≡ some bytes) where
  save_locked-eq-write_file : save_locked e master_key users io ≡ write_file e bytes io
  unfolding save_locked
  save_locked-eq-write_file = ground arith

  -- A save whose users can be copied and marshalled, on a disk whose every earlier state held the
  -- old text or the new one: in every state of the disk that it goes through, keys.json is what it
  -- was before or the complete new text, whichever calls fail.
  pub save_locked_atomic :
      All (OldOrNew io.disk.keys_file bytes) io.history
      → All (OldOrNew io.disk.keys_file bytes) (
          (save_locked e master_key users io).1.disk
          ∷ (save_locked e master_key users io).1.history)
  save_locked_atomic h = rw save_locked-eq-write_file (write_file-OldOrNew e bytes io h)

  -- A save whose users can be copied and marshalled: if it returns an error, keys.json is as it
  -- was; if it succeeds, the complete new text is there and no temporary file.
  pub save_locked_settles :
      Settled bytes io (save_locked e master_key users io).0 (save_locked e master_key users io).1
  save_locked_settles = rw save_locked-eq-write_file (write_file-Settled e bytes io)

-- Whatever the reason, a save that fails leaves keys.json alone.
pub save_locked-err_keeps :
    (e : SaveEnv) (master_key : Text) (users : Dict UserProfile) (io : Io) (x : KeyError)
    → (save_locked e master_key users io).0 ≡ err x
    → (save_locked e master_key users io).1.disk.keys_file ≡ io.disk.keys_file
unfolding save_locked write_file
save_locked-err_keeps e master_key users io x h = ground arith

-- The temporary file is gone after every save in which removing it does not fail, if there was none.
pub save_locked-temp_gone :
    (e : SaveEnv) (master_key : Text) (users : Dict UserProfile) (io : Io)
    → e.remove_fails ≡ false
    → io.disk.temp_file ≡ none
    → (save_locked e master_key users io).1.disk.temp_file ≡ none
unfolding save_locked write_file
save_locked-temp_gone e master_key users io h t = ground arith

abbrev pub Marshalled : SaveEnv → Result KeyError (Dict UserProfile) → Disk → Type 0
Marshalled e (err x) d = ⊥
Marshalled e (ok shown) d =
    (bytes : Text) × (e.marshal shown ≡ some bytes) × (d.keys_file ≡ some bytes)

save_shown-Marshalled :
    (e : SaveEnv) (r : Result KeyError (Dict UserProfile)) (io : Io)
    → (save_shown e r io).0 ≡ ok tt
    → Marshalled e r (save_shown e r io).1.disk
unfolding save_shown write_file
save_shown-Marshalled e (err x) io h = cc
save_shown-Marshalled e (ok shown) io h = elim (Option-cases (e.marshal shown)) [
  | inl failed ↦ absurd (ground arith)
  | inr (bytes, marshalled) ↦ (bytes, marshalled, ground arith)
]

-- After a successful save keys.json is the marshalled form of the map, or of its encrypted copy.
pub save_locked-Marshalled :
    (e : SaveEnv) (master_key : Text) (users : Dict UserProfile) (io : Io)
    → (save_locked e master_key users io).0 ≡ ok tt
    → Marshalled e (snapshot e.cipher master_key users) (save_locked e master_key users io).1.disk
unfolding save_locked
save_locked-Marshalled e master_key users io h =
    save_shown-Marshalled e (snapshot e.cipher master_key users) io h

abbrev pub is_failed : {A : Type 0} → Result KeyError A → Bool
is_failed (ok a) = false
is_failed (err x) = true

write_file-fails :
    (e : SaveEnv) (bytes : Text) (io : Io) (step : SaveStep)
    → e.fails step ≡ true
    → is_failed (write_file e bytes io).0 ≡ true
unfolding write_file
write_file-fails e bytes io open_lock h = ground arith
write_file-fails e bytes io take_lock h = ground arith
write_file-fails e bytes io create_temp h = ground arith
write_file-fails e bytes io write_temp h = ground arith
write_file-fails e bytes io chmod_temp h = ground arith
write_file-fails e bytes io sync_temp h = ground arith
write_file-fails e bytes io close_temp h = ground arith
write_file-fails e bytes io rename_temp h = ground arith

-- A save in which one of its calls fails reports an error.
pub save_locked-fails :
    (e : SaveEnv) (master_key : Text) (users : Dict UserProfile) (io : Io) (step : SaveStep)
    → e.fails step ≡ true
    → is_failed (save_locked e master_key users io).0 ≡ true
unfolding save_locked
save_locked-fails e master_key users io step h =
    elim (Result-cases (snapshot e.cipher master_key users)) [
      | inr (x, failed) ↦ ground arith
      | inl (shown, taken) ↦ elim (Option-cases (e.marshal shown)) [
        | inl unmarshalled ↦ ground arith
        | inr (bytes, marshalled) ↦ ground (arith, write_file-fails e bytes io step h)
      ]
    ]
