-- ===== src/Keys/Store/Persist.antt =====
-- Memory and disk: what a successful operation leaves in keys.json, and what a failed one does.
use sovereignstack.Prelude.{
  ◌∷◌, ◌++◌, [], ◌≡◌, refl, Bool, true, false, Option, none, some, arith, if◌then◌else◌, Result, ok,
  err, is_empty, Result-cases, inl, inr,
}
use sovereignstack.Text.{Text, text_eq_refl}
use sovereignstack.Int64.{ℤ}
use sovereignstack.Dict.{Dict, get, put}
use sovereignstack.Keys.Profile.{UserProfile, KeyError, SaveStep, empty_id, empty_key, not_found}
use sovereignstack.Keys.Save.{SaveEnv, snapshot}
use sovereignstack.Keys.Save.Atomic.{
  save_locked-err_keeps, Marshalled, save_locked-Marshalled, save_locked-fails, is_failed,
}
use sovereignstack.Keys.Store.Access.{can_access-grant}
use sovereignstack.Keys.Store.{
  KeyStore, Env, Outcome, allows, hash_profile, add_user, remove_user, grant_model_access,
  revoke_model_access, set_quota, save_users, get_by_id, can_access,
}

-- The operations that save.
pub data Operation : Type 0 where
  add : UserProfile → Operation
  remove : Text → Operation
  grant revoke : Text → Text → Operation
  quota : Text → ℤ → ℤ → Operation

abbrev pub run : Env → Operation → KeyStore → Outcome (Unit {0})
run e (add p) = add_user e p
run e (remove id) = remove_user e id
run e (grant id model) = grant_model_access e id model
run e (revoke id model) = revoke_model_access e id model
run e (quota id daily monthly) = set_quota e id daily monthly

-- keys.json is the marshalled form of the users in memory, encrypted where a master key is set.
pub record InSync (e : SaveEnv) (ks : KeyStore) : Type 0 where
  pub file : Marshalled e (snapshot e.cipher ks.master_key ks.users) ks.io.disk

module _ (e : Env) (ks : KeyStore) (users : Dict UserProfile) where
  save_users-InSync : (save_users e ks users).0 ≡ ok tt → InSync e.save (save_users e ks users).1
  unfolding save_users
  save_users-InSync h = record { file = save_locked-Marshalled e.save ks.master_key users ks.io h }

  save_users-err_keeps :
      (x : KeyError)
      → (save_users e ks users).0 ≡ err x
      → (save_users e ks users).1.io.disk.keys_file ≡ ks.io.disk.keys_file
  unfolding save_users
  save_users-err_keeps x h = save_locked-err_keeps e.save ks.master_key users ks.io x h

-- An operation ends in one of three ways: refused with the store as it was, skipped with the store
-- as it was, or with the save of some users.
data Ends (e : Env) (ks : KeyStore) : Outcome (Unit {0}) → Type 0 where
  refused : (x : KeyError) → Ends e ks (err x, ks)
  skipped : Ends e ks (ok tt, ks)
  saved : (users : Dict UserProfile) → Ends e ks (save_users e ks users)

hash_profile-Ends :
    (e : Env) (ks : KeyStore) (r : Result KeyError UserProfile)
    → Ends e ks (elim r [
      | err x ↦ (err x, ks)
      | ok q ↦ save_users e ks (put ks.users q.id (record q { last_used_at = e.now }))
    ])
hash_profile-Ends e ks (err x) = refused x
hash_profile-Ends e ks (ok q) = saved (put ks.users q.id (record q { last_used_at = e.now }))

if-Ends :
    {e : Env} {ks : KeyStore} (b : Bool) (m n : Outcome (Unit {0}))
    → Ends e ks m
    → Ends e ks n
    → Ends e ks (if b then m else n)
if-Ends true m n em en = em
if-Ends false m n em en = en

user-Ends :
    {e : Env} {ks : KeyStore} (o : Option UserProfile) (id : Text)
    (f : UserProfile → Outcome (Unit {0}))
    → ((user : UserProfile) → Ends e ks (f user))
    → Ends e ks (elim o [ none ↦ (err (not_found id), ks) | some user ↦ f user ])
user-Ends none id f ends = refused (not_found id)
user-Ends (some user) id f ends = ends user

run-Ends : (e : Env) (o : Operation) (ks : KeyStore) → Ends e ks (run e o ks)
unfolding add_user remove_user grant_model_access revoke_model_access set_quota
run-Ends e (add p) ks =
    if-Ends (is_empty p.id) _ _ (refused empty_id)
      (if-Ends (is_empty p.key) _ _ (refused empty_key) (hash_profile-Ends e ks (hash_profile e p)))
run-Ends e (remove id) ks = user-Ends (get ks.users id) id _ (λ user. saved _)
run-Ends e (grant id model) ks =
    user-Ends (get ks.users id) id _
      (λ user. if-Ends (allows user.allowed_models model) _ _ skipped (saved _))
run-Ends e (revoke id model) ks = user-Ends (get ks.users id) id _ (λ user. saved _)
run-Ends e (quota id daily monthly) ks = user-Ends (get ks.users id) id _ (λ user. saved _)

Ends-InSync :
    {e : Env} {ks : KeyStore} {out : Outcome (Unit {0})}
    → Ends e ks out
    → InSync e.save ks
    → out.0 ≡ ok tt
    → InSync e.save out.1
Ends-InSync (refused x) sync h = cc
Ends-InSync skipped sync h = sync
Ends-InSync {e} {ks} (saved users) sync h = save_users-InSync e ks users h

Ends-err_keeps :
    {e : Env} {ks : KeyStore} {out : Outcome (Unit {0})} (x : KeyError)
    → Ends e ks out
    → out.0 ≡ err x
    → out.1.io.disk.keys_file ≡ ks.io.disk.keys_file
Ends-err_keeps x (refused y) h = refl
Ends-err_keeps x skipped h = refl
Ends-err_keeps {e} {ks} x (saved users) h = save_users-err_keeps e ks users x h

-- Where memory and keys.json were in step, every successful operation that saves (adding and
-- removing users, granting and revoking models, setting quotas) leaves them in step.
pub run-InSync :
    (e : Env) (o : Operation) (ks : KeyStore)
    → InSync e.save ks
    → (run e o ks).0 ≡ ok tt
    → InSync e.save (run e o ks).1
run-InSync e o ks sync h = Ends-InSync (run-Ends e o ks) sync h

-- Every operation that returns an error leaves keys.json as it was.
pub run-err_keeps :
    (e : Env) (o : Operation) (ks : KeyStore) (x : KeyError)
    → (run e o ks).0 ≡ err x
    → (run e o ks).1.io.disk.keys_file ≡ ks.io.disk.keys_file
run-err_keeps e o ks x h = Ends-err_keeps x (run-Ends e o ks) h

-- A new grant that is not saved: where any call of the save fails, the grant is reported as failed.
grant-fails :
    (e : Env) (id model : Text) (ks : KeyStore) (user : UserProfile) (step : SaveStep)
    → get ks.users id ≡ some user
    → allows user.allowed_models model ≡ false
    → e.save.fails step ≡ true
    → is_failed (run e (grant id model) ks).0 ≡ true
unfolding grant_model_access save_users
grant-fails e id model ks user step found new fails =
    let users =
      put ks.users id (record user { allowed_models = user.allowed_models ++ model ∷ [] }) in
    ground (arith, save_locked-fails e.save ks.master_key users ks.io step fails)

-- A grant of a model that the user does not have, where any call of the save fails: the grant is
-- reported as an error, keys.json is as it was, and yet the user has access to the model.
pub failed_grant_stays :
    (e : Env) (id model : Text) (ks : KeyStore) (user : UserProfile) (step : SaveStep)
    → get_by_id ks id ≡ some user
    → allows user.allowed_models model ≡ false
    → e.save.fails step ≡ true
    → ((x : KeyError) × ((run e (grant id model) ks).0 ≡ err x))
      × ((run e (grant id model) ks).1.io.disk.keys_file ≡ ks.io.disk.keys_file)
      × (can_access (run e (grant id model) ks).1 id model ≡ true)
unfolding get_by_id
failed_grant_stays e id model ks user step found new fails =
    elim (Result-cases (run e (grant id model) ks).0) [
      | inl (done, granted) ↦
          let failed = grant-fails e id model ks user step found new fails in absurd cc
      | inr (x, failed) ↦ (
        (x, failed),
        run-err_keeps e (grant id model) ks x failed,
        rw (can_access-grant e id model id model ks user found, text_eq_refl id, text_eq_refl model)
            (ground arith),
      )
    ]
