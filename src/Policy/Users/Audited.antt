-- ===== src/Policy/Users/Audited.antt =====
-- What a successful change leaves behind: its audit record, its effect, and keys.json in step.
use sovereignstack.Prelude.{
  ◌≡◌, refl, sym, Bool, true, false, List, ◌∷◌, Option, none, some, ok, err, arith, if◌then◌else◌,
  is_empty, Option-cases, inl, inr,
}
use mathlib.Core.Path.{subst}
use sovereignstack.Text.{Text, codes, text_eq_refl}
use sovereignstack.Keys.Store.{Env, KeyStore, Outcome, get_by_id, grant_model_access, can_access}
use sovereignstack.Keys.Store.Access.{can_access-grant}
use sovereignstack.Keys.Store.Persist.{InSync, run-InSync, grant, revoke, quota}
use sovereignstack.Policy.Session.{SessionCrypto}
use sovereignstack.Policy.Service.{
  Service, AdminAction, grant_model, revoke_model, PolicyRequest, PolicyReply, store_refused,
  model_granted, model_revoked, quota_set,
}
use sovereignstack.Policy.Admins.{authenticate_admin, audit}
use sovereignstack.Policy.Users.{part, finish, handle_users}
use sovereignstack.Policy.Users.Ends.{
  is_admin_reply, parts_of, Call, grants, revokes, limits, Ends, harmless, listed, called,
  handle_users-Ends,
}

-- the name under which an action is audited
abbrev pub audited_as : Text → Text
audited_as actor = if is_empty actor then codes "unknown" else actor

-- the action that a reply confirms
abbrev pub confirmed : Text → PolicyReply → Option AdminAction
confirmed id (model_granted model) = some (grant_model id model)
confirmed id (model_revoked model) = some (revoke_model id model)
confirmed id (quota_set daily monthly) = some (AdminAction.set_quota id daily monthly)
confirmed id reply = none

abbrev pub recorded :
    Text → Option AdminAction → List (Text × AdminAction) → List (Text × AdminAction)
recorded actor none audits = audits
recorded actor (some action) audits = (audited_as actor, action) ∷ audits

-- what a confirmed action did: of a grant, that it is in force
abbrev pub InForce : KeyStore → Option AdminAction → Type 0
InForce ks (some (grant_model id model)) = can_access ks id model ≡ true
InForce ks action = Unit

harmless-unconfirmed :
    (id : Text) (reply : PolicyReply) → is_admin_reply reply ≡ false → confirmed id reply ≡ none
harmless-unconfirmed id reply plain = ground arith

-- A grant that the store accepted is in force.
grant-ok_can_access :
    (e : Env) (id model : Text) (ks : KeyStore)
    → (grant_model_access e id model ks).0 ≡ ok tt
    → can_access (grant_model_access e id model ks).1 id model ≡ true
unfolding grant_model_access get_by_id
grant-ok_can_access e id model ks granted = elim (Option-cases (get_by_id ks id)) [
  | inl absent ↦ absurd (ground arith)
  | inr (user, found) ↦
      rw (can_access-grant e id model id model ks user found, text_eq_refl id, text_eq_refl model)
        (ground arith)
]

Call-confirmed :
    {e : Env} {ks : KeyStore} {id : Text} {action : AdminAction} {reply : PolicyReply}
    {out : Outcome (Unit {0})}
    → Call e ks id action reply out
    → confirmed id reply ≡ some action
Call-confirmed (grants model) = refl
Call-confirmed (revokes model) = refl
Call-confirmed (limits daily monthly) = refl

Call-InForce :
    {e : Env} {ks : KeyStore} {id : Text} {action : AdminAction} {reply : PolicyReply}
    {out : Outcome (Unit {0})}
    → Call e ks id action reply out
    → out.0 ≡ ok tt
    → InForce out.1 (some action)
Call-InForce {e} {ks} {id} (grants model) h = grant-ok_can_access e id model ks h
Call-InForce (revokes model) h = tt
Call-InForce (limits daily monthly) h = tt

-- What a request leaves: a record for what was confirmed and for nothing else, and a confirmed grant
-- in force.
abbrev pub Kept : Text → Text → Service → PolicyReply × Service → Type 0
Kept actor id s out =
    (out.1.audits ≡ recorded actor (confirmed id out.0) s.audits)
    × InForce out.1.store (confirmed id out.0)

audit-store :
    (actor : Text) (action : AdminAction) (s : Service) → (audit actor action s).store ≡ s.store
unfolding audit
audit-store actor action s = ground arith

audit-audits :
    (actor : Text) (action : AdminAction) (s : Service)
    → s.has_audit ≡ true
    → (audit actor action s).audits ≡ (audited_as actor, action) ∷ s.audits
unfolding audit
audit-audits actor action s on = ground arith

finish-Kept :
    (actor id : Text) (s : Service) (action : AdminAction) (reply : PolicyReply)
    (out : Outcome (Unit {0}))
    → s.has_audit ≡ true
    → confirmed id reply ≡ some action
    → (out.0 ≡ ok tt → InForce out.1 (some action))
    → Kept actor id s (finish actor action reply s out)
unfolding finish
finish-Kept actor id s action reply (err x, ks) on says force = (refl, tt)
finish-Kept actor id s action reply (ok done, ks) on says force =
    let stored : Service = record s { store = ks } in
    rw says (
      audit-audits actor action stored on,
      subst (λ k. InForce k (some action)) (sym (audit-store actor action stored)) (force refl),
    )

Ends-Kept :
    {c : SessionCrypto} {e : Env} {r : PolicyRequest} {s : Service} {id : Text}
    {out : PolicyReply × Service}
    → Ends c e r s id out
    → s.has_audit ≡ true
    → Kept (authenticate_admin c e.now s r) id s out
Ends-Kept {id = id} (harmless reply plain) on = rw (harmless-unconfirmed id reply plain) (refl, tt)
Ends-Kept (listed admin) on = (refl, tt)
Ends-Kept {c} {e} {r} {s} {id} (called action reply out admin call) on =
    finish-Kept (authenticate_admin c e.now s r) id s action reply out on (Call-confirmed call)
      (Call-InForce call)

-- With an audit sink, a request to the users' handler leaves exactly one new record where its answer
-- confirms a change, with the actor who authenticated, the user of the path and what was changed,
-- and no record where it does not; and a confirmed grant is in force.
pub handle_users_audited :
    (c : SessionCrypto) (e : Env) (r : PolicyRequest) (s : Service)
    → s.has_audit ≡ true
    → Kept (authenticate_admin c e.now s r) (part (parts_of r) 4) s (handle_users c e r s)
handle_users_audited c e r s on = Ends-Kept (handle_users-Ends c e r s) on

abbrev pub is_refused : PolicyReply → Bool
is_refused (store_refused x) = true
is_refused reply = false

finish-InSync :
    (e : Env) (actor : Text) (s : Service) (action : AdminAction) (reply : PolicyReply)
    (out : Outcome (Unit {0}))
    → (out.0 ≡ ok tt → InSync e.save out.1)
    → is_refused (finish actor action reply s out).0 ≡ false
    → InSync e.save (finish actor action reply s out).1.store
unfolding finish
finish-InSync e actor s action reply (err x, ks) sync plain = cc
finish-InSync e actor s action reply (ok done, ks) sync plain =
    rw (audit-store actor action (record s { store = ks })) (sync refl)

Call-InSync :
    {e : Env} {ks : KeyStore} {id : Text} {action : AdminAction} {reply : PolicyReply}
    {out : Outcome (Unit {0})}
    → Call e ks id action reply out
    → InSync e.save ks
    → out.0 ≡ ok tt
    → InSync e.save out.1
Call-InSync {e} {ks} {id} (grants model) sync h = run-InSync e (grant id model) ks sync h
Call-InSync {e} {ks} {id} (revokes model) sync h = run-InSync e (revoke id model) ks sync h
Call-InSync {e} {ks} {id} (limits daily monthly) sync h =
    run-InSync e (quota id daily monthly) ks sync h

Ends-InSync :
    {c : SessionCrypto} {e : Env} {r : PolicyRequest} {s : Service} {id : Text}
    {out : PolicyReply × Service}
    → Ends c e r s id out
    → InSync e.save s.store
    → is_refused out.0 ≡ false
    → InSync e.save out.1.store
Ends-InSync (harmless reply plain) sync h = sync
Ends-InSync (listed admin) sync h = sync
Ends-InSync {c} {e} {r} {s} (called action reply out admin call) sync h =
    finish-InSync e (authenticate_admin c e.now s r) s action reply out (Call-InSync call sync) h

-- Where keys.json was in step with the store in memory, it is so after every request to the users'
-- handler that is not answered with the store's error.
pub handle_users-InSync :
    (c : SessionCrypto) (e : Env) (r : PolicyRequest) (s : Service)
    → InSync e.save s.store
    → is_refused (handle_users c e r s).0 ≡ false
    → InSync e.save (handle_users c e r s).1.store
handle_users-InSync c e r s sync h = Ends-InSync (handle_users-Ends c e r s) sync h
