-- ===== src/Keys/Store/Access.antt =====
-- What granting, revoking and the other operations do to the answers of `CanAccess`.
use sovereignstack.Prelude.{
  ◌≡◌, refl, true, false, List, [], ◌∷◌, ◌++◌, some, ◌||◌, ◌&&◌, not, Bool-cases, Option-cases, inl,
  inr, arith, if◌then◌else◌, any, keep,
}
use sovereignstack.Text.{Text, text_eq, text_eq_iff, text_eq_refl}
use sovereignstack.Int64.{ℤ}
use sovereignstack.Dict.{get, get-put, get-remove}
use sovereignstack.Keys.Profile.{UserProfile}
use sovereignstack.Keys.Store.{
  KeyStore, Env, get_by_id, allows, wildcard, grant_model_access, revoke_model_access, remove_user,
  can_access, save_users, set_quota,
}

allows-append :
    (models : List Text) (model other : Text)
    → allows (models ++ model ∷ []) other
      ≡ (allows models other || (text_eq model wildcard || text_eq model other))
unfolding allows
allows-append [] model other = ground arith
allows-append (m ∷ models) model other = ground (arith, allows-append models model other)

-- The grant that the code skips is one that changes nothing.
allows_already :
    (models : List Text) (model other : Text)
    → allows models model ≡ true
    → (text_eq model wildcard || text_eq model other) ≡ true
    → allows models other ≡ true
unfolding allows
allows_already [] model other h w = cc
allows_already (m ∷ models) model other h w = ground (
  arith,
  allows_already models model other,
  text_eq_iff m model,
  text_eq_iff model wildcard,
  text_eq_iff model other,
  text_eq_iff m wildcard,
  text_eq_iff m other,
)

-- After a grant to a user that exists, saved or not, that user has access to the granted model (to
-- every model, if the wildcard was granted), and every other answer of CanAccess is as before.
pub can_access-grant :
    (e : Env) (id model other_id other : Text) (ks : KeyStore) (user : UserProfile)
    → get_by_id ks id ≡ some user
    → can_access (grant_model_access e id model ks).1 other_id other ≡ (
        can_access ks other_id other
        || (text_eq id other_id && (text_eq model wildcard || text_eq model other)))
unfolding grant_model_access can_access save_users get_by_id
can_access-grant e id model other_id other ks user found =
    let granted = record user { allowed_models = user.allowed_models ++ model ∷ [] } in
    elim (Bool-cases (allows user.allowed_models model)) [
      | inl old ↦
          ground
            (arith, text_eq_iff id other_id, allows_already user.allowed_models model other old)
      | inr new ↦ ground (
        arith,
        text_eq_iff id other_id,
        get-put ks.users id granted other_id,
        allows-append user.allowed_models model other,
      )
    ]

allows-keep :
    (models : List Text) (model other : Text)
    → allows (keep (λ m. not (text_eq m model)) models) other
      ≡ any (λ m. not (text_eq m model) && (text_eq m wildcard || text_eq m other)) models
unfolding allows
allows-keep [] model other = refl
allows-keep (m ∷ models) model other = ground (arith, allows-keep models model other)

-- After a revocation, saved or not, a user has access to exactly what some other entry of the list
-- gives; the other users are as before.
pub can_access-revoke :
    (e : Env) (id model other_id other : Text) (ks : KeyStore) (user : UserProfile)
    → get_by_id ks id ≡ some user
    → can_access (revoke_model_access e id model ks).1 other_id other ≡ (
        if text_eq id other_id
        then any
            (λ m. not (text_eq m model) && (text_eq m wildcard || text_eq m other))
            user.allowed_models
        else can_access ks other_id other)
unfolding revoke_model_access can_access save_users get_by_id
can_access-revoke e id model other_id other ks user found =
    let filtered = keep (λ m. not (text_eq m model)) user.allowed_models in
    ground (
      arith,
      get-put ks.users id (record user { allowed_models = filtered }) other_id,
      allows-keep user.allowed_models model other,
    )

-- A revoked model stays reachable exactly where the list holds the wildcard.
pub can_access-revoke_self :
    (e : Env) (id model : Text) (ks : KeyStore) (user : UserProfile)
    → get_by_id ks id ≡ some user
    → text_eq model wildcard ≡ false
    → can_access (revoke_model_access e id model ks).1 id model
      ≡ any (λ m. text_eq m wildcard) user.allowed_models
can_access-revoke_self e id model ks user found plain =
    rw (can_access-revoke e id model id model ks user found, text_eq_refl id)
      (any_wildcard user.allowed_models)
  where
    any_wildcard :
        (models : List Text)
        → any (λ m. not (text_eq m model) && (text_eq m wildcard || text_eq m model)) models
          ≡ any (λ m. text_eq m wildcard) models
    any_wildcard [] = refl
    any_wildcard (m ∷ models) =
        ground (arith, any_wildcard models, text_eq_iff m model, text_eq_iff m wildcard)

-- A removed user has access to nothing; the others are as before.
pub can_access-remove :
    (e : Env) (id other_id other : Text) (ks : KeyStore) (user : UserProfile)
    → get_by_id ks id ≡ some user
    → can_access (remove_user e id ks).1 other_id other
      ≡ (if text_eq id other_id then false else can_access ks other_id other)
unfolding remove_user can_access save_users get_by_id
can_access-remove e id other_id other ks user found =
    ground (arith, get-remove ks.users id other_id)

-- Setting the quotas changes no answer of CanAccess.
pub can_access-set_quota :
    (e : Env) (id : Text) (daily monthly : ℤ) (ks : KeyStore) (other_id other : Text)
    → can_access (set_quota e id daily monthly ks).1 other_id other ≡ can_access ks other_id other
unfolding set_quota can_access save_users
can_access-set_quota e id daily monthly ks other_id other = elim (Option-cases (get ks.users id)) [
  | inl absent ↦ ground arith
  | inr (user, found) ↦
      let limited = record user { max_tokens_per_day = daily; max_tokens_per_month = monthly } in
      ground (arith, text_eq_iff id other_id, get-put ks.users id limited other_id)
]
