-- ===== src/Keys/Store/Lookup.antt =====
-- What `GetByKey` returns: a user of the store whose key the candidate matches; and a user who was
-- added is found by the plaintext key.
use mathlib.Core.Path.{subst}
use sovereignstack.Prelude.{
  ◌≡◌, refl, ap, sym, ◌⊎◌, inl, inr, true, false, [], ◌∷◌, some, arith, All, Memᴰ, is_empty, ok,
}
use sovereignstack.Text.{Text, text_eq, text_eq_iff}
use sovereignstack.Dict.{Dict, put}
use sovereignstack.Keys.Profile.{UserProfile}
use sovereignstack.Keys.Hash.{Hashing, verify_api_key, is_hashed_key, key_index}
use sovereignstack.Keys.Hash.Laws.{
  HashingLaws, hash_api_key-some, verify_api_key-hash, hash_api_key-is_hashed_key,
}
use sovereignstack.Keys.Store.{
  KeyStore, Env, find_by_key, get_by_key, hash_profile, add_user, save_users,
}

-- The candidate is the user's plaintext key, or verifies against the user's hash.
abbrev pub Accepts : Hashing → Text → UserProfile → Type 0
Accepts h api_key user =
    ((is_hashed_key user.key ≡ false) × (user.key ≡ api_key))
    ⊎ ((is_hashed_key user.key ≡ true) × (verify_api_key h api_key user.key ≡ ok true))

find_by_key_step :
    (h : Hashing) (api_key id : Text) (user found : UserProfile) (users : Dict UserProfile)
    → find_by_key h api_key ((id, user) ∷ users) ≡ ok (some found)
    → ((user ≡ found) × Accepts h api_key user) ⊎ (find_by_key h api_key users ≡ ok (some found))
unfolding find_by_key
find_by_key_step h api_key id user found users e = ground (arith, text_eq_iff user.key api_key)

find_by_key_sound :
    (h : Hashing) (api_key : Text) (users : Dict UserProfile) (found : UserProfile)
    → find_by_key h api_key users ≡ ok (some found)
    → (id : Text) × Memᴰ (id, found) users × Accepts h api_key found
find_by_key_sound h api_key [] found e = unfold find_by_key in cc
find_by_key_sound h api_key ((id, user) ∷ users) found e =
    elim (find_by_key_step h api_key id user found users e) [
      | inl (same, accepts) ↦ (
        id,
        Memᴰ.head (ap (λ (u : UserProfile). (id, u)) (sym same)),
        subst (Accepts h api_key) same accepts,
      )
      | inr later ↦
          let (k, member, accepts) = find_by_key_sound h api_key users found later in
          (k, Memᴰ.tail member, accepts)
    ]

-- A user that GetByKey returns is a user of the store, and the candidate matches that user's key.
pub get_by_key_sound :
    (h : Hashing) (api_key : Text) (ks : KeyStore) (found : UserProfile)
    → get_by_key h api_key ks ≡ ok (some found)
    → (id : Text) × Memᴰ (id, found) ks.users × Accepts h api_key found
unfolding get_by_key
get_by_key_sound h api_key ks found e = find_by_key_sound h api_key ks.users found e

-- The fingerprint rules the user out, so no hash is computed.
abbrev pub RuledOut : Hashing → Text → UserProfile → Type 0
RuledOut h api_key user =
    (is_hashed_key user.key ≡ true)
    × (is_empty user.key_index ≡ false)
    × (text_eq user.key_index (key_index h api_key) ≡ false)

find_by_key-put :
    (h : Hashing) (api_key id : Text) (user : UserProfile) (users : Dict UserProfile)
    → is_hashed_key user.key ≡ true
    → user.key_index ≡ key_index h api_key
    → verify_api_key h api_key user.key ≡ ok true
    → All (λ en. (text_eq en.0 id ≡ true) ⊎ RuledOut h api_key en.1) users
    → find_by_key h api_key (put users id user) ≡ ok (some user)
unfolding find_by_key put
find_by_key-put h api_key id user [] hashed index verified others =
    ground (arith, text_eq_iff user.key_index (key_index h api_key))
find_by_key-put h api_key id user ((k, other) ∷ users) hashed index verified others = ground (
  arith,
  text_eq_iff user.key_index (key_index h api_key),
  find_by_key-put h api_key id user users hashed index verified others.1,
)

hash_profile-plain :
    (e : Env) (laws : HashingLaws e.hashing) (p : UserProfile) (salt : Text)
    → e.salt ≡ some salt
    → is_hashed_key p.key ≡ false
    → (q : UserProfile) × (hash_profile e p ≡ ok q)
      × (q.id ≡ p.id)
      × (is_hashed_key q.key ≡ true)
      × (q.key_index ≡ key_index e.hashing p.key)
      × (verify_api_key e.hashing p.key q.key ≡ ok true)
unfolding hash_profile
hash_profile-plain e laws p salt salted plain =
    let (stored, hashed) = hash_api_key-some e.hashing salt p.key in
    (
      record p { key_index = key_index e.hashing p.key; key = stored },
      ground (arith, hashed),
      refl,
      hash_api_key-is_hashed_key e.hashing (some salt) p.key stored hashed,
      refl,
      verify_api_key-hash e.hashing laws (some salt) p.key stored hashed,
    )

-- With a salt at hand and a hashing that keeps its laws: a user with an id who was added with a
-- plaintext key is the one that GetByKey finds by that key, saved or not, where every other user's
-- key is hashed and has another fingerprint.
pub get_by_key-add_user :
    (e : Env) (laws : HashingLaws e.hashing) (p : UserProfile) (ks : KeyStore) (salt : Text)
    → e.salt ≡ some salt
    → is_empty p.id ≡ false
    → is_empty p.key ≡ false
    → is_hashed_key p.key ≡ false
    → All (λ en. (text_eq en.0 p.id ≡ true) ⊎ RuledOut e.hashing p.key en.1) ks.users
    → (stored : UserProfile) × (get_by_key e.hashing p.key (add_user e p ks).1 ≡ ok (some stored))
      × (stored.id ≡ p.id)
unfolding get_by_key add_user save_users
get_by_key-add_user e laws p ks salt salted has_id has_key plain others =
    let (q, made, same_id, hashed, index, verified) =
      hash_profile-plain e laws p salt salted plain in
    let stored = record q { last_used_at = e.now } in
    let found = find_by_key-put e.hashing p.key p.id stored ks.users hashed index verified others in
    (stored, ground (arith, found), same_id)
