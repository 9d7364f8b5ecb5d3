-- ===== src/Keys/Examples.antt =====
-- The theorems of the key store at concrete inputs, with small instances of the libraries.
use sovereignstack.Prelude.{
  ℕ, zero, suc, ◌+◌, ◌-◌, ◌≡◌, refl, false, true, [], ◌∷◌, ◌++◌, none, some, arith, length, any,
  All, ok, err, ◌&&◌, ◌||◌, not, if◌then◌else◌, Memᴰ,
}
use sovereignstack.Text.{Text, codes, text_eq, has_prefix}
use sovereignstack.Text.Split.{Free}
use sovereignstack.Int64.{pos}
use sovereignstack.Dict.{Dict, get}
use sovereignstack.Crypto.{Cipher, encrypt, is_encrypted}
use sovereignstack.Crypto.Laws.{CipherLaws}
use sovereignstack.Keys.Profile.{UserProfile, KeyError, SaveStep, rename_temp}
use sovereignstack.Keys.Hash.{Hashing, hash_api_key, verify_api_key, is_hashed_key, dollar}
use sovereignstack.Keys.Hash.Laws.{HashingLaws, verify_api_key-hash}
use sovereignstack.Keys.Fields.RoundTrip.{IsPlain}
use sovereignstack.Keys.Save.{
  encrypt_users, encrypt_fields, encrypt_field, Io, SaveEnv, save_locked, write_file, snapshot,
}
use sovereignstack.Keys.Save.Atomic.{OldOrNew, save_locked_atomic}
use sovereignstack.Keys.Load.{open_store}
use sovereignstack.Keys.Load.Restart.{open_store-InSync}
use sovereignstack.Keys.Store.{
  KeyStore, Env, get_by_key, find_by_key, save_users, allows, get_by_id, add_user, can_access,
  grant_model_access, revoke_model_access, wildcard,
}
use sovereignstack.Keys.Store.Access.{can_access-grant, can_access-revoke}
use sovereignstack.Keys.Store.Lookup.{Accepts, get_by_key_sound, get_by_key-add_user}
use sovereignstack.Keys.Store.Persist.{
  Operation, grant, run, InSync, run-InSync, failed_grant_stays,
}

-- A cipher that hides nothing, with nonces that count up.
abbrev plain_cipher : Cipher
plain_cipher = record {
  seal = λ key nonce p. p;
  open_sealed = λ key nonce c. some c;
  nonce = λ i. some (codes "twelve byte" ++ (97 + i) ∷ []);
  encode = λ t. t;
  decode = λ t. some t;
}

some-length : (a n : Text) → some a ≡ some n → length a ≡ 12 → length n ≡ 12
some-length a n e h = cc

plain_cipher-CipherLaws : CipherLaws plain_cipher
plain_cipher-CipherLaws = record {
  open-seal = λ key nonce p. refl;
  decode-encode = λ t. refl;
  nonce_length = λ i n e. some-length (codes "twelve byte" ++ (97 + i) ∷ []) n e refl;
}

abbrev key_32 : Text
key_32 = codes "0123456789abcdef0123456789abcdef"

-- bytes shifted past '$'
abbrev shift : Text → Text
shift [] = []
shift (c ∷ t) = (c + 37) ∷ shift t

abbrev unshift : Text → Text
unshift [] = []
unshift (c ∷ t) = (c - 37) ∷ unshift t

abbrev filled : ℕ → Text
filled zero = []
filled (suc n) = 7 ∷ filled n

unshift-shift : (t : Text) → unshift (shift t) ≡ t
unshift-shift [] = refl
unshift-shift (c ∷ t) = let e : c + 37 - 37 ≡ c = omega arith in cc (e, unshift-shift t)

shift-Free : (t : Text) → Free dollar (shift t)
shift-Free [] = tt
shift-Free (c ∷ t) = (ground arith, shift-Free t)

length-filled : (n : ℕ) → length (filled n) ≡ n
length-filled zero = refl
length-filled (suc n) = omega (arith, length-filled n)

abbrev toy_hashing : Hashing
toy_hashing = record {
  argon2 = λ p s t m n k. filled k;
  encode = shift;
  decode = λ t. some (unshift t);
  scan_version = λ t. some 19;
  scan_params = λ t. some (65536, 2, 2);
  mac = λ t. t;
}

toy_hashing-HashingLaws : HashingLaws toy_hashing
toy_hashing-HashingLaws = record {
  decode-encode = λ t. cc (unshift-shift t);
  encode-Free = λ t. shift-Free t;
  scan_header = refl;
  scan_costs = refl;
  argon2_length = λ p s t m n k. length-filled k;
}

-- what hashing the key "k" under the salt "s" stores
abbrev stored_k : Text
stored_k = codes "$argon2id$v=19$m=65536,t=2,p=2$" ++ shift (codes "s") ++ 36 ∷ shift (filled 32)

verify_api_key-hash_example : verify_api_key toy_hashing (codes "k") stored_k ≡ ok true
verify_api_key-hash_example =
    verify_api_key-hash toy_hashing toy_hashing-HashingLaws (some (codes "s")) (codes "k") stored_k
      (unfold hash_api_key in refl)

abbrev no_faults : SaveEnv
no_faults = record {
  cipher = plain_cipher;
  marshal = λ users. some (codes "{}");
  fails = λ step. false;
  written = [];
  remove_fails = false;
}

-- the rename of the temporary file fails
abbrev rename_fails : SaveEnv
rename_fails = record {
  cipher = plain_cipher;
  marshal = λ users. some (codes "{}");
  fails = λ step. elim step [ SaveStep.rename_temp ↦ true | _ ↦ false ];
  written = [];
  remove_fails = false;
}

abbrev alice : UserProfile
alice = record {
  id = codes "alice";
  key = codes "k";
  key_index = [];
  department = codes "Legal";
  team = [];
  role = codes "service";
  ip_allowlist = codes "10.0.0.1" ∷ [];
  allowed_models = codes "phi" ∷ [];
  rate_limit_per_min = 0;
  max_tokens_per_day = pos 0;
  max_tokens_per_month = pos 0;
  created_at = 0;
  last_used_at = 0;
}

abbrev disk : Io
disk = record { disk = record { keys_file = some (codes "old"); temp_file = none }; history = [] }

abbrev pub store : KeyStore
store = record { users = (codes "alice", alice) ∷ []; master_key = []; io = disk }

abbrev pub env : Env
env = record { hashing = toy_hashing; save = no_faults; now = 5; salt = some (codes "s") }

abbrev faulty : Env
faulty = record env { save = rename_fails }

save_locked_atomic_example : All (OldOrNew (some (codes "old")) (codes "{}")) (
    (save_locked rename_fails [] store.users disk).1.disk
    ∷ (save_locked rename_fails [] store.users disk).1.history)
save_locked_atomic_example =
    save_locked_atomic rename_fails [] store.users disk store.users (codes "{}")
      (unfold snapshot in refl) refl tt

can_access-grant_example :
    can_access
      (grant_model_access env (codes "alice") (codes "llama") store).1
      (codes "alice")
      (codes "llama")
    ≡ (can_access store (codes "alice") (codes "llama")
        || (text_eq (codes "alice") (codes "alice")
            && (text_eq (codes "llama") wildcard || text_eq (codes "llama") (codes "llama"))))
can_access-grant_example =
    can_access-grant env (codes "alice") (codes "llama") (codes "alice") (codes "llama") store alice
      (unfold get_by_id get text_eq in refl)

can_access-revoke_example :
    can_access
      (revoke_model_access env (codes "alice") (codes "phi") store).1
      (codes "alice")
      (codes "phi")
    ≡ (if text_eq (codes "alice") (codes "alice")
        then any
            (λ m. not (text_eq m (codes "phi")) && (text_eq m wildcard || text_eq m (codes "phi")))
            alice.allowed_models
        else can_access store (codes "alice") (codes "phi"))
can_access-revoke_example =
    can_access-revoke env (codes "alice") (codes "phi") (codes "alice") (codes "phi") store alice
      (unfold get_by_id get text_eq in refl)

get_by_key_sound_example :
    (id : Text) × Memᴰ (id, alice) store.users × Accepts toy_hashing (codes "k") alice
get_by_key_sound_example =
    get_by_key_sound toy_hashing (codes "k") store alice
      (unfold get_by_key find_by_key is_hashed_key has_prefix text_eq in refl)

abbrev no_users : KeyStore
no_users = record { users = []; master_key = []; io = disk }

get_by_key-add_user_example :
    (stored : UserProfile) × (get_by_key toy_hashing (codes "k") (add_user env alice no_users).1
      ≡ ok (some stored))
    × (stored.id ≡ codes "alice")
get_by_key-add_user_example =
    get_by_key-add_user env toy_hashing-HashingLaws alice no_users (codes "s") refl refl refl
      (unfold is_hashed_key has_prefix in refl) tt

abbrev pub in_sync : KeyStore
in_sync = record store {
  io = record disk { disk = record { keys_file = some (codes "{}"); temp_file = none } };
}

pub in_sync-InSync : InSync no_faults in_sync
unfolding snapshot
in_sync-InSync = record { file = (codes "{}", refl, refl) }

abbrev grant_llama : Operation
grant_llama = grant (codes "alice") (codes "llama")

run-InSync_example : InSync no_faults (run env grant_llama in_sync).1
run-InSync_example = run-InSync env grant_llama in_sync in_sync-InSync (
    unfold grant_model_access save_users save_locked write_file snapshot get text_eq allows in refl)

failed_grant_stays_example :
    ((x : KeyError) × ((run faulty grant_llama store).0 ≡ err x))
    × ((run faulty grant_llama store).1.io.disk.keys_file ≡ some (codes "old"))
    × (can_access (run faulty grant_llama store).1 (codes "alice") (codes "llama") ≡ true)
failed_grant_stays_example =
    failed_grant_stays faulty (codes "alice") (codes "llama") store alice rename_temp
      (unfold get_by_id get text_eq in refl) (unfold allows text_eq in refl) refl

alice-IsPlain : IsPlain alice
unfolding is_encrypted has_prefix
alice-IsPlain = record { department_plain = refl; team_plain = refl; role_plain = refl }

-- alice as a save writes her
abbrev sealed_alice : UserProfile
sealed_alice = record alice {
  department = codes "$enc1$twelve byteaLegal";
  role = codes "$enc1$twelve bytecservice";
}

abbrev sealed_users : Dict UserProfile
sealed_users = (codes "alice", sealed_alice) ∷ []

-- the store of alice, encrypted in keys.json
abbrev sealed_store : KeyStore
sealed_store = record in_sync { master_key = key_32 }

sealed_snapshot : snapshot plain_cipher key_32 store.users ≡ ok sealed_users
unfolding snapshot encrypt_users encrypt_fields encrypt_field encrypt is_encrypted has_prefix
sealed_snapshot = refl

sealed_store-InSync : InSync no_faults sealed_store
unfolding snapshot encrypt_users encrypt_fields encrypt_field encrypt is_encrypted has_prefix
sealed_store-InSync = record { file = (codes "{}", refl, refl) }

open_store-InSync_example :
    open_store plain_cipher (λ bytes. some sealed_users) true key_32 sealed_store.io
    ≡ ok (ok tt, sealed_store)
open_store-InSync_example =
    open_store-InSync no_faults plain_cipher-CipherLaws (λ bytes. some sealed_users) sealed_store
      refl (alice-IsPlain, tt) (λ shown bytes taken marshalled. let same = sealed_snapshot in cc)
      sealed_store-InSync
