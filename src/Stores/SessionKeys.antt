-- ===== src/Stores/SessionKeys.antt =====
-- web/src/stores/sessionKeys.ts: the memory-only keystore. A call that throws leaves the store as it
-- is; the sync that `unlock…` and `lock` start or stop in the background is not part of this module.
pub mod Subkeys
pub mod Calls
pub mod Interrupted
pub mod Identity
use fincrypt.Prelude.{
  ℕ, Bool, true, false, not, ◌||◌, Option, none, some, List, [], ◌∷◌, Str, codes, take, drop,
  str_eq, if◌then◌else◌,
}
use fincrypt.Crypto.Errors.{crypto_error, locked, Fault, Result, ok, err, throw_if, ◌>>=◌, ◌>>◌}
use fincrypt.Crypto.Platform.{Platform}
use fincrypt.Crypto.Aead.{
  RecordType, transactions, attachments, chat, accounts, vault, encrypt_bytes,
}
use fincrypt.Crypto.KeyHierarchy.{derive_subkey, unwrap_dek}
use fincrypt.Crypto.Kdf.{KdfParams, parse_kdf_params, argon2id_derive, derive_kek}
use fincrypt.Crypto.KdfWorker.{derive_kek_off_thread, Derived}
use fincrypt.Crypto.Recovery.{recover_dek}

abbrev pub same_type : RecordType → RecordType → Bool
same_type transactions transactions = true
same_type attachments attachments = true
same_type chat chat = true
same_type accounts accounts = true
same_type vault vault = true
same_type _ _ = false

module _ (P : Platform) where
  open P use {CryptoKey}

  pub record SessionKeys : Type 0 where
    pub locked : Bool
    pub user_id : Option Str
    pub record_user_id : Option Str
    pub raw_dek : Option (List ℕ)
    pub subkeys : List (RecordType × CryptoKey)
    pub kdf_params_json : Option Str
    pub kdf_salt : Option (List ℕ)
    pub wrapped_dek : Option (List ℕ)
    pub wrapped_dek_recovery : Option (List ℕ)

  pub record PassphraseArgs : Type 0 where
    pub pass : Str
    pub user_id : Str
    pub record_user_id : Option Str
    pub kdf_salt : List ℕ
    pub kdf_params_json : Str
    pub wrapped_dek : List ℕ

  unfoldable pub initial : SessionKeys
  initial = record {
    locked = true;
    user_id = none;
    record_user_id = none;
    raw_dek = none;
    subkeys = [];
    kdf_params_json = none;
    kdf_salt = none;
    wrapped_dek = none;
    wrapped_dek_recovery = none;
  }

  -- a ?? b
  abbrev pub or_else : Option Str → Str → Str
  or_else none s = s
  or_else (some t) s = t

  -- try { off-thread } catch { in this thread }
  abbrev pub kek_or_inline : Result (Derived P) → Str → List ℕ → KdfParams → Result CryptoKey
  kek_or_inline (ok d) pass salt params = ok d.kek
  kek_or_inline (err _) pass salt params = derive_kek P pass salt params

  unfoldable pub unlock_with_passphrase :
      (worker : Bool) → PassphraseArgs → SessionKeys → Result SessionKeys
  unlock_with_passphrase worker args s = do
    params ← parse_kdf_params P args.kdf_params_json
    kek ←
        kek_or_inline (derive_kek_off_thread P worker args.pass args.kdf_salt params) args.pass
          args.kdf_salt params
    dek ← unwrap_dek P args.wrapped_dek kek args.user_id
    ok (record {
      locked = false;
      user_id = some args.user_id;
      record_user_id = some (or_else args.record_user_id args.user_id);
      raw_dek = some dek;
      subkeys = [];
      kdf_params_json = some args.kdf_params_json;
      kdf_salt = some args.kdf_salt;
      wrapped_dek = some args.wrapped_dek;
      wrapped_dek_recovery = none;
    })

  -- `recordUserId` is not among the fields that `set` is given, so it stays.
  unfoldable pub unlock_with_recovery : Str → Str → List ℕ → SessionKeys → Result SessionKeys
  unlock_with_recovery mnemonic user_id wrapped_dek_recovery s = do
    dek ← recover_dek P wrapped_dek_recovery mnemonic user_id
    ok (record s {
      locked = false;
      user_id = some user_id;
      raw_dek = some dek;
      subkeys = [];
      kdf_params_json = none;
      kdf_salt = none;
      wrapped_dek = none;
      wrapped_dek_recovery = some wrapped_dek_recovery;
    })

  pub cached_key : RecordType → List (RecordType × CryptoKey) → Option CryptoKey
  cached_key type [] = none
  cached_key type ((t, key) ∷ keys) = if same_type t type then some key else cached_key type keys

  abbrev locked_error : Fault
  locked_error = crypto_error locked (codes "keystore is locked")

  -- A call of `getSubkey` that waits for `deriveSubkey`: what it has read of the store.
  pub record PendingSubkey : Type 0 where
    pub type : RecordType
    pub dek : List ℕ
    pub subkeys : List (RecordType × CryptoKey)

  -- What `getSubkey` finds: a cached key, or one that is to be derived.
  pub data SubkeyLook : Type 0 where
    hit : CryptoKey → SubkeyLook
    derives : PendingSubkey → SubkeyLook

  abbrev pub looked_up : Option CryptoKey → List ℕ → RecordType → SessionKeys → SubkeyLook
  looked_up (some key) dek type s = hit key
  looked_up none dek type s = derives (record { type = type; dek = dek; subkeys = s.subkeys })

  abbrev pub look_of : Bool → Option (List ℕ) → RecordType → SessionKeys → Result SubkeyLook
  look_of false (some dek) type s = ok (looked_up (cached_key type s.subkeys) dek type s)
  look_of _ _ type s = err locked_error

  -- `getSubkey` up to its `await`.
  unfoldable pub begin_subkey : RecordType → SessionKeys → Result SubkeyLook
  unfolding cached_key
  begin_subkey type s = look_of s.locked s.raw_dek type s

  -- From there on: `set` puts the map that was read, with the new key, into the store as it is by then.
  unfoldable pub finish_subkey : PendingSubkey → SessionKeys → Result (CryptoKey × SessionKeys)
  finish_subkey p s = derive_subkey P p.dek p.type >>= λ key.
      ok (key, record s { subkeys = (p.type, key) ∷ p.subkeys })

  abbrev pub resume : SubkeyLook → SessionKeys → Result (CryptoKey × SessionKeys)
  resume (hit key) s = ok (key, s)
  resume (derives p) s = finish_subkey p s

  -- A call of `getSubkey` with nothing between its two parts.
  unfoldable pub get_subkey : RecordType → SessionKeys → Result (CryptoKey × SessionKeys)
  get_subkey type s = begin_subkey type s >>= λ look. resume look s

  -- The fields that `set` is given; `recordUserId` is not among them.
  unfoldable pub lock : SessionKeys → SessionKeys
  lock s = record s {
    locked = true;
    user_id = none;
    raw_dek = none;
    subkeys = [];
    kdf_params_json = none;
    kdf_salt = none;
    wrapped_dek = none;
    wrapped_dek_recovery = none;
  }

  abbrev other_user : Option Str → Str → Bool
  other_user none user_id = true
  other_user (some u) user_id = not (str_eq u user_id)

  -- `encryptRecord`; the result is the nonce, the ciphertext and the store with the subkey cached.
  unfoldable pub encrypt_record :
      (nonce : List ℕ)
      → Str
      → RecordType
      → List ℕ
      → Str
      → SessionKeys
      → Result (List ℕ × List ℕ × SessionKeys)
  encrypt_record nonce user_id type plaintext aad s = do
    throw_if (s.locked || other_user s.user_id user_id)
        (crypto_error locked (codes "keystore locked or user mismatch"))
    subkey ← get_subkey type s
    packed ← encrypt_bytes P subkey.0 nonce plaintext (P.utf8 aad)
    ok (take 12 packed, drop 12 packed, subkey.1)

  -- What `material()` gives of the store.
  pub record Material : Type 0 where
    pub kdf_salt : Option (List ℕ)
    pub kdf_params_json : Option Str
    pub wrapped_dek : Option (List ℕ)
    pub wrapped_dek_recovery : Option (List ℕ)

  abbrev pub material : SessionKeys → Material
  material s = record {
    kdf_salt = s.kdf_salt;
    kdf_params_json = s.kdf_params_json;
    wrapped_dek = s.wrapped_dek;
    wrapped_dek_recovery = s.wrapped_dek_recovery;
  }

  unfoldable pub derive_kek_bytes : Str → List ℕ → Str → Result (List ℕ)
  derive_kek_bytes pass kdf_salt kdf_params_json = do
    params ← parse_kdf_params P kdf_params_json
    argon2id_derive P pass kdf_salt params false
