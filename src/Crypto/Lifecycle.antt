-- ===== src/Crypto/Lifecycle.antt =====
-- web/src/crypto/lifecycle.ts: the passphrase change, recovery, and the change of the phrase. The
-- salt and the nonces that the code draws are arguments; `zeroize` of the key bytes leaves no trace
-- in what is returned.
pub mod Change
pub mod Rotate
use fincrypt.Crypto.Json.{json_parse}
use fincrypt.Prelude.{
  ℕ, not, Bool, false, Option, none, some, List, Str, codes, length, ltb, ◌==◌, str_eq, ℤ, pos,
}
use fincrypt.Prelude.Json.{Json, int}
use fincrypt.Crypto.Errors.{
  Fault, Result, ok, err, wrap_error, invalid_params_error, throw_if, ◌>>=◌, ◌>>◌,
}
use fincrypt.Crypto.Platform.{Platform}
use fincrypt.Crypto.KeyHierarchy.{wrap_dek, unwrap_dek, wrap_with_recovery}
use fincrypt.Crypto.Kdf.{
  KdfParams, default_kdf_params, serialize_kdf_params, property, argon2id_derive, import_kek,
}
use fincrypt.Crypto.Recovery.{derive_recovery_kek, recover_dek}

pub record PassphraseChangeResult : Type 0 where
  pub kdf_salt : List ℕ
  pub kdf_params : Str
  pub wrapped_dek : List ℕ
  pub wrapped_dek_recovery : List ℕ

pub record ChangePassphraseArgs : Type 0 where
  pub old_pass : Str
  pub new_pass : Str
  pub user_id : Str
  pub kdf_salt : List ℕ
  pub kdf_params_json : Str
  pub wrapped_dek : List ℕ
  pub wrapped_dek_recovery : List ℕ

pub record RotateRecoveryArgs : Type 0 where
  pub old_mnemonic : Str
  pub new_mnemonic : Str
  pub user_id : Str
  pub wrapped_dek_recovery : List ℕ

-- A cost that hash-wasm takes; anything but a natural number it throws at.
abbrev pub natural_or : Fault → Option Json → Result ℕ
natural_or rejects (some (int (pos n))) = ok n
natural_or rejects _ = err rejects

-- The costs as they stand in the stored text, which nothing has checked.
pub record StoredCosts : Type 0 where
  pub m : Option Json
  pub t : Option Json
  pub p : Option Json

module _ (P : Platform) where
  open P use {CryptoKey, argon2id_rejects}

  -- `oldKekParams`. Neither `alg` nor `version` nor the range is looked at.
  unfoldable pub old_kek_params : Json → Result StoredCosts
  old_kek_params v = do
    m ← property (codes "m") v
    t ← property (codes "t") v
    p ← property (codes "p") v
    ok (record { m = m; t = t; p = p })

  -- `argon2idDerive` with them: the length of the salt is looked at before hash-wasm sees a cost.
  unfoldable pub derive_stored : Str → List ℕ → StoredCosts → Result (List ℕ)
  derive_stored pass salt costs = do
    throw_if (ltb (length salt) 16)
        (invalid_params_error (codes "kdf: salt must be at least 16 bytes"))
    m ← natural_or argon2id_rejects costs.m
    t ← natural_or argon2id_rejects costs.t
    p ← natural_or argon2id_rejects costs.p
    argon2id_derive P pass salt (record { m = m; t = t; p = p }) false

  -- The key of the old passphrase.
  unfoldable pub old_kek : ChangePassphraseArgs → Result CryptoKey
  old_kek args = do
    v ← json_parse args.kdf_params_json
    costs ← old_kek_params v
    bytes ← derive_stored args.old_pass args.kdf_salt costs
    import_kek P bytes

  -- The key of the new passphrase.
  unfoldable pub new_kek : List ℕ → Str → Result CryptoKey
  new_kek new_salt new_pass = do
    bytes ← argon2id_derive P new_pass new_salt default_kdf_params false
    import_kek P bytes

  unfoldable pub change_passphrase :
      (new_salt nonce nonce' : List ℕ) → ChangePassphraseArgs → Result PassphraseChangeResult
  change_passphrase new_salt nonce nonce' args = do
    throw_if (str_eq args.new_pass args.old_pass)
        (wrap_error (codes "new passphrase must differ from the old one"))
    throw_if (length args.new_pass == 0) (wrap_error (codes "new passphrase must not be empty"))
    kek ← old_kek args
    dek ← unwrap_dek P args.wrapped_dek kek args.user_id
    kek' ← new_kek new_salt args.new_pass
    wrapped ← wrap_dek P nonce dek kek' args.user_id
    wrapped_recovery ← wrap_with_recovery P nonce' dek kek' args.user_id
    ok (record {
      kdf_salt = new_salt;
      kdf_params = serialize_kdf_params default_kdf_params;
      wrapped_dek = wrapped;
      wrapped_dek_recovery = wrapped_recovery;
    })

  abbrev pub recover_with_mnemonic : Str → Str → List ℕ → Result (List ℕ)
  recover_with_mnemonic mnemonic user_id wrapped_dek_recovery =
      recover_dek P wrapped_dek_recovery mnemonic user_id

  unfoldable pub rotate_recovery : List ℕ → RotateRecoveryArgs → Result (List ℕ)
  rotate_recovery nonce args = do
    dek ← recover_dek P args.wrapped_dek_recovery args.old_mnemonic args.user_id
    kek ← derive_recovery_kek P args.new_mnemonic
    wrap_with_recovery P nonce dek kek args.user_id
