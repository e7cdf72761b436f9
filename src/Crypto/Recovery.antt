-- ===== src/Crypto/Recovery.antt =====
-- web/src/crypto/recovery.ts: the recovery phrase, its key, and the indices to confirm.
pub mod Indices
pub mod Opening
use fincrypt.Prelude.{
  ℕ, not, Bool, true, false, Option, none, some, List, Str, codes, String, trim, words, join,
}
use fincrypt.Crypto.Errors.{crypto_error, invalid_phrase, Result, ok, err, throw_if, ◌>>=◌, ◌>>◌}
use fincrypt.Crypto.Platform.{Platform}
use fincrypt.Crypto.Aead.{import_aes_key}
use fincrypt.Crypto.KeyHierarchy.{
  hkdf_bits, hkdf_salt_bytes, wrap_with_recovery, unwrap_with_recovery,
}

abbrev pub recovery_info : String
recovery_info = "recovery"

-- try { return … } catch { return false }
abbrev pub or_false : Option Bool → Bool
or_false none = false
or_false (some valid) = valid

module _ (P : Platform) where
  open P use {CryptoKey, utf8, nfkd, to_lower, validate_mnemonic, mnemonic_to_seed}

  unfoldable pub normalize_phrase : Str → Str
  normalize_phrase input = join (codes " ") (words (to_lower (trim (nfkd input))))

  unfoldable pub validate_recovery_phrase : Str → Bool
  validate_recovery_phrase phrase = or_false (validate_mnemonic (normalize_phrase phrase))

  unfoldable pub derive_recovery_kek : Str → Result CryptoKey
  derive_recovery_kek mnemonic = do
    let normalized = normalize_phrase mnemonic
    throw_if (not (validate_recovery_phrase normalized))
        (crypto_error invalid_phrase (codes "invalid recovery phrase"))
    bits ←
        hkdf_bits P (mnemonic_to_seed normalized) (hkdf_salt_bytes P) (utf8 (codes recovery_info))
          256
    import_aes_key P bits

  unfoldable pub wrap_dek_with_recovery : List ℕ → List ℕ → Str → Str → Result (List ℕ)
  wrap_dek_with_recovery nonce dek mnemonic user_id = do
    kek ← derive_recovery_kek mnemonic
    wrap_with_recovery P nonce dek kek user_id

  unfoldable pub recover_dek : List ℕ → Str → Str → Result (List ℕ)
  recover_dek wrapped_recovery mnemonic user_id = do
    kek ← derive_recovery_kek mnemonic
    unwrap_with_recovery P wrapped_recovery kek user_id
