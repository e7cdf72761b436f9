-- ===== src/Crypto/KeyHierarchy.antt =====
-- web/src/crypto/keyHierarchy.ts: subkeys by HKDF, and the wraps of the data key. The nonce of a
-- wrap is an argument; it is drawn in `encryptBytes`.
pub mod Wraps
pub mod Separation
pub mod Wrong
use fincrypt.Prelude.{
  ℕ, ◌*◌, ◌/◌, ◌%◌, ◌||◌, not, List, ◌++◌, Str, codes, String, length, ltb, leb, ◌==◌,
  if◌then◌else◌,
}
use fincrypt.Crypto.Errors.{
  Fault, crypto_error, plain_error, wrap_failed, Result, ok, err, wrap_error, throw_if, ◌>>=◌, ◌>>◌,
}
use fincrypt.Crypto.Platform.{Platform}
use fincrypt.Crypto.Aead.{RecordType, type_name, encrypt_bytes, decrypt_bytes, import_aes_key}

abbrev pub dek_bytes : ℕ
dek_bytes = 32

abbrev pub hkdf_salt_label : String
hkdf_salt_label = "fincrypt/v1/hkdf"

-- The `kind` of a wrap.
pub data WrapKind : Type 0 where
  wrapped_dek wrapped_dek_recovery : WrapKind

abbrev pub kind_name : WrapKind → Str
kind_name wrapped_dek = codes "wrapped-dek"
kind_name wrapped_dek_recovery = codes "wrapped-dek-recovery"

-- `v1|${userId}|${kind}`; the id is not searched for a bar here
abbrev pub wrap_aad_text : Str → WrapKind → Str
wrap_aad_text user_id kind = codes "v1|" ++ (user_id ++ (codes "|" ++ kind_name kind))

-- The handler of `unwrapDek` and `unwrapWithRecovery`: a `WrapError` goes on, all else becomes one.
abbrev pub rethrow_as_wrap_error : Result (List ℕ) → Result (List ℕ)
rethrow_as_wrap_error (ok dek) = ok dek
rethrow_as_wrap_error (err (crypto_error wrap_failed message)) = err (wrap_error message)
rethrow_as_wrap_error (err e) = err (wrap_error (codes "unwrap failed"))

abbrev pub checked_dek : List ℕ → Result (List ℕ)
checked_dek dek = do
  throw_if (not (length dek == dek_bytes)) (wrap_error (codes "unwrapped DEK has wrong length"))
  ok dek

module _ (P : Platform) where
  open P use {CryptoKey, utf8, hkdf_sha256}

  unfoldable pub hkdf_bits : List ℕ → List ℕ → List ℕ → ℕ → Result (List ℕ)
  hkdf_bits ikm salt info bits = do
    throw_if (not (bits % 8 == 0) || (leb bits 0 || ltb (255 * 32) bits))
        (wrap_error (codes "hkdf: invalid bit length"))
    ok (hkdf_sha256 ikm salt info (bits / 8))

  abbrev pub hkdf_salt_bytes : List ℕ
  hkdf_salt_bytes = utf8 (codes hkdf_salt_label)

  unfoldable pub derive_subkey : List ℕ → RecordType → Result CryptoKey
  derive_subkey dek type = do
    bits ← hkdf_bits dek hkdf_salt_bytes (utf8 (type_name type)) 256
    import_aes_key P bits

  abbrev pub wrap_aad : Str → WrapKind → List ℕ
  wrap_aad user_id kind = utf8 (wrap_aad_text user_id kind)

  -- `wrapDek` and `wrapWithRecovery` differ in the kind alone.
  unfoldable pub wrap_as : WrapKind → List ℕ → List ℕ → CryptoKey → Str → Result (List ℕ)
  wrap_as kind nonce dek kek user_id = do
    throw_if (not (length dek == dek_bytes)) (wrap_error (codes "DEK must be 32 bytes"))
    throw_if (length user_id == 0) (wrap_error (codes "userId required for wrap AAD"))
    encrypt_bytes P kek nonce dek (wrap_aad user_id kind)

  unfoldable pub unwrap_as : WrapKind → List ℕ → CryptoKey → Str → Result (List ℕ)
  unwrap_as kind w kek user_id = do
    throw_if (not (length w == 60)) (wrap_error (codes "wrapped DEK must be 60 bytes"))
    rethrow_as_wrap_error (decrypt_bytes P kek w (wrap_aad user_id kind) >>= checked_dek)

  -- The calls by name.
  unfoldable pub wrap_dek : List ℕ → List ℕ → CryptoKey → Str → Result (List ℕ)
  unfolding wrap_as
  wrap_dek = wrap_as wrapped_dek

  unfoldable pub unwrap_dek : List ℕ → CryptoKey → Str → Result (List ℕ)
  unfolding unwrap_as
  unwrap_dek = unwrap_as wrapped_dek

  unfoldable pub wrap_with_recovery : List ℕ → List ℕ → CryptoKey → Str → Result (List ℕ)
  unfolding wrap_as
  wrap_with_recovery = wrap_as wrapped_dek_recovery

  unfoldable pub unwrap_with_recovery : List ℕ → CryptoKey → Str → Result (List ℕ)
  unfolding unwrap_as
  unwrap_with_recovery = unwrap_as wrapped_dek_recovery
