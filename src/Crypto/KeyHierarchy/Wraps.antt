-- ===== src/Crypto/KeyHierarchy/Wraps.antt =====
-- web/src/crypto/keyHierarchy.ts.
-- Wrapping the data key and opening the wrap.
use fincrypt.Prelude.{
  Bool-cases, ◌==◌, refl, ℕ, ◌<◌, ◌≡◌, ◌≢◌, ◌⊎◌, inl, inr, List, ◌++◌, arith, Str, codes, length,
}
use fincrypt.Crypto.Errors.{
  crypto_error, plain_error, wrap_failed, ◌>>=◌, Result, ok, err, wrap_error,
}
use fincrypt.Crypto.Platform.{Platform, IsBinding}
use fincrypt.Crypto.Aead.{encrypt_bytes, decrypt_bytes}
use fincrypt.Crypto.Aead.Opening.{
  length-encrypt_bytes, decrypt_bytes-encrypt_bytes, decrypt_bytes_wrong, encrypt_bytes-eq_ok,
}
use fincrypt.Crypto.KeyHierarchy.{
  checked_dek, WrapKind, wrap_aad_text, wrap_aad, wrap_as, unwrap_as, rethrow_as_wrap_error,
}

rethrown_outcomes :
    (r : Result (List ℕ))
    → ((dek : List ℕ) × (rethrow_as_wrap_error (r >>= checked_dek) ≡ ok dek) × (length dek ≡ 32))
      ⊎ ((message : Str) × (rethrow_as_wrap_error (r >>= checked_dek) ≡ err (wrap_error message)))
rethrown_outcomes (ok dek) = elim (Bool-cases (length dek == 32)) [
  | inl fits ↦ inl (dek, ground arith, ground arith)
  | inr other ↦ inr (codes "unwrapped DEK has wrong length", ground arith)
]
rethrown_outcomes (err (crypto_error wrap_failed message)) = inr (message, refl)
rethrown_outcomes (err (crypto_error _ _)) = inr (codes "unwrap failed", refl)
rethrown_outcomes (err (plain_error _)) = inr (codes "unwrap failed", refl)

module _ (P : Platform) where
  open P use {CryptoKey, utf8_nonempty, gcm_seal}

  wrap_aad_nonempty : (user : Str) (kind : WrapKind) → 0 < length (wrap_aad P user kind)
  wrap_aad_nonempty user kind = utf8_nonempty (wrap_aad_text user kind) (omega arith)

  wrap_as-inverse :
      (kind : WrapKind) (nonce dek w : List ℕ) (kek : CryptoKey) (user : Str)
      → wrap_as P kind nonce dek kek user ≡ ok w
      → (length dek ≡ 32)
        × (0 < length user)
        × (encrypt_bytes P kek nonce dek (wrap_aad P user kind) ≡ ok w)
  unfolding wrap_as
  wrap_as-inverse kind nonce dek w kek user h = ground arith

  -- A wrap is made exactly of a 32-byte key for a user that is not empty.
  pub wrap_as-eq_ok :
      (kind : WrapKind) (nonce dek : List ℕ) (kek : CryptoKey) (user : Str)
      → length dek ≡ 32
      → 0 < length user
      → wrap_as P kind nonce dek kek user
        ≡ ok (nonce ++ gcm_seal kek nonce (wrap_aad P user kind) dek)
  unfolding wrap_as
  wrap_as-eq_ok kind nonce dek kek user fits named = ground (
    arith,
    encrypt_bytes-eq_ok P kek nonce dek (wrap_aad P user kind) (wrap_aad_nonempty user kind),
  )

  pub length-wrap_as :
      (kind : WrapKind) (nonce dek w : List ℕ) (kek : CryptoKey) (user : Str)
      → length nonce ≡ 12
      → wrap_as P kind nonce dek kek user ≡ ok w
      → length w ≡ 60
  length-wrap_as kind nonce dek w kek user fits h =
      let (size, _, sealed) = wrap_as-inverse kind nonce dek w kek user h in
      omega (arith, length-encrypt_bytes P kek nonce dek (wrap_aad P user kind) w fits sealed)

  -- A wrap is 60 bytes, and opens under the same key, user and kind to the key that was wrapped.
  pub unwrap_as-wrap_as :
      (kind : WrapKind) (nonce dek w : List ℕ) (kek : CryptoKey) (user : Str)
      → length nonce ≡ 12
      → wrap_as P kind nonce dek kek user ≡ ok w
      → (length w ≡ 60) × (unwrap_as P kind w kek user ≡ ok dek)
  unfolding unwrap_as
  unwrap_as-wrap_as kind nonce dek w kek user fits h =
      let (size, _, sealed) = wrap_as-inverse kind nonce dek w kek user h in
      let opens =
        decrypt_bytes-encrypt_bytes P kek nonce dek (wrap_aad P user kind) w fits sealed in
      let sixty = length-wrap_as kind nonce dek w kek user fits h in (sixty, ground arith)

  -- Whatever the bytes, the key and the user, an unwrap returns a key of 32 bytes or throws a
  -- `WrapError`, never another error.
  pub unwrap_as_outcomes :
      (kind : WrapKind) (w : List ℕ) (kek : CryptoKey) (user : Str)
      → ((dek : List ℕ) × (unwrap_as P kind w kek user ≡ ok dek) × (length dek ≡ 32))
        ⊎ ((message : Str) × (unwrap_as P kind w kek user ≡ err (wrap_error message)))
  unfolding unwrap_as
  unwrap_as_outcomes kind w kek user = elim (Bool-cases (length w == 60)) [
    | inl sixty ↦ rw sixty (rethrown_outcomes (decrypt_bytes P kek w (wrap_aad P user kind)))
    | inr other ↦ inr (codes "wrapped DEK must be 60 bytes", ground arith)
  ]

  pub unwrap_as_other_aad :
      IsBinding P
      → (kind kind' : WrapKind) (nonce dek w : List ℕ) (kek kek' : CryptoKey) (user user' : Str)
      → length nonce ≡ 12
      → wrap_as P kind nonce dek kek user ≡ ok w
      → (kek ≢ kek') ⊎ (wrap_aad P user kind ≢ wrap_aad P user' kind')
      → unwrap_as P kind' w kek' user' ≡ err (wrap_error (codes "unwrap failed"))
  unfolding unwrap_as
  unwrap_as_other_aad binding kind kind' nonce dek w kek kek' user user' fits h other =
      let (size, _, sealed) = wrap_as-inverse kind nonce dek w kek user h in
      let closed =
        decrypt_bytes_wrong P binding kek kek' nonce dek (wrap_aad P user kind)
          (wrap_aad P user' kind') w fits sealed (wrap_aad_nonempty user' kind') other in
      let sixty = length-wrap_as kind nonce dek w kek user fits h in ground arith
