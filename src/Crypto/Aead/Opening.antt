-- ===== src/Crypto/Aead/Opening.antt =====
-- web/src/crypto/aead.ts.
-- What `decryptBytes` does with what `encryptBytes` made, and with anything else.
use fincrypt.Prelude.{
  Bool-cases, ℕ, ◌+◌, ◌<◌, ◌≡◌, ◌≢◌, Option-cases, inl, inr, none, List, ◌++◌, arith, length, take,
  drop, length-append, take-append, drop-append, ◌⊎◌,
}
use fincrypt.Crypto.Errors.{ok, err, decrypt_error}
use fincrypt.Crypto.Platform.{Platform, IsBinding}
use fincrypt.Crypto.Aead.{leb, encrypt_bytes, decrypt_bytes, opened_or_throw}

module _ (P : Platform) where
  open P use {CryptoKey, gcm_seal, gcm_open, length-gcm_seal, gcm_open-gcm_seal, gcm_open_sound}

  -- With additional data, `encryptBytes` returns the nonce and the sealed text: 28 bytes more.
  pub length-encrypt_bytes :
      (key : CryptoKey) (nonce plaintext aad packed : List ℕ)
      → length nonce ≡ 12
      → encrypt_bytes P key nonce plaintext aad ≡ ok packed
      → length packed ≡ length plaintext + 28
  unfolding encrypt_bytes
  length-encrypt_bytes key nonce plaintext aad packed fits h = ground (
    arith,
    length-append nonce (gcm_seal key nonce aad plaintext),
    length-gcm_seal key nonce aad plaintext,
  )

  pub encrypt_bytes-eq_ok :
      (key : CryptoKey) (nonce plaintext aad : List ℕ)
      → 0 < length aad
      → encrypt_bytes P key nonce plaintext aad ≡ ok (nonce ++ gcm_seal key nonce aad plaintext)
  unfolding encrypt_bytes
  encrypt_bytes-eq_ok key nonce plaintext aad h = ground arith

  pub decrypt_bytes-packed :
      (key key' : CryptoKey) (nonce plaintext aad aad' : List ℕ)
      → length nonce ≡ 12
      → 0 < length aad'
      → decrypt_bytes P key' (nonce ++ gcm_seal key nonce aad plaintext) aad'
        ≡ opened_or_throw (gcm_open key' nonce aad' (gcm_seal key nonce aad plaintext))
  unfolding decrypt_bytes
  decrypt_bytes-packed key key' nonce plaintext aad aad' fits some_aad =
      rw (take-append 12 nonce (gcm_seal key nonce aad plaintext) fits) (
        rw (drop-append 12 nonce (gcm_seal key nonce aad plaintext) fits) (
          ground (
            arith,
            length-append nonce (gcm_seal key nonce aad plaintext),
            length-gcm_seal key nonce aad plaintext,
          )))

  -- Under one key and one non-empty additional data, `decryptBytes` of what `encryptBytes` returns
  -- is the plaintext.
  pub decrypt_bytes-encrypt_bytes :
      (key : CryptoKey) (nonce plaintext aad packed : List ℕ)
      → length nonce ≡ 12
      → encrypt_bytes P key nonce plaintext aad ≡ ok packed
      → decrypt_bytes P key packed aad ≡ ok plaintext
  unfolding encrypt_bytes
  decrypt_bytes-encrypt_bytes key nonce plaintext aad packed fits h = ground (
    arith,
    decrypt_bytes-packed key key nonce plaintext aad aad,
    gcm_open-gcm_seal key nonce aad plaintext,
  )

  open_wrong :
      IsBinding P
      → (key key' : CryptoKey) (nonce plaintext aad aad' : List ℕ) → (key ≢ key') ⊎ (aad ≢ aad')
      → gcm_open key' nonce aad' (gcm_seal key nonce aad plaintext) ≡ none
  open_wrong binding key key' nonce plaintext aad aad' other =
      elim (Option-cases (gcm_open key' nonce aad' (gcm_seal key nonce aad plaintext))) [
        | inl closed ↦ closed
        | inr (text, opens) ↦
            let same = gcm_open_sound key' nonce aad' _ text opens in
            absurd (elim other [
              | inl keys ↦ keys (binding.same_key key key' nonce aad aad' plaintext text same)
              | inr aads ↦ aads (binding.same_aad key key' nonce aad aad' plaintext text same)
            ])
      ]

  -- Where ciphertexts bind their key and additional data, `decryptBytes` under another key or
  -- another additional data throws the one `DecryptError`.
  pub decrypt_bytes_wrong :
      IsBinding P
      → (key key' : CryptoKey) (nonce plaintext aad aad' packed : List ℕ) → length nonce ≡ 12
      → encrypt_bytes P key nonce plaintext aad ≡ ok packed
      → 0 < length aad'
      → (key ≢ key') ⊎ (aad ≢ aad')
      → decrypt_bytes P key' packed aad' ≡ err decrypt_error
  unfolding encrypt_bytes
  decrypt_bytes_wrong binding key key' nonce plaintext aad aad' packed fits h some_aad other =
      ground (
        arith,
        decrypt_bytes-packed key key' nonce plaintext aad aad',
        open_wrong binding key key' nonce plaintext aad aad' other,
      )

  -- No oracle: with additional data every failure of `decryptBytes`, on whatever bytes, is the one
  -- `DecryptError`; and what it returns was sealed under this key, nonce and additional data.
  pub decrypt_bytes_outcomes :
      (key : CryptoKey) (packed aad : List ℕ)
      → 0 < length aad
      → (decrypt_bytes P key packed aad ≡ err decrypt_error)
        ⊎ ((plaintext : List ℕ) × (decrypt_bytes P key packed aad ≡ ok plaintext)
            × (drop 12 packed ≡ gcm_seal key (take 12 packed) aad plaintext))
  unfolding decrypt_bytes
  decrypt_bytes_outcomes key packed aad some_aad =
      elim (Option-cases (gcm_open key (take 12 packed) aad (drop 12 packed))) [
        | inl closed ↦ inl (ground arith)
        | inr (text, opens) ↦ elim (Bool-cases (leb (length packed) 12)) [
          | inl short ↦ inl (ground arith)
          | inr long ↦ inr (text, ground arith, gcm_open_sound key _ aad _ text opens)
        ]
      ]
