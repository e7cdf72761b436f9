-- ===== src/Crypto/KeyHierarchy/Wrong.antt =====
-- web/src/crypto/keyHierarchy.ts.
-- Wraps that are opened with what they were not made for.
use fincrypt.Prelude.{ℕ, ◌≡◌, ◌≢◌, ◌⊎◌, inl, inr, List, Str, codes, length, true, is_well_formed}
use fincrypt.Crypto.Errors.{ok, err, wrap_error}
use fincrypt.Crypto.Platform.{Platform, IsBinding}
use fincrypt.Crypto.KeyHierarchy.{WrapKind, wrap_as, unwrap_as, wrap_aad}
use fincrypt.Crypto.KeyHierarchy.Wraps.{unwrap_as_other_aad}
use fincrypt.Crypto.KeyHierarchy.Separation.{wrap_aad_injective}

module _ (P : Platform) where
  open P use {CryptoKey}

  -- What differs is the key or the additional data.
  other_key_or_aad :
      (kek kek' : CryptoKey) (kind kind' : WrapKind) (user user' : Str)
      → is_well_formed user ≡ true
      → is_well_formed user' ≡ true
      → (kek ≢ kek') ⊎ ((user ≢ user') ⊎ (kind ≢ kind'))
      → (kek ≢ kek') ⊎ (wrap_aad P user kind ≢ wrap_aad P user' kind')
  other_key_or_aad kek kek' kind kind' user user' h h' (inl keys) = inl keys
  other_key_or_aad kek kek' kind kind' user user' h h' (inr (inl users)) =
      inr (λ same. users (wrap_aad_injective P user user' kind kind' h h' same).0)
  other_key_or_aad kek kek' kind kind' user user' h h' (inr (inr kinds)) =
      inr (λ same. kinds (wrap_aad_injective P user user' kind kind' h h' same).1)

  -- Where ciphertexts bind their key and additional data, and neither user id holds a lone surrogate, a
  -- wrap that was made with a nonce of 12 bytes does not open under another key, as another user's or
  -- as the other kind: the unwrap throws the one `WrapError`.
  pub unwrap_as_wrong :
      IsBinding P
      → (kind kind' : WrapKind) (nonce dek w : List ℕ) (kek kek' : CryptoKey) (user user' : Str)
      → length nonce ≡ 12
      → wrap_as P kind nonce dek kek user ≡ ok w
      → is_well_formed user ≡ true
      → is_well_formed user' ≡ true
      → (kek ≢ kek') ⊎ ((user ≢ user') ⊎ (kind ≢ kind'))
      → unwrap_as P kind' w kek' user' ≡ err (wrap_error (codes "unwrap failed"))
  unwrap_as_wrong binding kind kind' nonce dek w kek kek' user user' fits h wu wu' other =
      unwrap_as_other_aad P binding kind kind' nonce dek w kek kek' user user' fits h
        (other_key_or_aad kek kek' kind kind' user user' wu wu' other)
