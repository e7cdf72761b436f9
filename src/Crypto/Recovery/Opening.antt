-- ===== src/Crypto/Recovery/Opening.antt =====
-- web/src/crypto/recovery.ts.
-- What the recovery wrap opens with.
use fincrypt.Prelude.{
  ap, ◌∙◌, inr, ◌⊎◌, true, is_well_formed, ℕ, ◌≡◌, ◌≢◌, inl, List, Str, codes, length,
}
use fincrypt.Crypto.KeyHierarchy.Separation.{wrap_aad_injective}
use fincrypt.Crypto.Errors.{>>=-eq_ok, ok, err, wrap_error}
use fincrypt.Crypto.Platform.{Platform, IsBinding}
use fincrypt.Crypto.KeyHierarchy.{wrapped_dek_recovery, wrap_with_recovery, unwrap_with_recovery}
use fincrypt.Crypto.KeyHierarchy.Wraps.{unwrap_as-wrap_as, unwrap_as_other_aad}
use fincrypt.Crypto.Recovery.{derive_recovery_kek, wrap_dek_with_recovery, recover_dek}

module _ (P : Platform) where
  -- The phrase under which a key was wrapped recovers that key for the same user.
  pub recover_dek-wrap_dek_with_recovery :
      (nonce dek w : List ℕ) (mnemonic user : Str)
      → length nonce ≡ 12
      → wrap_dek_with_recovery P nonce dek mnemonic user ≡ ok w
      → recover_dek P w mnemonic user ≡ ok dek
  unfolding wrap_dek_with_recovery recover_dek
  recover_dek-wrap_dek_with_recovery nonce dek w mnemonic user fits h =
      let (kek, derived, wrapped) = >>=-eq_ok (derive_recovery_kek P mnemonic) _ h in
      rw derived (
        unfold wrap_with_recovery unwrap_with_recovery in
        (unwrap_as-wrap_as P wrapped_dek_recovery nonce dek w kek user fits wrapped).1)

  -- Where ciphertexts bind their key and additional data, the wrap opens with no phrase that derives
  -- another key and for no other user: the call throws the one `WrapError`. User ids hold no lone
  -- surrogate.
  pub recover_dek_wrong :
      IsBinding P
      → (nonce dek w : List ℕ) (mnemonic mnemonic' user user' : Str) (kek' : P.CryptoKey)
      → is_well_formed user ≡ true
      → is_well_formed user' ≡ true
      → length nonce ≡ 12
      → wrap_dek_with_recovery P nonce dek mnemonic user ≡ ok w
      → derive_recovery_kek P mnemonic' ≡ ok kek'
      → (derive_recovery_kek P mnemonic ≢ ok kek') ⊎ (user ≢ user')
      → recover_dek P w mnemonic' user' ≡ err (wrap_error (codes "unwrap failed"))
  unfolding wrap_dek_with_recovery recover_dek
  recover_dek_wrong binding nonce dek w mnemonic mnemonic' user user' kek' wu wu' fits h derived'
        other =
      let (kek, derived, wrapped) = >>=-eq_ok (derive_recovery_kek P mnemonic) _ h in
      rw derived' (
        unfold wrap_with_recovery unwrap_with_recovery in
        (unwrap_as_other_aad P binding wrapped_dek_recovery wrapped_dek_recovery nonce dek w kek
          kek' user user' fits wrapped
          (elim other [
            | inl keys ↦ inl (λ e. keys (derived ∙ ap ok e))
            | inr users ↦ inr (λ e.
                users
                  (wrap_aad_injective P user user' wrapped_dek_recovery wrapped_dek_recovery wu wu'
                    e).0)
          ])))
