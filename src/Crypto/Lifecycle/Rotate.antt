-- ===== src/Crypto/Lifecycle/Rotate.antt =====
-- web/src/crypto/lifecycle.ts.
-- What a change of the recovery phrase does.
use fincrypt.Prelude.{ℕ, ◌≡◌, ◌≢◌, inl, List, Str, codes, length}
use fincrypt.Crypto.Errors.{ok, err, wrap_error, >>=-eq_ok}
use fincrypt.Crypto.Platform.{Platform, IsBinding}
use fincrypt.Crypto.KeyHierarchy.{wrapped_dek_recovery, wrap_with_recovery, unwrap_with_recovery}
use fincrypt.Crypto.KeyHierarchy.Wraps.{unwrap_as-wrap_as, unwrap_as_other_aad}
use fincrypt.Crypto.Recovery.{derive_recovery_kek, recover_dek}
use fincrypt.Crypto.Lifecycle.{RotateRecoveryArgs, rotate_recovery}

module _ (P : Platform) where
  -- After a rotation that succeeds, the new phrase recovers the key that the old one recovered; and,
  -- where ciphertexts bind their key, a phrase that derives another key than the new one, such as the
  -- old phrase, recovers nothing: the call throws a `WrapError`.
  pub rotate_recovery_lem :
      IsBinding P
      → (nonce w : List ℕ) (args : RotateRecoveryArgs) (mnemonic : Str) (kek kek' : P.CryptoKey)
      → length nonce ≡ 12
      → rotate_recovery P nonce args ≡ ok w
      → derive_recovery_kek P args.new_mnemonic ≡ ok kek
      → derive_recovery_kek P mnemonic ≡ ok kek'
      → kek ≢ kek'
      → (recover_dek P w args.new_mnemonic args.user_id
          ≡ recover_dek P args.wrapped_dek_recovery args.old_mnemonic args.user_id)
        × (recover_dek P w mnemonic args.user_id ≡ err (wrap_error (codes "unwrap failed")))
  unfolding rotate_recovery
  rotate_recovery_lem binding nonce w args mnemonic kek kek' fits h new derived' other =
      let (dek, opened, h₁) =
        >>=-eq_ok (recover_dek P args.wrapped_dek_recovery args.old_mnemonic args.user_id) _ h in
      let wrapped = rw new at h₁ in
      (
        rw opened (
            unfold recover_dek wrap_with_recovery unwrap_with_recovery in
            rw new
              (unwrap_as-wrap_as P wrapped_dek_recovery nonce dek w kek args.user_id fits
                wrapped).1),
        unfold recover_dek wrap_with_recovery unwrap_with_recovery in
            rw derived' (
              unwrap_as_other_aad P binding wrapped_dek_recovery wrapped_dek_recovery nonce dek w
                kek kek' args.user_id args.user_id fits wrapped (inl other)),
      )
