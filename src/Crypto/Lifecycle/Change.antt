-- ===== src/Crypto/Lifecycle/Change.antt =====
-- web/src/crypto/lifecycle.ts.
-- What a change of the passphrase keeps and what it loses.
use fincrypt.Prelude.{
  sym, arith, str_eq, ◌==◌, ℕ, ◌≡◌, ◌≢◌, inl, ap, ◌∙◌, subst, List, Str, codes, length,
}
use fincrypt.Crypto.Errors.{throw_if, ok, err, wrap_error, >>=-eq_ok}
use fincrypt.Crypto.Platform.{Platform, IsBinding}
use fincrypt.Crypto.KeyHierarchy.{
  wrapped_dek, wrapped_dek_recovery, wrap_dek, unwrap_dek, wrap_with_recovery, unwrap_with_recovery,
}
use fincrypt.Crypto.KeyHierarchy.Wraps.{unwrap_as-wrap_as, unwrap_as_other_aad}
use fincrypt.Crypto.Recovery.{derive_recovery_kek, recover_dek}
use fincrypt.Crypto.Lifecycle.{
  default_kdf_params, serialize_kdf_params, PassphraseChangeResult, ChangePassphraseArgs, old_kek,
  new_kek, change_passphrase,
}

result_fields :
    (salt : List ℕ) (params : Str) (w w' : List ℕ) (r : PassphraseChangeResult)
    → ok (record {
      kdf_salt = salt;
      kdf_params = params;
      wrapped_dek = w;
      wrapped_dek_recovery = w';
    })
      ≡ ok r
    → (salt ≡ r.kdf_salt) × (w ≡ r.wrapped_dek) × (w' ≡ r.wrapped_dek_recovery)
result_fields salt params w w' r h = ground arith

module _ (P : Platform) where
  open P use {CryptoKey}

  -- The keys and wraps behind a result.
  pub record Changed (salt nonce nonce' : List ℕ) (args : ChangePassphraseArgs)
      (r : PassphraseChangeResult) : Type 0 where
    pub kek : CryptoKey
    pub dek : List ℕ
    pub kek' : CryptoKey
    pub old_derived : old_kek P args ≡ ok kek
    pub old_opens : unwrap_dek P args.wrapped_dek kek args.user_id ≡ ok dek
    pub new_derived : new_kek P salt args.new_pass ≡ ok kek'
    pub wraps : wrap_dek P nonce dek kek' args.user_id ≡ ok r.wrapped_dek
    pub wraps_recovery :
        wrap_with_recovery P nonce' dek kek' args.user_id ≡ ok r.wrapped_dek_recovery
    pub same_salt : r.kdf_salt ≡ salt

  Changed-of_ok :
      (salt nonce nonce' : List ℕ) (args : ChangePassphraseArgs) (r : PassphraseChangeResult)
      → change_passphrase P salt nonce nonce' args ≡ ok r
      → Changed salt nonce nonce' args r
  unfolding change_passphrase
  Changed-of_ok salt nonce nonce' args r h =
      let (_, _, h₁) =
        >>=-eq_ok
          (throw_if (str_eq args.new_pass args.old_pass)
            (wrap_error (codes "new passphrase must differ from the old one")))
          _ h in
      let (_, _, h₂) =
        >>=-eq_ok
          (throw_if (length args.new_pass == 0)
            (wrap_error (codes "new passphrase must not be empty")))
          _ h₁ in
      let (kek, derived, h₃) = >>=-eq_ok (old_kek P args) _ h₂ in
      let (dek, opens, h₄) = >>=-eq_ok (unwrap_dek P args.wrapped_dek kek args.user_id) _ h₃ in
      let (kek', derived', h₅) = >>=-eq_ok (new_kek P salt args.new_pass) _ h₄ in
      let (w, wrapped, h₆) = >>=-eq_ok (wrap_dek P nonce dek kek' args.user_id) _ h₅ in
      let (w', wrapped', h₇) = >>=-eq_ok (wrap_with_recovery P nonce' dek kek' args.user_id) _ h₆ in
      let params = serialize_kdf_params default_kdf_params in
      record {
        kek = kek;
        dek = dek;
        kek' = kek';
        old_derived = derived;
        old_opens = opens;
        new_derived = derived';
        wraps = wrapped ∙ ap ok (result_fields salt params w w' r h₇).1;
        wraps_recovery = wrapped' ∙ ap ok (result_fields salt params w w' r h₇).2;
        same_salt = sym (result_fields salt params w w' r h₇).0;
      }

  -- After a change that succeeds, the new passphrase with the salt of the result opens the new wrap
  -- to the key that the old passphrase opened.
  pub change_passphrase-opens :
      (salt nonce nonce' : List ℕ) (args : ChangePassphraseArgs) (r : PassphraseChangeResult)
      → length nonce ≡ 12
      → change_passphrase P salt nonce nonce' args ≡ ok r
      → (kek : CryptoKey) × (kek' : CryptoKey) × (dek : List ℕ) × (old_kek P args ≡ ok kek)
        × (unwrap_dek P args.wrapped_dek kek args.user_id ≡ ok dek)
        × (new_kek P r.kdf_salt args.new_pass ≡ ok kek')
        × (unwrap_dek P r.wrapped_dek kek' args.user_id ≡ ok dek)
  change_passphrase-opens salt nonce nonce' args r fits h =
      let c = Changed-of_ok salt nonce nonce' args r h in
      (
        c.kek,
        c.kek',
        c.dek,
        c.old_derived,
        c.old_opens,
        ap (λ s. new_kek P s args.new_pass) c.same_salt ∙ c.new_derived,
        unfold wrap_dek unwrap_dek in
            (unwrap_as-wrap_as P wrapped_dek nonce c.dek r.wrapped_dek c.kek' args.user_id fits
              c.wraps).1,
      )

  -- The recovery wrap of a changed passphrase opens under the new passphrase's key, and, where
  -- ciphertexts bind their key, under no recovery phrase that derives another key: recovery with
  -- such a phrase throws a `WrapError`.
  pub change_passphrase_loses_recovery :
      IsBinding P
      → (salt nonce nonce' : List ℕ) (args : ChangePassphraseArgs) (r : PassphraseChangeResult)
      → (mnemonic : Str) (kek' kek'' : CryptoKey) → length nonce' ≡ 12
      → change_passphrase P salt nonce nonce' args ≡ ok r
      → new_kek P salt args.new_pass ≡ ok kek'
      → derive_recovery_kek P mnemonic ≡ ok kek''
      → kek' ≢ kek''
      → ((dek : List ℕ) × (unwrap_with_recovery P r.wrapped_dek_recovery kek' args.user_id
            ≡ ok dek))
        × (recover_dek P r.wrapped_dek_recovery mnemonic args.user_id
            ≡ err (wrap_error (codes "unwrap failed")))
  unfolding recover_dek
  change_passphrase_loses_recovery binding salt nonce nonce' args r mnemonic kek' kek'' fits h
        derived phrase other =
      let c = Changed-of_ok salt nonce nonce' args r h in
      let same : c.kek' ≡ kek' = cc (c.new_derived, derived) in
      let wrapped =
        subst (λ k. wrap_with_recovery P nonce' c.dek k args.user_id ≡ ok r.wrapped_dek_recovery)
          same c.wraps_recovery in
      (
        (
          c.dek,
          unfold wrap_with_recovery unwrap_with_recovery in
              (unwrap_as-wrap_as P wrapped_dek_recovery nonce' c.dek r.wrapped_dek_recovery kek'
                args.user_id fits wrapped).1,
        ),
        rw phrase (
            unfold wrap_with_recovery unwrap_with_recovery in
            unwrap_as_other_aad P binding wrapped_dek_recovery wrapped_dek_recovery nonce' c.dek
              r.wrapped_dek_recovery kek' kek'' args.user_id args.user_id fits wrapped (inl other)),
      )
