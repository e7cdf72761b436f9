-- ===== src/Stores/SessionKeys/Identity.antt =====
-- web/src/stores/sessionKeys.ts.
-- The two identities of the store: the one of the wraps and the one of the records.
use fincrypt.Prelude.{ℕ, ◌≡◌, sym, ap, some, List, Str}
use fincrypt.Crypto.Errors.{ok, >>=-eq_ok, ok-injective}
use fincrypt.Crypto.Platform.{Platform}
use fincrypt.Crypto.Recovery.{recover_dek}
use fincrypt.Stores.SessionKeys.{SessionKeys, unlock_with_recovery, lock}

module _ (P : Platform) where
  -- `lock` keeps the record identity, and an unlock by phrase keeps what it finds.
  pub record_user_id_stale :
      (s t : SessionKeys P) (mnemonic user : Str) (w : List ℕ)
      → unlock_with_recovery P mnemonic user w (lock P s) ≡ ok t
      → (t.user_id ≡ some user) × (t.record_user_id ≡ s.record_user_id)
  unfolding unlock_with_recovery lock
  record_user_id_stale s t mnemonic user w h =
      let (dek, _, h₁) = >>=-eq_ok (recover_dek P w mnemonic user) _ h in
      let same = ok-injective _ t h₁ in
      (
        sym (ap (λ (x : SessionKeys P). x.user_id) same),
        sym (ap (λ (x : SessionKeys P). x.record_user_id) same),
      )
