-- ===== src/Stores/SessionKeys/Subkeys.antt =====
-- web/src/stores/sessionKeys.ts.
-- What the store holds, and what an unlock leaves in it.
use fincrypt.Prelude.{
  subst, ◌≡◌, ap, ◌∙◌, inl, inr, Bool, Bool-cases, true, false, Option, none, some, List, [], ◌∷◌,
  arith, Str, All, ℕ,
}
use fincrypt.Crypto.Errors.{ok-injective, ok, >>=-eq_ok}
use fincrypt.Crypto.Platform.{Platform}
use fincrypt.Crypto.Aead.{RecordType}
use fincrypt.Crypto.KeyHierarchy.{derive_subkey, unwrap_dek}
use fincrypt.Crypto.Kdf.{parse_kdf_params}
use fincrypt.Crypto.KdfWorker.{derive_kek_off_thread}
use fincrypt.Crypto.Recovery.{recover_dek}
use fincrypt.Stores.SessionKeys.{
  or_else, SessionKeys, PassphraseArgs, initial, unlock_with_passphrase, unlock_with_recovery,
  same_type, cached_key, kek_or_inline,
}

eq_of_same_type : (t u : RecordType) → same_type t u ≡ true → t ≡ u
eq_of_same_type t u h = ground arith

module _ (P : Platform) where
  open P use {CryptoKey}

  abbrev pub AreOf : List ℕ → List (RecordType × CryptoKey) → Type 0
  AreOf dek keys = All (λ entry. derive_subkey P dek entry.0 ≡ ok entry.1) keys

  -- Locked means no key material at all; unlocked means a data key, and cached subkeys of that key.
  abbrev pub HoldsKeys : Bool → Option (List ℕ) → List (RecordType × CryptoKey) → Type 0
  HoldsKeys true none [] = Unit
  HoldsKeys false (some dek) keys = AreOf dek keys
  HoldsKeys _ _ _ = ⊥

  pub record IsSound (s : SessionKeys P) : Type 0 where
    pub holds : HoldsKeys s.locked s.raw_dek s.subkeys

  pub cached_key-AreOf :
      (dek : List ℕ) (type : RecordType) (keys : List (RecordType × CryptoKey)) (key : CryptoKey)
      → AreOf dek keys
      → cached_key P type keys ≡ some key
      → derive_subkey P dek type ≡ ok key
  unfolding cached_key
  cached_key-AreOf dek type [] key h found = cc
  cached_key-AreOf dek type ((t, k) ∷ keys) key (this, rest) found =
      elim (Bool-cases (same_type t type)) [
        | inl same ↦
            let e : k ≡ key = ground arith in rw (← (eq_of_same_type t type same)) (this ∙ ap ok e)
        | inr other ↦ cached_key-AreOf dek type keys key rest (ground arith)
      ]

  pub initial-IsSound : IsSound (initial P)
  unfolding initial
  initial-IsSound = record { holds = tt }

  -- The store that an unlock with a data key leaves.
  abbrev pub opened_by : PassphraseArgs P → List ℕ → SessionKeys P
  opened_by args dek = record {
    locked = false;
    user_id = some args.user_id;
    record_user_id = some (or_else P args.record_user_id args.user_id);
    raw_dek = some dek;
    subkeys = [];
    kdf_params_json = some args.kdf_params_json;
    kdf_salt = some args.kdf_salt;
    wrapped_dek = some args.wrapped_dek;
    wrapped_dek_recovery = none;
  }

  pub unlock_with_passphrase-eq_ok :
      (s t : SessionKeys P) (worker : Bool) (args : PassphraseArgs P)
      → unlock_with_passphrase P worker args s ≡ ok t
      → (dek : List ℕ) × (opened_by args dek ≡ t)
  unfolding unlock_with_passphrase
  unlock_with_passphrase-eq_ok s t worker args h =
      let (params, _, h₁) = >>=-eq_ok (parse_kdf_params P args.kdf_params_json) _ h in
      let (kek, _, h₂) =
        >>=-eq_ok
          (kek_or_inline P (derive_kek_off_thread P worker args.pass args.kdf_salt params) args.pass
            args.kdf_salt params)
          _ h₁ in
      let (dek, _, h₃) = >>=-eq_ok (unwrap_dek P args.wrapped_dek kek args.user_id) _ h₂ in
      (dek, ok-injective _ t h₃)

  pub passphrase-IsSound :
      (s t : SessionKeys P) (worker : Bool) (args : PassphraseArgs P)
      → unlock_with_passphrase P worker args s ≡ ok t
      → IsSound t
  passphrase-IsSound s t worker args h =
      let (dek, same) = unlock_with_passphrase-eq_ok s t worker args h in
      subst IsSound same (record { holds = tt })

  pub recovery-IsSound :
      (s t : SessionKeys P) (mnemonic user : Str) (w : List ℕ)
      → unlock_with_recovery P mnemonic user w s ≡ ok t
      → IsSound t
  unfolding unlock_with_recovery
  recovery-IsSound s t mnemonic user w h =
      let (dek, _, h₁) = >>=-eq_ok (recover_dek P w mnemonic user) _ h in
      subst IsSound (ok-injective _ t h₁) (record { holds = tt })
