-- ===== src/Crypto/KdfWorker.antt =====
-- web/src/crypto/kdfWorker.ts and kdfWorkerClient.ts: the passphrase key, derived in a worker where
-- one is to be had.
use fincrypt.Prelude.{
  pos, false, inl, inr, if◌then◌else◌, codes, ℕ, ◌≡◌, refl, Bool, true, List, arith, Str,
}
use fincrypt.Crypto.Kdf.Params.{parse_kdf_params-serialize_kdf_params}
use fincrypt.Crypto.Kdf.{
  out_of_range, KdfParams, serialize_kdf_params, parse_kdf_params, argon2id_derive, import_kek,
  derive_kek,
}
use fincrypt.Crypto.Errors.{Result-cases, plain_error, Fault, Result, ok, err, ◌>>=◌}
use fincrypt.Crypto.Platform.{Platform}

module _ (P : Platform) where
  open P use {CryptoKey}

  -- `DeriveKekOffThreadResult`
  pub record Derived : Type 0 where
    pub kek : CryptoKey
    pub off_thread : Bool

  -- `self.onmessage` for a 'derive' request, up to the message that it posts back.
  unfoldable pub run_worker : Str → List ℕ → Str → Result (List ℕ)
  run_worker pass salt params_json = do
    params ← parse_kdf_params P params_json
    argon2id_derive P pass salt params false

  -- From the worker's answer on: a rejection and a failed import fall back to this thread.
  abbrev or_inline : Result CryptoKey → Str → List ℕ → KdfParams → Result Derived
  or_inline (ok kek) pass salt params = ok (record { kek = kek; off_thread = true })
  or_inline (err _) pass salt params = argon2id_derive P pass salt params false >>= λ bytes.
      import_kek P bytes >>= λ kek. ok (record { kek = kek; off_thread = false })

  -- The first argument says whether a worker can be made; where none can, that throws.
  unfoldable pub derive_kek_off_thread : Bool → Str → List ℕ → KdfParams → Result Derived
  derive_kek_off_thread available pass salt params =
      or_inline
        (if available
          then run_worker pass salt (serialize_kdf_params params) >>= import_kek P
          else err (plain_error (codes "Worker")))
        pass salt params

  inline-eq_derive_kek :
      (pass : Str) (salt : List ℕ) (params : KdfParams) (e : Fault)
      → (or_inline (err e) pass salt params >>= λ d. ok d.kek) ≡ derive_kek P pass salt params
  unfolding derive_kek
  inline-eq_derive_kek pass salt params e = ground arith

  -- With or without a worker the key is the one that `deriveKek` derives in this thread, and the call
  -- fails only as that does, if the parameters are in the range that `parseKdfParams` demands.
  pub derive_kek_off_thread-eq_derive_kek :
      (available : Bool) (pass : Str) (salt : List ℕ) (params : KdfParams)
      → out_of_range (pos params.m) (pos params.t) (pos params.p) ≡ false
      → (derive_kek_off_thread available pass salt params >>= λ d. ok d.kek)
        ≡ derive_kek P pass salt params
  unfolding derive_kek_off_thread run_worker derive_kek
  derive_kek_off_thread-eq_derive_kek false pass salt params fits =
      inline-eq_derive_kek pass salt params (plain_error (codes "Worker"))
  derive_kek_off_thread-eq_derive_kek true pass salt params fits =
      let back = parse_kdf_params-serialize_kdf_params P params fits in
      rw back (elim (Result-cases (argon2id_derive P pass salt params false)) [
        | inr (e, failed) ↦ rw failed (rw failed refl)
        | inl (bytes, derived) ↦ rw derived (elim (Result-cases (import_kek P bytes)) [
          | inr (e, failed) ↦ rw failed (rw derived (rw failed refl))
          | inl (kek, imported) ↦ rw imported refl
        ])
      ])
