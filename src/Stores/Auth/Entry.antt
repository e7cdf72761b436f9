-- ===== src/Stores/Auth/Entry.antt =====
-- web/src/stores/authStore.ts.
-- What stands behind a registration that was prepared.
use fincrypt.Crypto.Kdf.{out_of_range, params_object, KdfParams, default_kdf_params, derive_kek}
use fincrypt.Prelude.{pos, false, subst, ℕ, Bool, List, Str, codes, join, ◌≡◌, refl, inl, inr}
use fincrypt.Crypto.Errors.{Result-cases, ok}
use fincrypt.Crypto.Platform.{Platform}
use fincrypt.Crypto.KdfWorker.{derive_kek_off_thread, derive_kek_off_thread-eq_derive_kek}
use fincrypt.Crypto.KeyHierarchy.{wrap_dek}
use fincrypt.Crypto.Recovery.{wrap_dek_with_recovery}
use fincrypt.Crypto.Opaque.{Opaque}
use fincrypt.Domain.Formats.{Formats}
use fincrypt.Domain.Vault.{from_b64}
use fincrypt.Stores.SessionKeys.{kek_or_inline}
use fincrypt.Stores.Auth.Attempts.{done, >>=-eq_done, lift-eq_done, done-injective, lift}
use fincrypt.Stores.Auth.Register.{
  RegisterServer, RegisterFinish, Draws, phrase_words, prepare_registration, std_to_url,
}

module _ (P : Platform) where
  pub kek_or_inline-eq_derive_kek :
      (worker : Bool) (pass : Str) (salt : List ℕ) (params : KdfParams)
      → out_of_range (pos params.m) (pos params.t) (pos params.p) ≡ false
      → kek_or_inline P (derive_kek_off_thread P worker pass salt params) pass salt params
        ≡ derive_kek P pass salt params
  kek_or_inline-eq_derive_kek worker pass salt params fits =
      elim (Result-cases (derive_kek_off_thread P worker pass salt params)) [
        | inr (e, fails) ↦ rw fails refl
        | inl (d, derived) ↦
            let same : ok d.kek ≡ derive_kek P pass salt params =
              rw derived at (derive_kek_off_thread-eq_derive_kek P worker pass salt params fits) in
            rw derived same
      ]

module _ (P : Platform) (F : Formats P) (O : Opaque) (worker : Bool) where
  -- What stands behind a prepared registration.
  pub record Prepared (draws : Draws) (email password : Str) (body : RegisterFinish) : Type 0 where
    pub salt : List ℕ
    pub kek : P.CryptoKey
    pub wrap : List ℕ
    pub recovery_wrap : List ℕ
    pub salt_decodes : from_b64 P F body.kdf_salt ≡ ok salt
    pub derived :
        kek_or_inline P
          (derive_kek_off_thread P worker password salt default_kdf_params)
          password
          salt
          default_kdf_params
        ≡ ok kek
    pub wraps : wrap_dek P draws.nonce draws.dek kek email ≡ ok wrap
    pub wraps_recovery :
        wrap_dek_with_recovery P draws.recovery_nonce draws.dek
          (join (codes " ") (phrase_words draws.mnemonic))
          email
        ≡ ok recovery_wrap
    pub wrap_encodes : F.btoa wrap ≡ ok body.wrapped_dek
    pub recovery_encodes : F.btoa recovery_wrap ≡ ok body.wrapped_dek_recovery
    pub default_params : body.kdf_params ≡ params_object default_kdf_params

  pub Prepared-of_done :
      (server : RegisterServer) (draws : Draws) (email password : Str) (body : RegisterFinish)
      → prepare_registration P F O worker server draws email password ≡ done body
      → Prepared draws email password body
  unfolding prepare_registration
  Prepared-of_done server draws email password body h =
      let (state, request) = O.start_registration draws.coins password in
      let (start, _, h₁) = >>=-eq_done (server.start email request) _ h in
      let (response, _, h₂) =
        >>=-eq_done (lift (std_to_url P F start.registration_response)) _ h₁ in
      let (finished, _, h₃) =
        >>=-eq_done (lift (O.finish_registration state response password)) _ h₂ in
      let (salt, decodes, h₄) = >>=-eq_done (lift (from_b64 P F start.kdf_salt)) _ h₃ in
      let (kek, derived, h₅) =
        >>=-eq_done
          (lift (
            kek_or_inline P (derive_kek_off_thread P worker password salt default_kdf_params)
              password salt default_kdf_params))
          _ h₄ in
      let (wrap, wraps, h₆) =
        >>=-eq_done (lift (wrap_dek P draws.nonce draws.dek kek email)) _ h₅ in
      let (recovery_wrap, wraps_recovery, h₇) =
        >>=-eq_done
          (lift (
            wrap_dek_with_recovery P draws.recovery_nonce draws.dek
              (join (codes " ") (phrase_words draws.mnemonic)) email))
          _ h₆ in
      let (wrap_text, encodes, h₈) = >>=-eq_done (lift (F.btoa wrap)) _ h₇ in
      let (recovery_text, recovery_encodes, h₉) = >>=-eq_done (lift (F.btoa recovery_wrap)) _ h₈ in
      subst (Prepared draws email password) (done-injective _ body h₉) (record {
        salt = salt;
        kek = kek;
        wrap = wrap;
        recovery_wrap = recovery_wrap;
        salt_decodes = lift-eq_done _ decodes;
        derived = lift-eq_done _ derived;
        wraps = lift-eq_done _ wraps;
        wraps_recovery = lift-eq_done _ wraps_recovery;
        wrap_encodes = lift-eq_done _ encodes;
        recovery_encodes = lift-eq_done _ recovery_encodes;
        default_params = refl;
      })
