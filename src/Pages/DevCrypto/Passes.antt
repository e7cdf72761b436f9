-- ===== src/Pages/DevCrypto/Passes.antt =====
-- web/src/pages/DevCrypto.tsx.
-- The health check, where the parts of the crypto modules that it runs keep their promises.
use fincrypt.Prelude.{
  ℕ, false, List, [], ◌∷◌, ◌++◌, Str, codes, length, ◌<◌, ◌≡◌, ◌≢◌, refl, sym, ap, ◌∙◌, inr, arith,
  includes, is_well_formed, str_eq_refl,
}
use fincrypt.Crypto.Errors.{ok}
use fincrypt.Crypto.Platform.{Platform, IsBinding}
use fincrypt.Crypto.Aead.{
  RecordType, type_name, transactions, chat, aad_text, build_aad, import_aes_key,
}
use fincrypt.Crypto.Aead.Opening.{
  encrypt_bytes-eq_ok, decrypt_bytes-encrypt_bytes, decrypt_bytes_wrong,
}
use fincrypt.Crypto.Aead.Binding.{build_aad_injective}
use fincrypt.Crypto.Kdf.{argon2id_derive}
use fincrypt.Crypto.KeyHierarchy.{
  wrapped_dek, wrapped_dek_recovery, wrap_dek, unwrap_dek, wrap_aad, derive_subkey, hkdf_bits,
  hkdf_salt_bytes, wrap_with_recovery,
}
use fincrypt.Crypto.KeyHierarchy.Wraps.{wrap_as-eq_ok, unwrap_as-wrap_as}
use fincrypt.Crypto.Recovery.{derive_recovery_kek, wrap_dek_with_recovery}
use fincrypt.Crypto.Recovery.Opening.{recover_dek-wrap_dek_with_recovery}
use fincrypt.Domain.Formats.{Formats}
use fincrypt.Pages.DevCrypto.{
  StepState, pending, pass, passed, Page, Draws, test_params, initial_steps, passphrase, user_id,
  record_id, sample, check_wrap, check_envelope, check_recovery, check_swap, checks, start,
}

abbrev pub all_passed : Page
all_passed = record {
  steps = pass ∷ pass ∷ pass ∷ pass ∷ pass ∷ pass ∷ [];
  is_running = false;
  verdict = passed;
}

module _ (P : Platform) where
  open P use {CryptoKey, import_key, gcm_seal, utf8, hkdf_sha256}

  import_aes_key-eq_ok :
      (raw : List ℕ) → length raw ≡ 32 → import_aes_key P raw ≡ ok (import_key raw)
  unfolding import_aes_key
  import_aes_key-eq_ok raw fits = ground arith

  abbrev subkey_of : List ℕ → RecordType → CryptoKey
  subkey_of dek type = import_key (hkdf_sha256 dek (hkdf_salt_bytes P) (utf8 (type_name type)) 32)

  derive_subkey-eq_ok :
      (dek : List ℕ) (type : RecordType) → derive_subkey P dek type ≡ ok (subkey_of dek type)
  unfolding derive_subkey hkdf_bits
  derive_subkey-eq_ok dek type =
      import_aes_key-eq_ok (hkdf_sha256 dek (hkdf_salt_bytes P) (utf8 (type_name type)) 32)
        (P.length-hkdf_sha256 dek (hkdf_salt_bytes P) (utf8 (type_name type)) 32)

  module _ (F : Formats P) (draws : Draws) where
    abbrev after_two : List StepState
    after_two = pass ∷ pass ∷ pending ∷ pending ∷ pending ∷ pending ∷ []

    abbrev after_three : List StepState
    after_three = pass ∷ pass ∷ pass ∷ pending ∷ pending ∷ pending ∷ []

    abbrev after_four : List StepState
    after_four = pass ∷ pass ∷ pass ∷ pass ∷ pending ∷ pending ∷ []

    abbrev after_five : List StepState
    after_five = pass ∷ pass ∷ pass ∷ pass ∷ pass ∷ pending ∷ []

    abbrev record_key : CryptoKey
    record_key = subkey_of draws.dek transactions

    abbrev record_aad : List ℕ
    record_aad = utf8 (aad_text user_id transactions record_id)

    abbrev other_aad : List ℕ
    other_aad = utf8 (aad_text user_id chat (codes "different-record"))

    abbrev packed : List ℕ
    packed = draws.record_nonce ++ gcm_seal record_key draws.record_nonce record_aad (utf8 sample)

    aad_nonempty : (type : RecordType) (id : Str) → 0 < length (utf8 (aad_text user_id type id))
    aad_nonempty type id = P.utf8_nonempty (aad_text user_id type id) (omega arith)

    record_aad_made : build_aad P user_id transactions record_id ≡ ok record_aad
    unfolding build_aad includes
    record_aad_made = refl

    other_aad_made : build_aad P user_id chat (codes "different-record") ≡ ok other_aad
    unfolding build_aad includes
    other_aad_made = refl

    record_aad-ne-other_aad : record_aad ≢ other_aad
    unfolding is_well_formed
    record_aad-ne-other_aad same =
        let (_, types, _) =
          build_aad_injective P user_id user_id transactions chat record_id
            (codes "different-record") record_aad refl refl refl refl record_aad_made
            (other_aad_made ∙ ap ok (sym same)) in
        cc types

    check_wrap-passes :
        (bytes : List ℕ)
        → argon2id_derive P passphrase draws.salt test_params false ≡ ok bytes
        → length bytes ≡ 32
        → length draws.dek ≡ 32
        → length draws.wrap_nonce ≡ 12
        → check_wrap P F draws initial_steps ≡ (after_two, ok draws.dek)
    check_wrap-passes bytes derived fits dek_fits nonce_fits =
        let kek = import_key bytes in
        let wrapped =
          draws.wrap_nonce
          ++ gcm_seal kek draws.wrap_nonce (wrap_aad P user_id wrapped_dek) draws.dek in
        let wraps : wrap_dek P draws.wrap_nonce draws.dek kek user_id ≡ ok wrapped =
          unfold wrap_dek in
          wrap_as-eq_ok P wrapped_dek draws.wrap_nonce draws.dek kek user_id dek_fits
            (omega arith) in
        let (sixty, opens) =
          unwrap_as-wrap_as P wrapped_dek draws.wrap_nonce draws.dek wrapped kek user_id nonce_fits
            (unfold wrap_dek in wraps) in
        let opens' : unwrap_dek P wrapped kek user_id ≡ ok draws.dek = unfold unwrap_dek in opens in
        rw (derived, import_aes_key-eq_ok bytes fits, wraps, sixty, opens', str_eq_refl draws.dek)
          refl

    check_envelope-passes :
        length draws.record_nonce ≡ 12
        → check_envelope P F draws draws.dek after_two ≡ (after_three, ok (record_key, packed))
    unfolding is_well_formed
    check_envelope-passes nonce_fits =
        let seals =
          encrypt_bytes-eq_ok P record_key draws.record_nonce (utf8 sample) record_aad
            (aad_nonempty transactions record_id) in
        rw
          (
            derive_subkey-eq_ok draws.dek transactions,
            record_aad_made,
            seals,
            decrypt_bytes-encrypt_bytes P record_key draws.record_nonce (utf8 sample) record_aad
                packed nonce_fits seals,
            F.utf8_decode-utf8 sample refl,
            str_eq_refl sample,
          )
          refl

    check_recovery-passes :
        (kek : CryptoKey)
        → derive_recovery_kek P draws.mnemonic ≡ ok kek
        → length draws.dek ≡ 32
        → length draws.recovery_nonce ≡ 12
        → check_recovery P F draws draws.dek after_three ≡ (after_four, ok tt)
    check_recovery-passes kek derived dek_fits nonce_fits =
        let wrapped =
          draws.recovery_nonce
          ++ gcm_seal kek draws.recovery_nonce (wrap_aad P user_id wrapped_dek_recovery)
              draws.dek in
        let wraps : wrap_dek_with_recovery P draws.recovery_nonce draws.dek draws.mnemonic user_id
            ≡ ok wrapped =
          unfold wrap_dek_with_recovery wrap_with_recovery in
          rw derived (
            wrap_as-eq_ok P wrapped_dek_recovery draws.recovery_nonce draws.dek kek user_id dek_fits
              (omega arith)) in
        rw
          (
            wraps,
            recover_dek-wrap_dek_with_recovery P draws.recovery_nonce draws.dek wrapped
                draws.mnemonic user_id nonce_fits wraps,
            str_eq_refl draws.dek,
          )
          refl

    check_swap-passes :
        IsBinding P
        → length draws.record_nonce ≡ 12
        → check_swap P F draws record_key packed after_four ≡ (after_five, ok tt)
    check_swap-passes binding nonce_fits =
        let seals =
          encrypt_bytes-eq_ok P record_key draws.record_nonce (utf8 sample) record_aad
            (aad_nonempty transactions record_id) in
        rw
          (
            other_aad_made,
            decrypt_bytes_wrong P binding record_key record_key draws.record_nonce (utf8 sample)
                record_aad other_aad packed nonce_fits seals
                (aad_nonempty chat (codes "different-record")) (inr record_aad-ne-other_aad),
          )
          refl

    -- The health check passes, step by step and as a whole, wherever Argon2id returns a key of 32 bytes,
    -- the drawn phrase derives a recovery key, the drawn key has 32 bytes and the nonces 12, and
    -- ciphertexts bind their additional data.
    pub start-passes :
        IsBinding P
        → (bytes : List ℕ) (kek : CryptoKey)
        → argon2id_derive P passphrase draws.salt test_params false ≡ ok bytes
        → length bytes ≡ 32
        → derive_recovery_kek P draws.mnemonic ≡ ok kek
        → length draws.dek ≡ 32
        → length draws.wrap_nonce ≡ 12
        → length draws.record_nonce ≡ 12
        → length draws.recovery_nonce ≡ 12
        → start P F draws ≡ all_passed
    unfolding start checks
    start-passes binding bytes kek derived fits phrase dek_fits wrap_fits record_fits
          recovery_fits =
        rw
          (
            check_wrap-passes bytes derived fits dek_fits wrap_fits,
            check_envelope-passes record_fits,
            check_recovery-passes kek phrase dek_fits recovery_fits,
            check_swap-passes binding record_fits,
          )
          refl
