-- ===== src/Crypto/Tests/Passphrases.antt =====
-- Runs with passphrases.
use fincrypt.Prelude.{decimal}
use fincrypt.Prelude.{is_low_surrogate}
use fincrypt.Prelude.{is_high_surrogate}
use fincrypt.Prelude.Json.Quote.{quoted}
use fincrypt.Crypto.Json.{json_parse}
use fincrypt.Prelude.{decimal}
use fincrypt.Prelude.{is_low_surrogate}
use fincrypt.Prelude.{is_high_surrogate}
use fincrypt.Prelude.Json.Quote.{quoted}
use fincrypt.Crypto.Json.{json_parse}
use fincrypt.Prelude.{decimal}
use fincrypt.Prelude.{is_low_surrogate}
use fincrypt.Prelude.{is_high_surrogate}
use fincrypt.Prelude.Json.Quote.{quoted}
use fincrypt.Crypto.Json.{json_parse}
use fincrypt.Prelude.{decimal}
use fincrypt.Prelude.{is_low_surrogate}
use fincrypt.Prelude.{is_high_surrogate}
use fincrypt.Prelude.Json.Quote.{quoted}
use fincrypt.Crypto.Json.{json_parse}
use fincrypt.Prelude.{
  starts_with, trim, words, join, str_eq, ◌*ℤ◌, ℕ, ◌≡◌, ◌<◌, ◌≤◌, ◌*◌, ◌^◌, refl, List, [], ◌∷◌,
  Str, codes, true,
}
use fincrypt.Crypto.Recovery.{
  normalize_phrase, validate_recovery_phrase, derive_recovery_kek, recover_dek,
}
use fincrypt.Crypto.KeyHierarchy.{
  wrap_with_recovery, hkdf_bits, wrap_dek, unwrap_dek, unwrap_with_recovery,
}
use fincrypt.Crypto.Aead.{decrypt_bytes, encrypt_bytes, import_aes_key}
use fincrypt.Crypto.Kdf.{
  argon2id_derive, default_kdf_params, parse_kdf_params, serialize_kdf_params, derive_kek,
}
use fincrypt.Prelude.Json.{lookup_field}
use fincrypt.Crypto.Lifecycle.{
  old_kek_params, derive_stored, PassphraseChangeResult, ChangePassphraseArgs, change_passphrase,
  old_kek, new_kek,
}
use fincrypt.Crypto.Errors.{Result, ok, err, wrap_error, ◌>>=◌}
use fincrypt.Crypto.Toy.{toy, toy-IsBinding}
use fincrypt.Crypto.Kdf.Params.{
  parse_kdf_params_bounds, parse_kdf_params-serialize_kdf_params, default_in_range,
}
use fincrypt.Crypto.KdfWorker.{derive_kek_off_thread, derive_kek_off_thread-eq_derive_kek}
use fincrypt.Crypto.Lifecycle.Change.{change_passphrase-opens, change_passphrase_loses_recovery}
use fincrypt.Crypto.Tests.{nonce_1, returned, dek_1}
use fincrypt.Crypto.Tests.Phrases.{key_of}

abbrev salt_1 : List ℕ
salt_1 = 9 ∷ 9 ∷ 9 ∷ 9 ∷ nonce_1

abbrev salt_2 : List ℕ
salt_2 = 8 ∷ 8 ∷ 8 ∷ 8 ∷ nonce_1

abbrev costs : Str
costs = serialize_kdf_params default_kdf_params

parse_kdf_params_bounds_example : (8 * 4 ≤ 65536) × (1 ≤ 3) × (1 ≤ 4) × (4 < 2 ^ 24)
unfolding toy parse_kdf_params lookup_field str_eq ◌*ℤ◌ starts_with serialize_kdf_params json_parse
    quoted is_high_surrogate is_low_surrogate decimal
parse_kdf_params_bounds_example = parse_kdf_params_bounds toy costs default_kdf_params refl

derive_kek_off_thread_example :
    (derive_kek_off_thread toy true (codes "old") salt_1 default_kdf_params >>= λ d. ok d.kek)
    ≡ derive_kek toy (codes "old") salt_1 default_kdf_params
unfolding toy parse_kdf_params lookup_field str_eq ◌*ℤ◌ starts_with serialize_kdf_params json_parse
    quoted is_high_surrogate is_low_surrogate decimal
derive_kek_off_thread_example =
    derive_kek_off_thread-eq_derive_kek toy true (codes "old") salt_1 default_kdf_params refl

abbrev change : ChangePassphraseArgs
change = record {
  old_pass = codes "old";
  new_pass = codes "new";
  user_id = codes "anna";
  kdf_salt = salt_1;
  kdf_params_json = costs;
  wrapped_dek = returned (
      wrap_dek toy nonce_1 dek_1 (key_of (derive_kek toy (codes "old") salt_1 default_kdf_params))
        (codes "anna"));
  wrapped_dek_recovery = [];
}

abbrev result_of : Result PassphraseChangeResult → PassphraseChangeResult
result_of (ok r) = r
result_of (err e) = record {
  kdf_salt = [];
  kdf_params = [];
  wrapped_dek = [];
  wrapped_dek_recovery = [];
}

abbrev changed : PassphraseChangeResult
changed = result_of (change_passphrase toy salt_2 nonce_1 nonce_1 change)

change_passphrase-opens_example :
    (kek : toy.CryptoKey) × (kek' : toy.CryptoKey) × (dek : List ℕ) × (old_kek toy change ≡ ok kek)
    × (unwrap_dek toy change.wrapped_dek kek (codes "anna") ≡ ok dek)
    × (new_kek toy changed.kdf_salt (codes "new") ≡ ok kek')
    × (unwrap_dek toy changed.wrapped_dek kek' (codes "anna") ≡ ok dek)
unfolding toy change_passphrase derive_kek wrap_dek str_eq old_kek old_kek_params derive_stored
    lookup_field argon2id_derive import_aes_key unwrap_dek hkdf_bits encrypt_bytes decrypt_bytes
    new_kek wrap_with_recovery starts_with serialize_kdf_params json_parse quoted is_high_surrogate
    is_low_surrogate decimal
change_passphrase-opens_example =
    change_passphrase-opens toy salt_2 nonce_1 nonce_1 change changed refl refl

abbrev phrase : Str
phrase = codes "zoo zone"

change_passphrase_loses_recovery_example :
    ((dek : List ℕ) × (unwrap_with_recovery toy changed.wrapped_dek_recovery
          (key_of (new_kek toy salt_2 (codes "new")))
          (codes "anna")
        ≡ ok dek))
    × (recover_dek toy changed.wrapped_dek_recovery phrase (codes "anna")
        ≡ err (wrap_error (codes "unwrap failed")))
unfolding toy change_passphrase derive_kek wrap_dek derive_recovery_kek new_kek str_eq old_kek
    old_kek_params derive_stored lookup_field argon2id_derive import_aes_key unwrap_dek hkdf_bits
    encrypt_bytes decrypt_bytes wrap_with_recovery validate_recovery_phrase normalize_phrase join
    words trim starts_with serialize_kdf_params json_parse quoted is_high_surrogate is_low_surrogate
    decimal
change_passphrase_loses_recovery_example =
    change_passphrase_loses_recovery toy toy-IsBinding salt_2 nonce_1 nonce_1 change changed phrase
      (key_of (new_kek toy salt_2 (codes "new"))) (key_of (derive_recovery_kek toy phrase)) refl
      refl refl refl (λ same. cc)

parse_kdf_params-serialize_kdf_params_example :
    parse_kdf_params toy (serialize_kdf_params default_kdf_params) ≡ ok default_kdf_params
parse_kdf_params-serialize_kdf_params_example =
    parse_kdf_params-serialize_kdf_params toy default_kdf_params default_in_range
