-- ===== src/Crypto/Tests/Phrases.antt =====
-- Runs with recovery phrases.
use fincrypt.Prelude.{
  str_eq, trim, words, join, ◌*◌, ℕ, ◌≡◌, ◌≢◌, ◌<◌, refl, List, Str, codes, pos, ℤ,
}
use fincrypt.Crypto.Aead.{decrypt_bytes, encrypt_bytes, import_aes_key}
use fincrypt.Crypto.KeyHierarchy.{wrap_with_recovery, unwrap_with_recovery, hkdf_bits}
use fincrypt.Crypto.Recovery.{
  normalize_phrase, validate_recovery_phrase, derive_recovery_kek, wrap_dek_with_recovery,
  recover_dek,
}
use fincrypt.Crypto.Errors.{Result, ok, err, wrap_error}
use fincrypt.Crypto.Toy.{toy, toy-IsBinding}
use fincrypt.Crypto.Recovery.Indices.{pick_confirm_indices, pick_confirm_indices_lem}
use fincrypt.Crypto.Lifecycle.{RotateRecoveryArgs, rotate_recovery}
use fincrypt.Crypto.Lifecycle.Rotate.{rotate_recovery_lem}
use fincrypt.Crypto.Tests.{nonce_1, key_1, returned, dek_1}

abbrev pub key_of : Result toy.CryptoKey → toy.CryptoKey
key_of (ok key) = key
key_of (err e) = key_1

abbrev phrase_1 : Str
phrase_1 = codes "zoo zone"

abbrev phrase_2 : Str
phrase_2 = codes "abandon ability"

abbrev kek_1 : toy.CryptoKey
kek_1 = key_of (derive_recovery_kek toy phrase_1)

abbrev kek_2 : toy.CryptoKey
kek_2 = key_of (derive_recovery_kek toy phrase_2)

abbrev wrapped_phrase : List ℕ
wrapped_phrase = returned (wrap_dek_with_recovery toy nonce_1 dek_1 phrase_1 (codes "anna"))

abbrev first_draw : ℕ → ℤ
first_draw i = pos (3 * i)

pick_confirm_indices_example :
    let (a, b, c) = pick_confirm_indices first_draw in
    (a < 12) × (b < 12) × (c < 12) × (a ≢ b) × (a ≢ c) × (b ≢ c)
pick_confirm_indices_example = pick_confirm_indices_lem first_draw

abbrev rotation : RotateRecoveryArgs
rotation = record {
  old_mnemonic = phrase_1;
  new_mnemonic = phrase_2;
  user_id = codes "anna";
  wrapped_dek_recovery = wrapped_phrase;
}

abbrev rotated : List ℕ
rotated = returned (rotate_recovery toy nonce_1 rotation)

rotate_recovery_example :
    (recover_dek toy rotated phrase_2 (codes "anna")
      ≡ recover_dek toy wrapped_phrase phrase_1 (codes "anna"))
    × (recover_dek toy rotated phrase_1 (codes "anna") ≡ err (wrap_error (codes "unwrap failed")))
unfolding toy rotate_recovery recover_dek wrap_dek_with_recovery derive_recovery_kek
    validate_recovery_phrase normalize_phrase join words trim hkdf_bits import_aes_key
    unwrap_with_recovery wrap_with_recovery encrypt_bytes decrypt_bytes str_eq
rotate_recovery_example =
    rotate_recovery_lem toy toy-IsBinding nonce_1 rotated rotation phrase_1 kek_2 kek_1 refl refl
      refl refl (λ same. cc)
