-- ===== src/Pages/Tests/Health.antt =====
-- A run of the health check on a concrete platform.
use fincrypt.Crypto.Aead.{import_aes_key}
use fincrypt.Crypto.KeyHierarchy.{hkdf_bits}
use fincrypt.Prelude.{trim}
use fincrypt.Prelude.{words}
use fincrypt.Prelude.{join}
use fincrypt.Crypto.Recovery.{normalize_phrase}
use fincrypt.Crypto.Recovery.{validate_recovery_phrase}
use fincrypt.Prelude.{◌∷◌, codes, ◌≡◌, refl, false}
use fincrypt.Crypto.Toy.{toy, toy-IsBinding}
use fincrypt.Crypto.Kdf.{argon2id_derive}
use fincrypt.Crypto.Recovery.{derive_recovery_kek}
use fincrypt.Crypto.Tests.{nonce_1, dek_1, returned}
use fincrypt.Crypto.Tests.Phrases.{key_of}
use fincrypt.Domain.ToyFormats.{toy_formats}
use fincrypt.Pages.DevCrypto.{Draws, passphrase, test_params, start}
use fincrypt.Pages.DevCrypto.Passes.{all_passed, start-passes}

abbrev health_draws : Draws
health_draws = record {
  salt = 9 ∷ 9 ∷ 9 ∷ 9 ∷ nonce_1;
  dek = dek_1;
  mnemonic = codes "zoo zone";
  wrap_nonce = nonce_1;
  record_nonce = nonce_1;
  recovery_nonce = nonce_1;
}

start-passes_example : start toy toy_formats health_draws ≡ all_passed
unfolding argon2id_derive toy derive_recovery_kek validate_recovery_phrase normalize_phrase join
    words trim hkdf_bits import_aes_key
start-passes_example =
    start-passes toy toy_formats health_draws toy-IsBinding
      (returned (argon2id_derive toy passphrase health_draws.salt test_params false))
      (key_of (derive_recovery_kek toy (codes "zoo zone"))) refl refl refl refl refl refl refl
