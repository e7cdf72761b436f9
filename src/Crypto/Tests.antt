-- ===== src/Crypto/Tests.antt =====
-- Runs of the crypto modules on a concrete platform.
pub mod Phrases
pub mod Passphrases
use fincrypt.Crypto.IdleTimer.{
  starts, IdleTimer, start_idle_timer, elapse_all, elapse, reset, stop, reset-fires_once,
}
use fincrypt.Prelude.{
  inl, arith, ◌+◌, ◌∷◌, [], ◌≢◌, take, includes, Str, drop, ◌⊎◌, length, is_well_formed, ℕ, ◌≡◌,
  refl, List, codes, inr,
}
use fincrypt.Crypto.Errors.{wrap_error, Result, ok, err, decrypt_error}
use fincrypt.Crypto.Toy.{toy, toy-IsBinding}
use fincrypt.Crypto.Aead.{decrypt_bytes, encrypt_bytes, build_aad, chat, vault}
use fincrypt.Crypto.Aead.Opening.{
  decrypt_bytes_outcomes, decrypt_bytes-encrypt_bytes, decrypt_bytes_wrong,
}
use fincrypt.Crypto.Aead.Binding.{build_aad_injective, decrypt_bytes-swapped}
use fincrypt.Crypto.KeyHierarchy.{
  wrapped_dek, wrapped_dek_recovery, wrap_as, unwrap_as, wrap_aad, hkdf_bits,
}
use fincrypt.Crypto.KeyHierarchy.Wraps.{unwrap_as-wrap_as, unwrap_as_outcomes}
use fincrypt.Crypto.KeyHierarchy.Wrong.{unwrap_as_wrong}
use fincrypt.Crypto.KeyHierarchy.Separation.{wrap_aad_injective, build_aad-ne-wrap_aad}
open toy use {CryptoKey, import_key}

abbrev pub nonce_1 : List ℕ
nonce_1 = 1 ∷ 2 ∷ 3 ∷ 4 ∷ 5 ∷ 6 ∷ 7 ∷ 8 ∷ 9 ∷ 10 ∷ 11 ∷ 12 ∷ []

abbrev pub secret : List ℕ
secret = 40 ∷ 41 ∷ 42 ∷ []

abbrev pub key_1 : CryptoKey
key_1 = import_key (5 ∷ 6 ∷ 7 ∷ [])

abbrev aad_1 : List ℕ
aad_1 = codes "v1|anna|chat|r1"

abbrev aad_2 : List ℕ
aad_2 = codes "v1|anna|vault|r1"

abbrev pub returned : Result (List ℕ) → List ℕ
returned (ok bytes) = bytes
returned (err e) = []

abbrev packed_1 : List ℕ
packed_1 = returned (encrypt_bytes toy key_1 nonce_1 secret aad_1)

decrypt_bytes-encrypt_bytes_example : decrypt_bytes toy key_1 packed_1 aad_1 ≡ ok secret
unfolding toy encrypt_bytes
decrypt_bytes-encrypt_bytes_example =
    decrypt_bytes-encrypt_bytes toy key_1 nonce_1 secret aad_1 packed_1 refl refl

decrypt_bytes-swapped_example : decrypt_bytes toy key_1 packed_1 aad_2 ≡ err decrypt_error
unfolding toy encrypt_bytes build_aad is_well_formed includes
decrypt_bytes-swapped_example =
    decrypt_bytes-swapped toy toy-IsBinding key_1 nonce_1 secret aad_1 aad_2 packed_1 (codes "anna")
      (codes "anna") chat vault (codes "r1") (codes "r1") refl refl refl refl refl refl refl refl
      (λ same. cc)

decrypt_bytes_outcomes_example :
    (decrypt_bytes toy key_1 secret aad_1 ≡ err decrypt_error)
    ⊎ ((plaintext : List ℕ) × (decrypt_bytes toy key_1 secret aad_1 ≡ ok plaintext)
        × (drop 12 secret ≡ toy.gcm_seal key_1 (take 12 secret) aad_1 plaintext))
decrypt_bytes_outcomes_example = decrypt_bytes_outcomes toy key_1 secret aad_1 (omega arith)

abbrev pub dek_1 : List ℕ
dek_1 = returned (hkdf_bits toy (7 ∷ 8 ∷ 9 ∷ []) [] [] 256)

abbrev wrapped_1 : List ℕ
wrapped_1 = returned (wrap_as toy wrapped_dek nonce_1 dek_1 key_1 (codes "anna"))

unwrap_as-wrap_as_example :
    (length wrapped_1 ≡ 60) × (unwrap_as toy wrapped_dek wrapped_1 key_1 (codes "anna") ≡ ok dek_1)
unfolding toy wrap_as encrypt_bytes hkdf_bits
unwrap_as-wrap_as_example =
    unwrap_as-wrap_as toy wrapped_dek nonce_1 dek_1 wrapped_1 key_1 (codes "anna") refl refl

unwrap_as_wrong_example :
    unwrap_as toy wrapped_dek wrapped_1 key_1 (codes "ben")
    ≡ err (wrap_error (codes "unwrap failed"))
unfolding toy wrap_as encrypt_bytes hkdf_bits is_well_formed
unwrap_as_wrong_example =
    unwrap_as_wrong toy toy-IsBinding wrapped_dek wrapped_dek nonce_1 dek_1 wrapped_1 key_1 key_1
      (codes "anna") (codes "ben") refl refl refl refl (inr (inl (λ same. cc)))

build_aad-ne-wrap_aad_example :
    build_aad toy (codes "anna") chat (codes "wrapped-dek")
    ≢ ok (wrap_aad toy (codes "anna") wrapped_dek)
unfolding is_well_formed includes
build_aad-ne-wrap_aad_example =
    build_aad-ne-wrap_aad toy (codes "anna") (codes "anna") chat (codes "wrapped-dek") wrapped_dek
      refl refl refl refl

-- A timer of one minute.
abbrev timer : IdleTimer
timer = start_idle_timer 1 0

reset-fires_once_example :
    ((elapse_all (70000 ∷ []) (reset 50000 timer)).calls ≡ 0)
    × ((elapse_all
          (120000 ∷ [])
          (elapse 110000 (elapse_all (70000 ∷ []) (reset 50000 timer)))).calls
        ≡ 0 + 1)
    × ((elapse_all (120000 ∷ []) (stop (elapse_all (70000 ∷ []) (reset 50000 timer)))).calls ≡ 0)
unfolding start_idle_timer
reset-fires_once_example =
    reset-fires_once timer 50000 110000 (70000 ∷ []) (120000 ∷ []) (starts 1 0) (omega arith, tt)
      (omega arith)
