-- ===== src/Domain/Tests/Envelopes.antt =====
-- Envelopes on a concrete platform.
use fincrypt.Prelude.{ℕ, List, [], codes, ◌≡◌, refl, arith}
use fincrypt.Crypto.Errors.{Result, ok, err}
use fincrypt.Crypto.Toy.{toy}
use fincrypt.Crypto.Tests.{nonce_1, dek_1}
use fincrypt.Crypto.Aead.{chat}
use fincrypt.Crypto.KeyHierarchy.{hkdf_bits}
use fincrypt.Domain.ToyFormats.{toy_formats}
use fincrypt.Domain.Envelope.{Envelope, serialize_envelope, parse_envelope}
use fincrypt.Domain.Envelope.RoundTrip.{parse_envelope-serialize_envelope}

abbrev envelope : Envelope
envelope = record {
  record_id = codes "r1";
  type = chat;
  nonce = nonce_1;
  ciphertext = dek_1;
  aad = codes "anna|chat|r1";
  ts = codes "2024";
}

abbrev bytes_of : Result (List ℕ) → List ℕ
bytes_of (ok bytes) = bytes
bytes_of (err e) = []

parse_envelope-serialize_envelope_example :
    parse_envelope toy toy_formats (bytes_of (serialize_envelope toy toy_formats envelope))
    ≡ ok envelope
unfolding serialize_envelope toy toy_formats hkdf_bits
parse_envelope-serialize_envelope_example =
    parse_envelope-serialize_envelope toy toy_formats envelope
      (bytes_of (serialize_envelope toy toy_formats envelope)) (omega arith) (omega arith) refl
      (omega arith) refl
