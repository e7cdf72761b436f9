-- ===== src/Domain/Envelope/Bounds.antt =====
-- web/src/crypto/envelope.ts.
-- What an envelope that was accepted holds.
use fincrypt.Crypto.Json.{json_parse}
use fincrypt.Prelude.{
  sym, ap, ◌∙◌, ◌<◌, ◌≤◌, ◌≡◌, subst, arith, ℕ, false, List, Str, codes, length, ltb, not, ◌==◌,
}
use fincrypt.Prelude.Json.{Fields}
use fincrypt.Crypto.Errors.{
  throw_if-eq_ok, >>=-eq_ok, ok-injective, ok, invalid_envelope_error, throw_if,
}
use fincrypt.Crypto.Platform.{Platform}
use fincrypt.Domain.Formats.{Formats}
use fincrypt.Domain.Vault.{from_b64}
use fincrypt.Crypto.Aead.{RecordType}
use fincrypt.Domain.Envelope.{
  Envelope, text_field, known_type, type_of_name, shaped, or_not_json, decoded_envelope,
  checked_envelope, parse_envelope,
}

nonempty_of : (n : ℕ) → (n == 0) ≡ false → 0 < n
nonempty_of n h = ground arith

twelve_of : (n : ℕ) → not (n == 12) ≡ false → n ≡ 12
twelve_of n h = ground arith

enough_of : (n : ℕ) → ltb n 16 ≡ false → 16 ≤ n
enough_of n h = ground arith

module _ (P : Platform) (F : Formats P) where
  decoded_envelope_bounds :
      (record_id : Str) (type : RecordType) (aad ts nonce ciphertext : Str) (env : Envelope)
      → decoded_envelope P F record_id type aad ts nonce ciphertext ≡ ok env
      → (env.record_id ≡ record_id)
        × (env.aad ≡ aad)
        × (length env.nonce ≡ 12)
        × (16 ≤ length env.ciphertext)
  unfolding decoded_envelope
  decoded_envelope_bounds record_id type aad ts nonce ciphertext env h =
      let (nonce_bytes, _, h₁) = >>=-eq_ok (from_b64 P F nonce) _ h in
      let (_, twelve, h₂) =
        >>=-eq_ok
          (throw_if (not (length nonce_bytes == 12))
            (invalid_envelope_error (codes "envelope nonce must be 12 bytes")))
          _ h₁ in
      let (ct_bytes, _, h₃) = >>=-eq_ok (from_b64 P F ciphertext) _ h₂ in
      let (_, enough, h₄) =
        >>=-eq_ok
          (throw_if (ltb (length ct_bytes) 16)
            (invalid_envelope_error (codes "envelope ciphertext too short")))
          _ h₃ in
      let made = ok-injective _ env h₄ in
      (
        sym (ap (λ (e : Envelope). e.record_id) made),
        sym (ap (λ (e : Envelope). e.aad) made),
        ap (λ (e : Envelope). length e.nonce) (sym made)
            ∙ twelve_of (length nonce_bytes) (throw_if-eq_ok _ _ twelve),
        subst (λ (e : Envelope). 16 ≤ length e.ciphertext) made
            (enough_of (length ct_bytes) (throw_if-eq_ok _ _ enough)),
      )

  checked_envelope_bounds :
      (fields : Fields) (env : Envelope)
      → checked_envelope P F fields ≡ ok env
      → (0 < length env.record_id)
        × (0 < length env.aad)
        × (length env.nonce ≡ 12)
        × (16 ≤ length env.ciphertext)
  unfolding checked_envelope
  checked_envelope_bounds fields env h =
      let (record_id, _, h₁) =
        >>=-eq_ok (text_field (codes "record_id") "envelope record_id missing" fields) _ h in
      let (_, named, h₂) =
        >>=-eq_ok
          (throw_if (length record_id == 0)
            (invalid_envelope_error (codes "envelope record_id missing")))
          _ h₁ in
      let (name, _, h₃) =
        >>=-eq_ok (text_field (codes "type") "envelope type unknown" fields) _ h₂ in
      let (type, _, h₄) = >>=-eq_ok (known_type (type_of_name name)) _ h₃ in
      let (aad, _, h₅) = >>=-eq_ok (text_field (codes "aad") "envelope aad missing" fields) _ h₄ in
      let (_, bound, h₆) =
        >>=-eq_ok
          (throw_if (length aad == 0) (invalid_envelope_error (codes "envelope aad missing"))) _
          h₅ in
      let (ts, _, h₇) = >>=-eq_ok (text_field (codes "ts") "envelope ts missing" fields) _ h₆ in
      let (nonce, _, h₈) =
        >>=-eq_ok (text_field (codes "nonce") "envelope nonce missing" fields) _ h₇ in
      let (ciphertext, _, h₉) =
        >>=-eq_ok (text_field (codes "ciphertext") "envelope ciphertext missing" fields) _ h₈ in
      let (same_id, same_aad, twelve, enough) =
        decoded_envelope_bounds record_id type aad ts nonce ciphertext env h₉ in
      (
        rw same_id (nonempty_of (length record_id) (throw_if-eq_ok _ _ named)),
        rw same_aad (nonempty_of (length aad) (throw_if-eq_ok _ _ bound)),
        twelve,
        enough,
      )

  -- An envelope that `parseEnvelope` accepts has a record id and additional data that are not empty, a
  -- nonce of 12 bytes and a ciphertext that holds at least the tag.
  pub parse_envelope_bounds :
      (bytes : List ℕ) (env : Envelope)
      → parse_envelope P F bytes ≡ ok env
      → (0 < length env.record_id)
        × (0 < length env.aad)
        × (length env.nonce ≡ 12)
        × (16 ≤ length env.ciphertext)
  unfolding parse_envelope
  parse_envelope_bounds bytes env h =
      let (v, _, h₁) = >>=-eq_ok (or_not_json (json_parse (F.utf8_decode bytes))) _ h in
      let (fields, _, h₂) = >>=-eq_ok (shaped v) _ h₁ in checked_envelope_bounds fields env h₂
