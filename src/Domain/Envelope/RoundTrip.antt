-- ===== src/Domain/Envelope/RoundTrip.antt =====
-- web/src/crypto/envelope.ts.
-- An envelope that was printed is parsed to itself.
use mathlib.Core.List.{append_assoc}
use fincrypt.Prelude.{
  sym, ap, ◌∙◌, ◌++◌, join, ◌<◌, ◌≤◌, ◌≡◌, refl, arith, String, ℕ, false, some, List, [], ◌∷◌, Str,
  codes, length, ltb, ◌==◌, str_eq,
}
use fincrypt.Prelude.Json.{text, obj, Fields, end, field, lookup_field}
use fincrypt.Prelude.Json.Text.{json_stringify}
use fincrypt.Prelude.Json.Text.RoundTrip.{IsKept}
use fincrypt.Prelude.Json.Text.WellFormed.{is_well_formed-json_stringify}
use fincrypt.Prelude.Json.Quote.{quoted}
use fincrypt.Crypto.Json.{json_parse, json_parse-json_stringify}
use fincrypt.Crypto.Errors.{◌>>=◌, ok, >>=-eq_ok, ok-injective}
use fincrypt.Crypto.Platform.{Platform}
use fincrypt.Domain.Formats.{Formats}
use fincrypt.Domain.Vault.{to_b64}
use fincrypt.Domain.Vault.RoundTrip.{from_b64-to_b64}
use fincrypt.Crypto.Aead.{type_name, RecordType, transactions, attachments, chat, accounts, vault}
use fincrypt.Domain.Envelope.{
  Envelope, member_text, type_of_name, keys_of, all_in, is_among, decoded_envelope,
  checked_envelope, parse_envelope, serialize_envelope, shaped, or_not_json,
}

-- The object whose text the printer writes.
abbrev envelope_fields : (record_id type nonce ciphertext aad ts : Str) → Fields
envelope_fields record_id type nonce ciphertext aad ts =
    field (codes "record_id") (text record_id) (
      field (codes "type") (text type) (
        field (codes "nonce") (text nonce) (
          field (codes "ciphertext") (text ciphertext)
            (field (codes "aad") (text aad) (field (codes "ts") (text ts) end)))))

type_of_name-type_name : (type : RecordType) → type_of_name (type_name type) ≡ some type
unfolding str_eq
type_of_name-type_name transactions = refl
type_of_name-type_name attachments = refl
type_of_name-type_name chat = refl
type_of_name-type_name accounts = refl
type_of_name-type_name vault = refl

-- One member, and what is printed after it.
member-append :
    (key : String) (value x : Str)
    → member_text key value ++ x ≡ quoted (codes key) ++ b':' ∷ (quoted value ++ x)
unfolding json_stringify
member-append key value x = append_assoc (quoted (codes key)) (b':' ∷ quoted value) x

-- A member with another after it, and what closes the object at the end.
member-comma :
    (key : String) (value rest close : Str) {rest' : Str}
    → rest ++ close ≡ rest'
    → (member_text key value ++ b',' ∷ rest) ++ close
      ≡ quoted (codes key) ++ b':' ∷ (quoted value ++ b',' ∷ rest')
member-comma key value rest close same =
    append_assoc (member_text key value) (b',' ∷ rest) close
    ∙ member-append key value (b',' ∷ (rest ++ close))
    ∙ ap (λ x. quoted (codes key) ++ b':' ∷ (quoted value ++ b',' ∷ x)) same

printed_object :
    (record_id type nonce ciphertext aad ts : Str)
    → codes "{"
        ++ (join (codes ",") (
              member_text "record_id" record_id
              ∷ member_text "type" type
              ∷ member_text "nonce" nonce
              ∷ member_text "ciphertext" ciphertext
              ∷ member_text "aad" aad
              ∷ member_text "ts" ts
              ∷ [])
            ++ codes "}")
      ≡ json_stringify (obj (envelope_fields record_id type nonce ciphertext aad ts))
unfolding json_stringify join
printed_object record_id type nonce ciphertext aad ts =
    ap (λ x. b'{' ∷ x)
      (member-comma "record_id" record_id _ _ (
        member-comma "type" type _ _ (
          member-comma "nonce" nonce _ _ (
            member-comma "ciphertext" ciphertext _ _
              (member-comma "aad" aad _ _ (member-append "ts" ts _))))))

module _ (P : Platform) (F : Formats P) where
  shaped-envelope_fields :
      (record_id type nonce ciphertext aad ts : Str)
      → shaped (obj (envelope_fields record_id type nonce ciphertext aad ts))
        ≡ ok (envelope_fields record_id type nonce ciphertext aad ts)
  unfolding keys_of all_in is_among str_eq
  shaped-envelope_fields record_id type nonce ciphertext aad ts = refl

  nonempty : (n : ℕ) → 0 < n → (n == 0) ≡ false
  nonempty n h = ground arith

  decoded-printed :
      (env : Envelope) (nonce ciphertext : Str)
      → to_b64 P F env.nonce ≡ ok nonce
      → to_b64 P F env.ciphertext ≡ ok ciphertext
      → length env.nonce ≡ 12
      → 16 ≤ length env.ciphertext
      → decoded_envelope P F env.record_id env.type env.aad env.ts nonce ciphertext ≡ ok env
  unfolding decoded_envelope
  decoded-printed env nonce ciphertext made made' twelve enough =
      let enough' : ltb (length env.ciphertext) 16 ≡ false = ground arith in
      rw
        (
          from_b64-to_b64 P F env.nonce nonce made,
          from_b64-to_b64 P F env.ciphertext ciphertext made',
          twelve,
          enough',
        )
        refl

  checked-printed :
      (env : Envelope) (nonce ciphertext : Str)
      → 0 < length env.record_id
      → 0 < length env.aad
      → decoded_envelope P F env.record_id env.type env.aad env.ts nonce ciphertext ≡ ok env
      → checked_envelope P F
          (envelope_fields env.record_id (type_name env.type) nonce ciphertext env.aad env.ts)
        ≡ ok env
  unfolding checked_envelope lookup_field str_eq
  checked-printed env nonce ciphertext named bound decoded =
      rw
        (
          nonempty (length env.record_id) named,
          type_of_name-type_name env.type,
          nonempty (length env.aad) bound,
          decoded,
        )
        refl

  -- An envelope with a record id and additional data that are not empty, a nonce of 12 bytes and a
  -- ciphertext that holds at least the tag is parsed, from the bytes that it was printed to, to
  -- itself.
  pub parse_envelope-serialize_envelope :
      (env : Envelope) (bytes : List ℕ)
      → 0 < length env.record_id
      → 0 < length env.aad
      → length env.nonce ≡ 12
      → 16 ≤ length env.ciphertext
      → serialize_envelope P F env ≡ ok bytes
      → parse_envelope P F bytes ≡ ok env
  unfolding serialize_envelope parse_envelope
  parse_envelope-serialize_envelope env bytes named bound twelve enough h =
      let (nonce, made, h₁) = >>=-eq_ok (to_b64 P F env.nonce) _ h in
      let (ciphertext, made', h₂) = >>=-eq_ok (to_b64 P F env.ciphertext) _ h₁ in
      let object =
        obj (envelope_fields env.record_id (type_name env.type) nonce ciphertext env.aad env.ts) in
      let kept : IsKept object = unfold IsKept in (tt, (tt, (tt, (tt, (tt, (tt, tt)))))) in
      let written =
        sym (ok-injective _ bytes h₂)
        ∙ ap P.utf8
            (printed_object env.record_id (type_name env.type) nonce ciphertext env.aad env.ts) in
      let read : json_parse (F.utf8_decode bytes) ≡ ok object =
        ap (λ b. json_parse (F.utf8_decode b)) written
        ∙ ap json_parse
            (F.utf8_decode-utf8 (json_stringify object) (is_well_formed-json_stringify object kept))
        ∙ json_parse-json_stringify object kept in
      ap (λ r. or_not_json r >>= λ v. shaped v >>= λ fields. checked_envelope P F fields) read
      ∙ ap (λ r. r >>= λ fields. checked_envelope P F fields)
          (shaped-envelope_fields env.record_id (type_name env.type) nonce ciphertext env.aad
            env.ts)
      ∙ checked-printed env nonce ciphertext named bound
          (decoded-printed env nonce ciphertext made made' twelve enough)
