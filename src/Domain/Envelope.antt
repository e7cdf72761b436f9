-- ===== src/Domain/Envelope.antt =====
-- web/src/crypto/envelope.ts: the printer and the strict parser.
pub mod Bounds
pub mod RoundTrip
use fincrypt.Crypto.Json.{json_parse}
use fincrypt.Prelude.Json.Text.{json_stringify}
use fincrypt.Prelude.{
  sym, ap, ◌∙◌, ◌++◌, join, ◌<◌, ◌≤◌, ◌≡◌, subst, arith, String, ℕ, Bool, true, false, Option, none,
  some, List, [], ◌∷◌, Str, codes, length, ltb, not, ◌==◌, ◌&&◌, ◌||◌, str_eq, if◌then◌else◌,
}
use fincrypt.Prelude.Json.{Json, null, text, obj, Fields, end, field, lookup_field}
use fincrypt.Crypto.Errors.{
  throw_if-eq_ok, >>=-eq_ok, ok-injective, Fault, Result, ok, err, invalid_envelope_error, throw_if,
  ◌>>=◌, ◌>>◌,
}
use fincrypt.Crypto.Platform.{Platform}
use fincrypt.Domain.Formats.{Formats}
use fincrypt.Domain.Vault.{to_b64, from_b64}
use fincrypt.Crypto.Aead.{type_name, RecordType, transactions, attachments, chat, accounts, vault}
use fincrypt.Crypto.Kdf.{type_error}

pub record Envelope : Type 0 where
  pub record_id : Str
  pub type : RecordType
  pub nonce : List ℕ
  pub ciphertext : List ℕ
  pub aad : Str
  pub ts : Str

abbrev pub envelope_keys : List Str
envelope_keys =
    codes "record_id"
    ∷ codes "type"
    ∷ codes "nonce"
    ∷ codes "ciphertext"
    ∷ codes "aad"
    ∷ codes "ts"
    ∷ []

pub is_among : Str → List Str → Bool
is_among k [] = false
is_among k (j ∷ keys) = str_eq j k || is_among k keys

-- Object.keys: each name once.
pub keys_of : Fields → List Str
unfolding is_among
keys_of end = []
keys_of (field k v fields) = let rest = keys_of fields in if is_among k rest then rest else k ∷ rest

pub all_in : List Str → List Str → Bool
unfolding is_among
all_in [] keys = true
all_in (k ∷ wanted) keys = is_among k keys && all_in wanted keys

abbrev pub shape_error : Fault
shape_error = invalid_envelope_error (codes "envelope fields do not match the v1 shape")

-- The test of the keys: `in` throws at a text.
abbrev pub shaped : Json → Result Fields
shaped (obj fields) =
    if (length (keys_of fields) == 6) && all_in envelope_keys (keys_of fields)
    then ok fields
    else err shape_error
shaped null = err type_error
shaped (text s) = if length s == 6 then err type_error else err shape_error
shaped _ = err shape_error

abbrev pub text_field : Str → String → Fields → Result Str
text_field name message fields = text_or (lookup_field name fields)
  where
    text_or : Option Json → Result Str
    text_or (some (text s)) = ok s
    text_or _ = err (invalid_envelope_error (codes message))

abbrev pub type_of_name : Str → Option RecordType
type_of_name s =
    if str_eq s (codes "transactions")
    then some transactions
    else if str_eq s (codes "attachments")
    then some attachments
    else if str_eq s (codes "chat")
    then some chat
    else if str_eq s (codes "accounts")
    then some accounts
    else if str_eq s (codes "vault")
    then some vault
    else none

abbrev pub known_type : Option RecordType → Result RecordType
known_type none = err (invalid_envelope_error (codes "envelope type unknown"))
known_type (some type) = ok type

abbrev pub or_not_json : Result Json → Result Json
or_not_json (ok v) = ok v
or_not_json (err _) = err (invalid_envelope_error (codes "envelope is not valid JSON"))

-- What the texts of an envelope are in JSON: each key with its value, in a fixed order.
abbrev member_text : String → Str → Str
member_text key value =
    json_stringify (text (codes key)) ++ (codes ":" ++ json_stringify (text value))

module _ (P : Platform) (F : Formats P) where
  -- From the decoding of the two byte strings on.
  unfoldable pub decoded_envelope :
      (record_id : Str) (type : RecordType) (aad ts nonce ciphertext : Str) → Result Envelope
  decoded_envelope record_id type aad ts nonce ciphertext = do
    nonce_bytes ← from_b64 P F nonce
    throw_if (not (length nonce_bytes == 12))
        (invalid_envelope_error (codes "envelope nonce must be 12 bytes"))
    ct_bytes ← from_b64 P F ciphertext
    throw_if (ltb (length ct_bytes) 16)
        (invalid_envelope_error (codes "envelope ciphertext too short"))
    ok (record {
      record_id = record_id;
      type = type;
      nonce = nonce_bytes;
      ciphertext = ct_bytes;
      aad = aad;
      ts = ts;
    })

  -- From the tests of the fields on.
  unfoldable pub checked_envelope : Fields → Result Envelope
  checked_envelope fields = do
    record_id ← text_field (codes "record_id") "envelope record_id missing" fields
    throw_if (length record_id == 0) (invalid_envelope_error (codes "envelope record_id missing"))
    name ← text_field (codes "type") "envelope type unknown" fields
    type ← known_type (type_of_name name)
    aad ← text_field (codes "aad") "envelope aad missing" fields
    throw_if (length aad == 0) (invalid_envelope_error (codes "envelope aad missing"))
    ts ← text_field (codes "ts") "envelope ts missing" fields
    nonce ← text_field (codes "nonce") "envelope nonce missing" fields
    ciphertext ← text_field (codes "ciphertext") "envelope ciphertext missing" fields
    decoded_envelope record_id type aad ts nonce ciphertext

  unfoldable pub parse_envelope : List ℕ → Result Envelope
  unfolding keys_of all_in
  parse_envelope bytes = do
    v ← or_not_json (json_parse (F.utf8_decode bytes))
    fields ← shaped v
    checked_envelope fields

  unfoldable pub serialize_envelope : Envelope → Result (List ℕ)
  serialize_envelope env = do
    nonce ← to_b64 P F env.nonce
    ciphertext ← to_b64 P F env.ciphertext
    let parts =
        member_text "record_id" env.record_id
        ∷ member_text "type" (type_name env.type)
        ∷ member_text "nonce" nonce
        ∷ member_text "ciphertext" ciphertext
        ∷ member_text "aad" env.aad
        ∷ member_text "ts" env.ts
        ∷ []
    ok (P.utf8 (codes "{" ++ (join (codes ",") parts ++ codes "}")))
