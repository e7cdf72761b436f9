-- ===== src/Crypto/Aead.antt =====
-- web/src/crypto/aead.ts: AES-256-GCM with mandatory associated data. The nonce that the code
-- draws from `crypto.getRandomValues` is an argument.
pub mod Binding
pub mod Opening
use fincrypt.Prelude.{
  decimal, ℕ, ◌+◌, ◌≡◌, Bool, ◌||◌, not, Option, none, some, List, [], ◌++◌, Str, codes, String,
  length, take, drop, leb, ◌==◌, if◌then◌else◌, includes,
}
use fincrypt.Crypto.Errors.{
  Result, ok, err, plain_error, decrypt_error, as_decrypt_error, throw_if, ◌>>=◌, ◌>>◌,
}
use fincrypt.Crypto.Platform.{Platform}

abbrev pub nonce_bytes : ℕ
nonce_bytes = 12

-- `RecordType`. An argument of the type is one of these, so the test against `RECORD_TYPES` in
-- `buildAad` always passes.
pub data RecordType : Type 0 where
  transactions attachments chat accounts vault : RecordType

abbrev pub type_name : RecordType → Str
type_name transactions = codes "transactions"
type_name attachments = codes "attachments"
type_name chat = codes "chat"
type_name accounts = codes "accounts"
type_name vault = codes "vault"

-- part.length === 0 || part.includes('|')
abbrev pub bad_component : Str → Bool
bad_component part = length part == 0 || includes b'|' part

abbrev pub bad_component_error : String
bad_component_error = "aead: invalid AAD component (empty or contains '|')"

-- `v1|${userId}|${recordType}|${recordId}`
abbrev pub aad_text : Str → RecordType → Str → Str
aad_text user_id record_type record_id =
    codes "v1|" ++ (user_id ++ (codes "|" ++ (type_name record_type ++ (codes "|" ++ record_id))))

-- try { … } catch { throw new DecryptError() }
abbrev pub opened_or_throw : Option (List ℕ) → Result (List ℕ)
opened_or_throw none = err decrypt_error
opened_or_throw (some plaintext) = ok plaintext

module _ (P : Platform) where
  open P use {CryptoKey, import_key, gcm_seal, gcm_open, utf8}

  unfoldable pub build_aad : Str → RecordType → Str → Result (List ℕ)
  build_aad user_id record_type record_id = do
    throw_if (bad_component user_id) (plain_error (codes bad_component_error))
    throw_if (bad_component record_id) (plain_error (codes bad_component_error))
    ok (utf8 (aad_text user_id record_type record_id))

  unfoldable pub encrypt_bytes : CryptoKey → List ℕ → List ℕ → List ℕ → Result (List ℕ)
  encrypt_bytes key nonce plaintext aad = do
    throw_if (length aad == 0) (plain_error (codes "aead: AAD is mandatory"))
    ok (nonce ++ gcm_seal key nonce aad plaintext)

  unfoldable pub decrypt_bytes : CryptoKey → List ℕ → List ℕ → Result (List ℕ)
  decrypt_bytes key packed aad = do
    throw_if (length aad == 0) (plain_error (codes "aead: AAD is mandatory"))
    throw_if (leb (length packed) nonce_bytes) (as_decrypt_error (plain_error (codes "short")))
    opened_or_throw (gcm_open key (take nonce_bytes packed) aad (drop nonce_bytes packed))

  unfoldable pub import_aes_key : List ℕ → Result CryptoKey
  import_aes_key raw = do
    throw_if (not (length raw == 32)) (
        plain_error
          (codes "aead: key must be 32 bytes (got " ++ (decimal (length raw) ++ codes ")")))
    ok (import_key raw)
