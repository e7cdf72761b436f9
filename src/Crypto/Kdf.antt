-- ===== src/Crypto/Kdf.antt =====
-- web/src/crypto/kdf.ts: the Argon2id parameters and the passphrase key. The salt that the code draws
-- is an argument.
pub mod Params
use fincrypt.Prelude.Json.Text.{json_stringify}
use fincrypt.Crypto.Json.{json_parse}
use fincrypt.Prelude.Json.{field, end, int, text, obj, Json, null, lookup_field}
use fincrypt.Prelude.{
  decimal, false, ℕ, zero, suc, ◌+◌, ◌/◌, ◌%◌, ◌&&◌, ◌||◌, not, Bool, Option, none, some, List, [],
  ◌∷◌, ◌++◌, Str, codes, String, length, ltb, ◌==◌, if◌then◌else◌, ℤ, pos, pos_part, ltb_ℤ, ◌*ℤ◌,
  str_eq,
}
use fincrypt.Crypto.Errors.{
  Fault, plain_error, Result, ok, err, invalid_params_error, throw_if, ◌>>=◌, ◌>>◌,
}
use fincrypt.Crypto.Platform.{Platform}
use fincrypt.Crypto.Aead.{import_aes_key}

-- `alg` and `version` have one value each in the type, so the numbers alone are kept.
pub record KdfParams : Type 0 where
  pub m : ℕ
  pub t : ℕ
  pub p : ℕ

abbrev pub default_kdf_params : KdfParams
default_kdf_params = record { m = 65536; t = 3; p = 4 }

-- A `KdfParams` as an object.
abbrev pub params_object : KdfParams → Json
params_object params = obj (
    field (codes "alg") (text (codes "argon2id")) (
      field (codes "version") (int (pos 19)) (
        field (codes "m") (int (pos params.m))
          (field (codes "t") (int (pos params.t)) (field (codes "p") (int (pos params.p)) end)))))

unfoldable pub serialize_kdf_params : KdfParams → Str
unfolding json_stringify
serialize_kdf_params p = json_stringify (params_object p)

-- A TypeError, such as reading a property of `null`; its message differs between engines.
abbrev pub type_error : Fault
type_error = plain_error (codes "TypeError")

-- The properties of a parsed value: none of a text, a number or an array that has no such name.
abbrev pub property : Str → Json → Result (Option Json)
property name null = err type_error
property name (obj fields) = ok (lookup_field name fields)
property name _ = ok none

abbrev pub is_text : Str → Option Json → Bool
is_text s (some (text t)) = str_eq t s
is_text s _ = false

abbrev pub is_int : ℤ → Option Json → Bool
is_int n (some (int m)) = not (ltb_ℤ m n) && not (ltb_ℤ n m)
is_int n _ = false

-- m < 8 * p || t < 1 || p < 1 || p > 2 ** 24 - 1
abbrev pub out_of_range : ℤ → ℤ → ℤ → Bool
out_of_range m t p =
    ltb_ℤ m (pos 8 *ℤ p) || ltb_ℤ t (pos 1) || ltb_ℤ p (pos 1) || ltb_ℤ (pos 16777215) p

abbrev pub range_error : Fault
range_error =
    invalid_params_error (codes "kdf params: out of range (m >= 8*p KiB, t >= 1, p in [1, 2^24))")

-- The last test of `parseKdfParams` and its return.
abbrev pub checked_params : Option Json → Option Json → Option Json → Result KdfParams
checked_params (some (int m)) (some (int t)) (some (int p)) =
    if out_of_range m t p
    then err range_error
    else ok (record { m = pos_part m; t = pos_part t; p = pos_part p })
checked_params _ _ _ = err range_error

-- try { JSON.parse(json) } catch { throw … }
abbrev pub or_invalid_json : Result Json → Result Json
or_invalid_json (ok v) = ok v
or_invalid_json (err _) = err (invalid_params_error (codes "kdf params are not valid JSON"))

module _ (P : Platform) where
  open P use {CryptoKey, utf8, argon2id}

  unfoldable pub parse_kdf_params : Str → Result KdfParams
  parse_kdf_params json = do
    v ← or_invalid_json (json_parse json)
    alg ← property (codes "alg") v
    throw_if (not (is_text (codes "argon2id") alg))
        (invalid_params_error (codes "kdf params: unknown alg"))
    version ← property (codes "version") v
    throw_if (not (is_int (pos 19) version))
        (invalid_params_error (codes "kdf params: unsupported version"))
    m ← property (codes "m") v
    t ← property (codes "t") v
    p ← property (codes "p") v
    checked_params m t p

  unfoldable pub argon2id_derive : Str → List ℕ → KdfParams → Bool → Result (List ℕ)
  argon2id_derive pass salt params allow_short_salt = do
    throw_if (ltb (length salt) 16 && not allow_short_salt)
        (invalid_params_error (codes "kdf: salt must be at least 16 bytes"))
    argon2id (utf8 pass) salt params.t params.p params.m

  abbrev pub import_kek : List ℕ → Result CryptoKey
  import_kek bytes = import_aes_key P bytes

  unfoldable pub derive_kek : Str → List ℕ → KdfParams → Result CryptoKey
  derive_kek pass salt params = do bytes ← argon2id_derive pass salt params false; import_kek bytes
