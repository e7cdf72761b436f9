-- ===== src/Crypto/Kdf/Params.antt =====
-- web/src/crypto/kdf.ts.
-- What `parseKdfParams` accepts.
use fincrypt.Prelude.{
  str_eq, false, decimal, is_low_surrogate, is_high_surrogate, pos, not, ◌^◌, ◌*◌, ◌≤◌, ◌<◌, ◌≡◌,
  refl, arith, Str, codes, some, ◌*ℤ◌, Option,
}
use fincrypt.Prelude.Json.Quote.{quoted}
use fincrypt.Crypto.Json.{json_parse, json_parse-json_stringify}
use fincrypt.Prelude.Json.Text.RoundTrip.{IsKept}
use fincrypt.Prelude.Json.Text.{json_stringify}
use fincrypt.Prelude.Json.{Json, int, lookup_field}
use fincrypt.Crypto.Errors.{throw_if, invalid_params_error, ok, >>=-eq_ok}
use fincrypt.Crypto.Platform.{Platform}
use fincrypt.Crypto.Kdf.{
  out_of_range, params_object, is_text, is_int, or_invalid_json, KdfParams, checked_params,
  property, parse_kdf_params, serialize_kdf_params, default_kdf_params,
}

checked_params_bounds :
    (m t p : Option Json) (params : KdfParams)
    → checked_params m t p ≡ ok params
    → (8 * params.p ≤ params.m) × (1 ≤ params.t) × (1 ≤ params.p) × (params.p < 2 ^ 24)
unfolding ◌*ℤ◌
checked_params_bounds (some (int m)) (some (int t)) (some (int p)) params h = ground arith
checked_params_bounds m t p params h = cc

serialize_default :
    serialize_kdf_params default_kdf_params
    ≡ codes "{\"alg\":\"argon2id\",\"version\":19,\"m\":65536,\"t\":3,\"p\":4}"
unfolding serialize_kdf_params quoted is_high_surrogate is_low_surrogate decimal
serialize_default = refl

pub default_in_range :
    out_of_range (pos default_kdf_params.m) (pos default_kdf_params.t) (pos default_kdf_params.p)
    ≡ false
unfolding ◌*ℤ◌
default_in_range = refl

module _ (P : Platform) where
  -- Parameters that `parseKdfParams` returns have a memory of at least eight blocks for each lane, at
  -- least one pass and one lane, and fewer than 2^24 lanes.
  pub parse_kdf_params_bounds :
      (json : Str) (params : KdfParams)
      → parse_kdf_params P json ≡ ok params
      → (8 * params.p ≤ params.m) × (1 ≤ params.t) × (1 ≤ params.p) × (params.p < 2 ^ 24)
  unfolding parse_kdf_params
  parse_kdf_params_bounds json params h =
      let (v, _, h₁) = >>=-eq_ok (or_invalid_json (json_parse json)) _ h in
      let (alg, _, h₂) = >>=-eq_ok (property (codes "alg") v) _ h₁ in
      let (_, _, h₃) =
        >>=-eq_ok
          (throw_if (not (is_text (codes "argon2id") alg))
            (invalid_params_error (codes "kdf params: unknown alg")))
          _ h₂ in
      let (version, _, h₄) = >>=-eq_ok (property (codes "version") v) _ h₃ in
      let (_, _, h₅) =
        >>=-eq_ok
          (throw_if (not (is_int (pos 19) version))
            (invalid_params_error (codes "kdf params: unsupported version")))
          _ h₄ in
      let (m, _, h₆) = >>=-eq_ok (property (codes "m") v) _ h₅ in
      let (t, _, h₇) = >>=-eq_ok (property (codes "t") v) _ h₆ in
      let (p, _, h₈) = >>=-eq_ok (property (codes "p") v) _ h₇ in
      checked_params_bounds m t p params h₈

  -- Parameters in the range are what their text is parsed to.
  pub parse_kdf_params-serialize_kdf_params :
      (params : KdfParams)
      → out_of_range (pos params.m) (pos params.t) (pos params.p) ≡ false
      → parse_kdf_params P (serialize_kdf_params params) ≡ ok params
  unfolding parse_kdf_params serialize_kdf_params lookup_field str_eq IsKept
  parse_kdf_params-serialize_kdf_params params fits =
      rw (json_parse-json_stringify (params_object params) (tt, (tt, (tt, (tt, (tt, tt))))), fits)
        refl

  -- What a text of the default parameters is parsed to.
  pub parse_kdf_params-object :
      parse_kdf_params P (json_stringify (params_object default_kdf_params)) ≡ ok default_kdf_params
  unfolding serialize_kdf_params
  parse_kdf_params-object =
      parse_kdf_params-serialize_kdf_params default_kdf_params default_in_range
