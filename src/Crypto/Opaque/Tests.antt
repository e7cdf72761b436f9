-- ===== src/Crypto/Opaque/Tests.antt =====
-- Runs of registration and login against the mock server, with a concrete package.
use fincrypt.Prelude.{upsert}
use fincrypt.Prelude.{lookup}
use fincrypt.Prelude.Json.{lookup_field}
use fincrypt.Prelude.{str_eq}
use fincrypt.Crypto.Opaque.MockServer.{post}
use fincrypt.Prelude.{includes}
use fincrypt.Prelude.{trim}
use fincrypt.Crypto.Opaque.{canonical_user_identifier}
use fincrypt.Prelude.{[], Str, codes, ◌≡◌, refl, none, some}
use fincrypt.Crypto.Errors.{Result, ok, err}
use fincrypt.Crypto.Toy.{toy}
use fincrypt.Crypto.Opaque.{RegistrationResult, LoginResult, register, login}
use fincrypt.Crypto.Opaque.MockServer.{MockServer, mock_server}
use fincrypt.Crypto.Opaque.Toy.{toy_opaque, toy_opaque-IsOpaque}
use fincrypt.Crypto.Opaque.Login.{login-register}

abbrev setup : Str
setup = codes "setup"

abbrev empty : MockServer
empty = record { records = []; wire_log = [] }

abbrev done_or : Result RegistrationResult → RegistrationResult
done_or (ok r) = r
done_or (err e) = record { user_identifier = []; export_key = [] }

abbrev registered : MockServer × Result RegistrationResult
registered =
    register toy toy_opaque (mock_server toy_opaque setup) [] (codes "Anna@x") (codes "pass") empty

login-register_example :
    ((keys : LoginResult) × ((login toy toy_opaque
          (mock_server toy_opaque setup)
          []
          (codes " anna@X")
          (codes "pass")
          registered.0).1
        ≡ ok (some keys))
      × (keys.export_key ≡ (done_or registered.1).export_key))
    × ((login toy toy_opaque
          (mock_server toy_opaque setup)
          []
          (codes " anna@X")
          (codes "guess")
          registered.0).1
        ≡ ok none)
    × ((login toy toy_opaque
          (mock_server toy_opaque setup)
          []
          (codes "ben@x")
          (codes "pass")
          registered.0).1
        ≡ ok none)
unfolding toy register canonical_user_identifier trim includes post str_eq lookup_field lookup
    upsert
login-register_example =
    login-register toy toy_opaque toy_opaque-IsOpaque setup empty registered.0 [] []
      (codes "Anna@x") (codes " anna@X") (codes "pass") (codes "guess") (done_or registered.1) refl
      refl refl (λ same. cc) (codes "ben@x") (codes "ben@x") refl refl
