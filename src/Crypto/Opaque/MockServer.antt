-- ===== src/Crypto/Opaque/MockServer.antt =====
-- web/src/crypto/mockOpaqueServer.ts.
use fincrypt.Prelude.{
  true, Option, none, some, List, [], ◌∷◌, ◌++◌, Str, codes, str_eq, if◌then◌else◌, lookup, upsert,
}
use fincrypt.Prelude.Json.{Json, null, bool, text, obj, Fields, end, field, lookup_field}
use fincrypt.Crypto.Errors.{Result, ok, err, plain_error, ◌>>=◌}
use fincrypt.Crypto.Opaque.{Opaque, Transport}

pub record MockServer : Type 0 where
  pub records : List (Str × Str)
  pub wire_log : List (Str × Fields)

-- req.name ?? ''
abbrev pub text_of : Str → Fields → Str
text_of name body = or_empty (lookup_field name body)
  where
    or_empty : Option Json → Str
    or_empty (some (text s)) = s
    or_empty _ = []

abbrev pub or_null : Option Str → Json
or_null none = null
or_null (some s) = text s

abbrev pub ok_reply : Json
ok_reply = obj (field (codes "ok") (bool true) end)

abbrev pub user_of : Fields → Str
user_of body = text_of (codes "userIdentifier") body

module _ (O : Opaque) (setup : Str) where
  abbrev pub answer_registration : Fields → Result Json
  answer_registration body = do
    response ←
        O.create_registration_response setup (user_of body)
          (text_of (codes "registrationRequest") body)
    ok (obj (field (codes "registrationResponse") (text response) end))

  abbrev pub answer_login : Option Str → Fields → Result Json
  answer_login record' body = do
    response ←
        O.respond_login setup record' (user_of body) (text_of (codes "startLoginRequest") body)
    ok (obj (field (codes "loginResponse") (or_null response) end))

  -- The `switch` over the path.
  abbrev pub handle : Str → Fields → MockServer → MockServer × Result Json
  handle path body m =
      if str_eq path (codes "/api/auth/register/start")
      then (m, answer_registration body)
      else if str_eq path (codes "/api/auth/register/finish")
      then (
        record m {
          records =
              upsert (λ old. text_of (codes "registrationRecord") body) (user_of body) m.records;
        },
        ok ok_reply,
      )
      else if str_eq path (codes "/api/auth/login/start")
      then (m, answer_login (lookup (user_of body) m.records) body)
      else if str_eq path (codes "/api/auth/login/finish")
      then (m, ok ok_reply)
      else (m, err (plain_error (codes "mockOpaqueServer: unknown path " ++ path)))

  unfoldable pub post : Str → Fields → MockServer → MockServer × Result Json
  post path body m = handle path body (record m { wire_log = m.wire_log ++ (path, body) ∷ [] })

  abbrev pub mock_server : Transport
  mock_server = record { State = MockServer; post = post }
