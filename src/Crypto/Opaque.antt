-- ===== src/Crypto/Opaque.antt =====
-- web/src/crypto/opaque.ts: registration and login over a transport. The package
-- @serenity-kit/opaque is a parameter; the coins that it tosses are an argument.
pub mod Runs
pub mod MockServer
pub mod Login
pub mod Toy
pub mod Tests
use fincrypt.Prelude.{
  if◌then◌else◌, ℕ, Bool, true, false, not, ◌||◌, Option, none, some, List, Str, codes, length,
  ◌==◌, ◌≡◌, ◌≢◌, trim, includes,
}
use fincrypt.Prelude.Json.{Json, null, text, Fields, end, field}
use fincrypt.Crypto.Errors.{Result, ok, err, plain_error, throw_if}
use fincrypt.Crypto.Platform.{Platform}
use fincrypt.Crypto.Kdf.{type_error, property}
use fincrypt.Crypto.Opaque.Runs.{Run, pure, lift, ◌>>=◌}
use fincrypt.Api.Client.{is_truthy}

-- What `client.finishLogin` returns.
pub record LoginKeys : Type 0 where
  pub finish_login_request : Str
  pub export_key : Str
  pub session_key : Str
  pub server_static_public_key : Str

-- The calls of the package. Its states and messages are texts in base64.
pub record Opaque : Type 0 where
  -- client.startRegistration: the client's state and the request
  pub start_registration : (coins : List ℕ) (password : Str) → Str × Str
  -- client.finishRegistration: from state and response the record and the export key
  pub finish_registration : (state response password : Str) → Result (Str × Str)
  -- client.startLogin
  pub start_login : (coins : List ℕ) (password : Str) → Str × Str
  -- client.finishLogin; `none` is the `undefined` of a failed login
  pub finish_login : (state response password : Str) → Result (Option LoginKeys)
  -- server.createRegistrationResponse
  pub create_registration_response : (setup user request : Str) → Result Str
  -- server.startLogin, without a record for an unknown user
  pub respond_login :
      (setup : Str) (record' : Option Str) (user request : Str) → Result (Option Str)

-- What RFC 9807 promises of a run in which both sides follow the protocol, under one server setup.
pub record IsOpaque (O : Opaque) : Type 0 where
  pub response_of : (setup user : Str) (coins : List ℕ) (password : Str) → Str
  pub registers :
      (setup user : Str) (coins : List ℕ) (password : Str)
      → O.create_registration_response setup user (O.start_registration coins password).1
        ≡ ok (response_of setup user coins password)
  -- the answer of the server to a login, with or without a record
  pub challenge_of : (setup : Str) (record' : Option Str) (user request : Str) → Str
  pub challenges :
      (setup : Str) (record' : Option Str) (user request : Str)
      → O.respond_login setup record' user request
        ≡ ok (some (challenge_of setup record' user request))
  pub logs_in :
      (setup user : Str) (coins coins' : List ℕ) (password record' key : Str)
      → O.finish_registration
          (O.start_registration coins password).0
          (response_of setup user coins password)
          password
        ≡ ok (record', key)
      → (keys : LoginKeys) × (O.finish_login
            (O.start_login coins' password).0
            (challenge_of setup (some record') user (O.start_login coins' password).1)
            password
          ≡ ok (some keys))
        × (keys.export_key ≡ key)
  pub rejects :
      (setup user : Str) (coins coins' : List ℕ) (password other record' key : Str)
      → O.finish_registration
          (O.start_registration coins password).0
          (response_of setup user coins password)
          password
        ≡ ok (record', key)
      → other ≢ password
      → O.finish_login
          (O.start_login coins' other).0
          (challenge_of setup (some record') user (O.start_login coins' other).1)
          other
        ≡ ok none
  pub rejects_fake :
      (setup user : Str) (coins' : List ℕ) (password : Str)
      → O.finish_login
          (O.start_login coins' password).0
          (challenge_of setup none user (O.start_login coins' password).1)
          password
        ≡ ok none

-- `Transport`: an object with a state of its own.
pub record Transport : Type 1 where
  pub State : Type 0
  pub post : (path : Str) (body : Fields) → Run State Json

pub record RegistrationResult : Type 0 where
  pub user_identifier : Str
  pub export_key : Str

pub record LoginResult : Type 0 where
  pub export_key : Str
  pub session_key : Str
  pub server_static_public_key : Str

-- A property that the types declare as a text; the package throws at anything else.
abbrev pub a_text : Option Json → Result Str
a_text (some (text s)) = ok s
a_text _ = err type_error

-- `null` and what is not there are one for `== null`.
abbrev pub text_or_null : Option Json → Result (Option Str)
text_or_null none = ok none
text_or_null (some null) = ok none
text_or_null (some (text s)) = ok (some s)
text_or_null _ = err type_error

-- if (!x)
abbrev pub truthy_property : Option Json → Bool
truthy_property none = false
truthy_property (some v) = is_truthy v

-- The bodies: the message under its name, and the identifier.
abbrev pub body_of : (name message user : Str) → Fields
body_of name message user =
    field name (text message) (field (codes "userIdentifier") (text user) end)

module _ (P : Platform) where
  unfoldable pub canonical_user_identifier : Str → Result Str
  canonical_user_identifier email = check (P.to_lower (trim email))
    where
      check : Str → Result Str
      check normalized =
          if (length normalized == 0) || not (includes b'@' normalized)
          then err (plain_error (codes "opaque: userIdentifier must be a non-empty email"))
          else ok normalized

  module _ (O : Opaque) (T : Transport) where
    unfoldable pub register :
        (coins : List ℕ) (email password : Str) → Run T.State RegistrationResult
    register coins email password = do
      user ← lift (canonical_user_identifier email)
      let (state, request) = O.start_registration coins password
      reply ←
          T.post (codes "/api/auth/register/start")
            (body_of (codes "registrationRequest") request user)
      response_property ← lift (property (codes "registrationResponse") reply)
      response ← lift (a_text response_property)
      (record', key) ← lift (O.finish_registration state response password)
      _ ←
          T.post (codes "/api/auth/register/finish")
            (body_of (codes "registrationRecord") record' user)
      pure (record { user_identifier = user; export_key = key })

    -- From the reply to the last message on.
    abbrev accepted : LoginKeys → Option Json → Option LoginResult
    accepted keys reply =
        if truthy_property reply
        then some (record {
          export_key = keys.export_key;
          session_key = keys.session_key;
          server_static_public_key = keys.server_static_public_key;
        })
        else none

    -- From the package's result on.
    abbrev conclude : (user : Str) → Option LoginKeys → Run T.State (Option LoginResult)
    conclude user none = pure none
    conclude user (some keys) = do
      reply ←
          T.post (codes "/api/auth/login/finish")
            (body_of (codes "finishLoginRequest") keys.finish_login_request user)
      answer ← lift (property (codes "ok") reply)
      pure (accepted keys answer)

    -- From the server's answer on.
    abbrev answer : (user state password : Str) → Option Str → Run T.State (Option LoginResult)
    answer user state password none = pure none
    answer user state password (some response) = do
      keys ← lift (O.finish_login state response password)
      conclude user keys

    unfoldable pub login :
        (coins : List ℕ) (email password : Str) → Run T.State (Option LoginResult)
    login coins email password = do
      user ← lift (canonical_user_identifier email)
      let (state, request) = O.start_login coins password
      reply ←
          T.post (codes "/api/auth/login/start") (body_of (codes "startLoginRequest") request user)
      response_property ← lift (property (codes "loginResponse") reply)
      response ← lift (text_or_null response_property)
      answer user state password response
