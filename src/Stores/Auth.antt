-- ===== src/Stores/Auth.antt =====
-- web/src/stores/authStore.ts: the status of the session, and what `refresh`, `logout`,
-- `markUnlocked` and `clearError` make of it. What the requests come to is an argument.
pub mod Attempts
pub mod Register
pub mod Login
pub mod Machine
pub mod Entry
pub mod Released
use fincrypt.Prelude.{Bool, false, Option, none, some, Str, codes, str_eq, ◌==◌, if◌then◌else◌}
use fincrypt.Prelude.Json.{Json, text}
use fincrypt.Crypto.Errors.{Fault, crypto_error, plain_error}
use fincrypt.Api.Client.{ApiError, Outcome, answered, refused, failed, logout}

pub data AuthStatus : Type 0 where
  anonymous locked unlocked : AuthStatus

pub record AuthState : Type 0 where
  pub status : AuthStatus
  pub email : Option Str
  pub user_id : Option Str
  pub busy : Bool
  pub error : Option Json

-- What `getMe` answers with.
pub record Me : Type 0 where
  pub user_id : Str
  pub email : Str

unfoldable pub anonymous_state : AuthState
anonymous_state = record {
  status = anonymous;
  email = none;
  user_id = none;
  busy = false;
  error = none;
}

-- The status after a refresh that was answered.
abbrev pub kept_status : AuthStatus → AuthStatus
kept_status unlocked = unlocked
kept_status _ = locked

-- `none` is a `getMe` that throws.
unfoldable pub refresh : Option Me → AuthState → AuthState
refresh none s = record s { status = anonymous; email = none; user_id = none }
refresh (some me) s = record s {
  status = kept_status s.status;
  email = some me.email;
  user_id = some me.user_id;
}

-- The store after the request of `apiLogout` came to an outcome: a throw leaves it as it is.
abbrev pub after_logout : Outcome → AuthState → AuthState
after_logout (answered v) s = record s { status = anonymous; email = none; user_id = none }
after_logout (refused e) s = s
after_logout (failed e) s = s

unfoldable pub log_out : Outcome → AuthState → AuthState
log_out request s = after_logout (logout request) s

unfoldable pub mark_unlocked : AuthState → AuthState
mark_unlocked s = record s { status = unlocked }

unfoldable pub clear_error : AuthState → AuthState
clear_error s = record s { error = none }

abbrev pub authentication_failed : Json
authentication_failed = text (codes "Authentication failed — check your email and passphrase.")

abbrev pub something_wrong : Json
something_wrong = text (codes "Something went wrong — please try again.")

abbrev pub fault_message : Str → Json
fault_message message =
    if str_eq message (codes "invalid credentials") then authentication_failed else something_wrong

-- authErrorMessage
abbrev pub api_error_message : ApiError → Json
api_error_message e =
    if e.status == 409
    then text (codes "An account with this email already exists.")
    else if e.status == 401
    then authentication_failed
    else if e.status == 429
    then text (codes "Too many attempts — wait a minute and try again.")
    else e.message

abbrev pub is_invalid_credentials : Json → Bool
is_invalid_credentials (text m) = str_eq m (codes "invalid credentials")
is_invalid_credentials _ = false

abbrev pub refusal_message : ApiError → Json
refusal_message e =
    if is_invalid_credentials e.message then authentication_failed else api_error_message e

abbrev pub fault_error_message : Fault → Json
fault_error_message (crypto_error code message) = fault_message message
fault_error_message (plain_error message) = fault_message message
