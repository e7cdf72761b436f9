-- ===== src/Api/Client.antt =====
-- web/src/api/client.ts, and `logout` of web/src/api/auth.ts. What `fetch` comes to is an argument.
use fincrypt.Prelude.{
  ℕ, Bool, true, false, Option, none, some, [], ◌++◌, codes, decimal, leb, ◌==◌, ◌&&◌,
  if◌then◌else◌, pos, zero,
}
use fincrypt.Prelude.Json.{Json, null, bool, int, text, obj}
use fincrypt.Crypto.Errors.{Fault, Result, ok, err, ◌>>=◌}
use fincrypt.Crypto.Kdf.{property}

-- `code` and `message` are passed on from the body as they stand there.
pub record ApiError : Type 0 where
  pub status : ℕ
  pub code : Json
  pub message : Json

-- `body` is what `res.json()` comes to.
pub record Response : Type 0 where
  pub status : ℕ
  pub body : Result Json

-- How `apiFetch` ends: with a value, an `ApiError`, or another throw.
pub data Outcome : Type 0 where
  answered : Json → Outcome
  refused : ApiError → Outcome
  failed : Fault → Outcome

-- res.ok
abbrev pub is_ok : ℕ → Bool
is_ok status = leb 200 status && leb status 299

-- a ?? b
abbrev pub value_or : Json → Option Json → Json
value_or default none = default
value_or default (some null) = default
value_or default (some v) = v

abbrev pub is_truthy : Json → Bool
is_truthy null = false
is_truthy (bool b) = b
is_truthy (int (pos zero)) = false
is_truthy (text []) = false
is_truthy _ = true

-- if (body.code) code = body.code
abbrev pub code_of_body : Json → Option Json → Json
code_of_body code none = code
code_of_body code (some v) = if is_truthy v then v else code

-- The code and the message that `body.error` gives.
abbrev pub from_error : Json → Json → Option Json → Result (Json × Json)
from_error code message (some (obj fields)) = do
  c ← property (codes "code") (obj fields)
  m ← property (codes "message") (obj fields)
  ok (value_or code c, value_or message m)
from_error code message (some (text s)) = ok (code, text s)
from_error code message _ = ok (code, message)

abbrev pub default_message : ℕ → Json
default_message status = text (codes "request failed with status " ++ decimal status)

-- The `try` over the body; a throw inside keeps the defaults.
abbrev pub read_body : ℕ → Result Json → Result (Json × Json)
read_body status body = do
  v ← body
  error ← property (codes "error") v
  (code, message) ← from_error (text (codes "unknown")) (default_message status) error
  own ← property (codes "code") v
  ok (code_of_body code own, message)

abbrev pub or_defaults : ℕ → Result (Json × Json) → Json × Json
or_defaults status (ok read) = read
or_defaults status (err e) = (text (codes "unknown"), default_message status)

abbrev pub error_of : Response → ApiError
error_of res =
    let (code, message) = or_defaults res.status (read_body res.status res.body) in
    record { status = res.status; code = code; message = message }

abbrev pub answer_of : Result Json → Outcome
answer_of (ok v) = answered v
answer_of (err e) = failed e

unfoldable pub api_fetch : Result Response → Outcome
api_fetch (err e) = failed e
api_fetch (ok res) = if is_ok res.status then answer_of res.body else refused (error_of res)

-- `logout`: the outcome of the request, where a 401 is as good as an answer.
unfoldable pub logout : Outcome → Outcome
logout (refused e) = if e.status == 401 then answered null else refused e
logout outcome = outcome
