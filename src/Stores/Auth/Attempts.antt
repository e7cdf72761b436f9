-- ===== src/Stores/Auth/Attempts.antt =====
-- web/src/stores/authStore.ts: the calls of register and login, which end with a value or a throw, and
-- the message that the store shows for a throw.
use fincrypt.Prelude.{refl, ◌≡◌}
use fincrypt.Prelude.Json.{Json}
use fincrypt.Crypto.Errors.{Fault, Result, ok, err}
use fincrypt.Api.Client.{ApiError, Outcome, answered, refused, failed}
use fincrypt.Stores.Auth.{refusal_message, fault_error_message}

-- What a `catch` gets: an `ApiError`, or another error.
pub data Thrown : Type 0 where
  by_api : ApiError → Thrown
  by_fault : Fault → Thrown

pub data Attempt {ℓ} (Value : Type ℓ) : Type ℓ where
  threw : Thrown → Attempt Value
  done : Value → Attempt Value

module _ {ℓ κ} {A : Type ℓ} {B : Type κ} where
  infixl 5 ◌>>=◌
  abbrev pub ◌>>=◌ : Attempt A → (A → Attempt B) → Attempt B
  threw e >>= rest = threw e
  done value >>= rest = rest value

  -- Where the whole returned, so did its first part.
  pub >>=-eq_done :
      (attempt : Attempt A) (rest : A → Attempt B) {b : B}
      → (attempt >>= rest) ≡ done b
      → (value : A) × (attempt ≡ done value) × (rest value ≡ done b)
  >>=-eq_done (threw e) rest h = cc
  >>=-eq_done (done value) rest h = (value, refl, h)

abbrev pub lift {ℓ} : {A : Type ℓ} → Result A → Attempt A
lift (ok value) = done value
lift (err e) = threw (by_fault e)

pub lift-eq_done {ℓ} : {A : Type ℓ} (r : Result A) {a : A} → lift r ≡ done a → r ≡ ok a
lift-eq_done (ok value) h = cc
lift-eq_done (err e) h = cc

pub done-injective {ℓ} : {A : Type ℓ} (a b : A) → done a ≡ done b → a ≡ b
done-injective a b h = cc

-- A request by `apiFetch`.
abbrev pub attempt_of : Outcome → Attempt Json
attempt_of (answered v) = done v
attempt_of (refused e) = threw (by_api e)
attempt_of (failed e) = threw (by_fault e)

-- authErrorMessage
abbrev pub auth_error_message : Thrown → Json
auth_error_message (by_api e) = refusal_message e
auth_error_message (by_fault e) = fault_error_message e
