-- ===== src/Crypto/Errors.antt =====
-- web/src/crypto/errors.ts: the typed crypto errors, and what a call returns or throws.
use fincrypt.Prelude.{◌⊎◌, inl, inr, refl, Str, codes, ◌≡◌, Bool, true, false}

pub data CryptoErrorCode : Type 0 where
  decryption_failed invalid_input invalid_params invalid_phrase invalid_key wrap_failed
        invalid_envelope locked not_supported :
      CryptoErrorCode

-- What can be thrown: a `CryptoError` or a subclass of it, by its code and message, or a plain
-- `Error` with its message.
pub data Fault : Type 0 where
  crypto_error : CryptoErrorCode → Str → Fault
  plain_error : Str → Fault

abbrev pub decrypt_error : Fault
decrypt_error = crypto_error decryption_failed (codes "decryption failed")

abbrev pub invalid_params_error : Str → Fault
invalid_params_error message = crypto_error invalid_params message

abbrev pub wrap_error : Str → Fault
wrap_error message = crypto_error wrap_failed message

abbrev pub invalid_envelope_error : Str → Fault
invalid_envelope_error message = crypto_error invalid_envelope message

-- `asDecryptError`: whatever was thrown, the one generic failure.
abbrev pub as_decrypt_error : Fault → Fault
as_decrypt_error _ = decrypt_error

-- How a call ends: `err` is a throw.
pub data Result {ℓ} (Value : Type ℓ) : Type ℓ where
  err : Fault → Result Value
  ok : Value → Result Value

module _ {ℓ κ} {A : Type ℓ} {B : Type κ} where
  infixl 5 ◌>>=◌
  -- The throw of a call is the throw of what goes on with its value.
  abbrev pub ◌>>=◌ : (call : Result A) (rest : A → Result B) → Result B
  err fault >>= rest = err fault
  ok value >>= rest = rest value

  -- What goes on returned, so the call did.
  pub >>=-eq_ok :
      (call : Result A) (rest : A → Result B) {result : B}
      → (call >>= rest) ≡ ok result
      → (value : A) × (call ≡ ok value) × (rest value ≡ ok result)
  >>=-eq_ok (err fault) rest h = cc
  >>=-eq_ok (ok value) rest h = (value, refl, h)

infixl 5 ◌>>◌
abbrev pub ◌>>◌ {κ} : {B : Type κ} (check : Result (Unit {0})) (rest : Result B) → Result B
check >> rest = check >>= λ passed. rest

-- `if (bad) throw e`
abbrev pub throw_if : Bool → Fault → Result (Unit {0})
throw_if true e = err e
throw_if false e = ok tt

-- A check that does not throw has passed.
pub throw_if-eq_ok : (bad : Bool) (e : Fault) {u : Unit {0}} → throw_if bad e ≡ ok u → bad ≡ false
throw_if-eq_ok true e h = cc
throw_if-eq_ok false e h = refl

pub Result-cases {ℓ} :
    {A : Type ℓ} (r : Result A) → ((a : A) × (r ≡ ok a)) ⊎ ((e : Fault) × (r ≡ err e))
Result-cases (ok a) = inl (a, refl)
Result-cases (err e) = inr (e, refl)

pub ok-injective {ℓ} : {A : Type ℓ} (a b : A) → ok a ≡ ok b → a ≡ b
ok-injective a b h = cc
