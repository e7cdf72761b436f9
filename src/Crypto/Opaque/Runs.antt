-- ===== src/Crypto/Opaque/Runs.antt =====
-- Calls that change a state and return or throw: the state after the call, and how it ended.
use fincrypt.Crypto.Errors.{Result, ok, err}

abbrev pub Run {ℓ} : Type 0 → Type ℓ → Type ℓ
Run State Value = State → State × Result Value

module _ {ℓ κ} {State : Type 0} {A : Type ℓ} {B : Type κ} where
  abbrev pub then_run : (A → Run State B) → State × Result A → State × Result B
  then_run rest (s, err e) = (s, err e)
  then_run rest (s, ok value) = rest value s

  infixl 5 ◌>>=◌
  abbrev pub ◌>>=◌ : Run State A → (A → Run State B) → Run State B
  (call >>= rest) s = then_run rest (call s)

abbrev pub pure {ℓ} : {State : Type 0} {A : Type ℓ} → A → Run State A
pure value s = (s, ok value)

abbrev pub lift {ℓ} : {State : Type 0} {A : Type ℓ} → Result A → Run State A
lift result s = (s, result)
