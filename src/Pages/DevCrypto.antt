-- ===== src/Pages/DevCrypto.antt =====
-- web/src/pages/DevCrypto.tsx: the health check, as the states of its six steps. Their names, times and
-- details are left out; what is drawn at random is an argument.
pub mod Passes
use fincrypt.Prelude.{
  zero, ℕ, suc, Bool, true, false, not, List, [], ◌∷◌, Str, codes, length, ◌==◌, str_eq,
}
use fincrypt.Crypto.Errors.{Result, ok, err, plain_error, throw_if}
use fincrypt.Crypto.Platform.{Platform}
use fincrypt.Crypto.Aead.{transactions, chat, build_aad, encrypt_bytes, decrypt_bytes}
use fincrypt.Crypto.Kdf.{KdfParams, argon2id_derive, import_kek}
use fincrypt.Crypto.KeyHierarchy.{wrap_dek, unwrap_dek, derive_subkey}
use fincrypt.Crypto.Recovery.{wrap_dek_with_recovery, recover_dek}
use fincrypt.Crypto.Opaque.Runs.{Run, pure, lift, ◌>>=◌}
use fincrypt.Domain.Formats.{Formats}

pub data StepState : Type 0 where
  pending running pass fail : StepState

pub data Verdict : Type 0 where
  idle passed failed : Verdict

pub record Page : Type 0 where
  pub steps : List StepState
  pub is_running : Bool
  pub verdict : Verdict

abbrev pub test_params : KdfParams
test_params = record { m = 8192; t = 1; p = 1 }

abbrev pub initial_steps : List StepState
initial_steps = pending ∷ pending ∷ pending ∷ pending ∷ pending ∷ pending ∷ []

pub record Draws : Type 0 where
  pub salt : List ℕ
  pub dek : List ℕ
  pub mnemonic : Str
  pub wrap_nonce : List ℕ
  pub record_nonce : List ℕ
  pub recovery_nonce : List ℕ

-- setStep, of the state alone
abbrev pub set_step : ℕ → StepState → List StepState → List StepState
set_step i state [] = []
set_step zero state (x ∷ steps) = state ∷ steps
set_step (suc i) state (x ∷ steps) = x ∷ set_step i state steps

abbrev pub mark : ℕ → Run (List StepState) (Unit {0})
mark i steps = (set_step i pass steps, ok tt)

-- if (bad) throw new Error(message)
abbrev pub unless : Bool → Str → Run (List StepState) (Unit {0})
unless good message = lift (throw_if (not good) (plain_error message))

abbrev pub user_id : Str
user_id = codes "dev-crypto-user@fincrypt.test"

abbrev pub passphrase : Str
passphrase = codes "dev-crypto-passphrase"

abbrev pub record_id : Str
record_id = codes "dev-crypto-record-1"

abbrev pub sample : Str
sample = codes "DEV CRYPTO: envelope roundtrip sample"

-- The swap has to throw.
abbrev pub must_fail : Result (List ℕ) → Result (Unit {0})
must_fail (err e) = ok tt
must_fail (ok plaintext) = err (plain_error (codes "AAD swap DID NOT fail — binding broken"))

-- From the end of the checks on.
abbrev pub settled : List StepState × Result (Unit {0}) → Page
settled (steps, ok done) = record { steps = steps; is_running = false; verdict = passed }
settled (steps, err e) = record {
  steps = set_step 5 fail steps;
  is_running = false;
  verdict = failed;
}

module _ (P : Platform) (F : Formats P) (draws : Draws) where
  -- 1. and 2.
  abbrev pub check_wrap : Run (List StepState) (List ℕ)
  check_wrap = do
    bytes ← lift (argon2id_derive P passphrase draws.salt test_params false)
    kek ← lift (import_kek P bytes)
    _ ← mark 0
    wrapped ← lift (wrap_dek P draws.wrap_nonce draws.dek kek user_id)
    _ ← unless (length wrapped == 60) (codes "wrapped length")
    unwrapped ← lift (unwrap_dek P wrapped kek user_id)
    _ ← unless (str_eq unwrapped draws.dek) (codes "DEK mismatch after unwrap")
    _ ← mark 1
    pure unwrapped

  -- 3.: the subkey and the sealed record.
  abbrev pub check_envelope : List ℕ → Run (List StepState) (P.CryptoKey × List ℕ)
  check_envelope unwrapped = do
    subkey ← lift (derive_subkey P unwrapped transactions)
    aad ← lift (build_aad P user_id transactions record_id)
    packed ← lift (encrypt_bytes P subkey draws.record_nonce (P.utf8 sample) aad)
    plaintext ← lift (decrypt_bytes P subkey packed aad)
    _ ← unless (str_eq (F.utf8_decode plaintext) sample) (codes "plaintext mismatch")
    _ ← mark 2
    pure (subkey, packed)

  -- 4.
  abbrev pub check_recovery : List ℕ → Run (List StepState) (Unit {0})
  check_recovery unwrapped = do
    wrapped ← lift (wrap_dek_with_recovery P draws.recovery_nonce unwrapped draws.mnemonic user_id)
    recovered ← lift (recover_dek P wrapped draws.mnemonic user_id)
    _ ← unless (str_eq recovered draws.dek) (codes "recovered DEK mismatch")
    mark 3

  -- 5.
  abbrev pub check_swap : P.CryptoKey → List ℕ → Run (List StepState) (Unit {0})
  check_swap subkey packed = do
    other ← lift (build_aad P user_id chat (codes "different-record"))
    _ ← lift (must_fail (decrypt_bytes P subkey packed other))
    mark 4

  unfoldable pub checks : Run (List StepState) (Unit {0})
  checks = do
    unwrapped ← check_wrap
    (subkey, packed) ← check_envelope unwrapped
    _ ← check_recovery unwrapped
    _ ← check_swap subkey packed
    mark 5

  -- `start`, at its end.
  unfoldable pub start : Page
  unfolding checks
  start = settled (checks initial_steps)
