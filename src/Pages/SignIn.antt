-- ===== src/Pages/SignIn.antt =====
-- web/src/pages/Login.tsx and web/src/pages/Register.tsx: what `onSubmit` and `afterPhraseConfirmed`
-- do to the stores, and where they navigate to.
pub mod Opening
pub mod Outcomes
use fincrypt.Prelude.{
  ℕ, Bool, Option, none, some, List, Str, codes, length, ltb, not, str_eq, if◌then◌else◌,
}
use fincrypt.Crypto.Errors.{Result, ok, err}
use fincrypt.Crypto.Platform.{Platform}
use fincrypt.Crypto.Opaque.{Opaque}
use fincrypt.Domain.Formats.{Formats}
use fincrypt.Stores.SessionKeys.{SessionKeys, unlock_with_passphrase}
use fincrypt.Stores.Auth.{AuthState, mark_unlocked}
use fincrypt.Stores.Auth.Attempts.{Attempt, threw, done}
use fincrypt.Stores.Auth.Register.{Credentials, RegisterServer, RegisterOutcome, Draws, register}
use fincrypt.Stores.Auth.Login.{LoginServer, LoginUnlockMaterial, args_of, login}

-- The paths that the pages navigate to: '/accounts' and '/locked'.
pub data Route : Type 0 where
  accounts_page locked_page : Route

-- What the modal shows: the phrase and the indices of the words to enter again.
pub record PendingPhrase : Type 0 where
  pub phrase : List Str
  pub confirm_indices : ℕ × ℕ × ℕ

-- The state of the registration page.
pub record RegisterForm : Type 0 where
  pub email : Str
  pub password : Str
  pub confirm : Str
  pub local_error : Option Str
  pub pending_phrase : Option PendingPhrase

abbrev pub credentials_of : RegisterForm → Credentials
credentials_of form = record { email = form.email; password = form.password }

abbrev pub do_not_match : Str
do_not_match = codes "Passphrases do not match."

abbrev pub too_short : Str
too_short = codes "Use at least 12 characters — this passphrase encrypts everything."

module _ (P : Platform) where
  -- The two stores, and the path that was navigated to.
  pub record App : Type 0 where
    pub auth : AuthState
    pub keys : SessionKeys P
    pub route : Option Route

  -- `unlockWithPassphrase` and `markUnlocked`, as both pages call them; a throw changes nothing.
  abbrev pub try_unlock : Bool → Str → LoginUnlockMaterial → App → Result App
  try_unlock worker password material a =
      unlocked (unlock_with_passphrase P worker (args_of P password material) a.keys)
    where
      unlocked : Result (SessionKeys P) → Result App
      unlocked (err e) = err e
      unlocked (ok keys) = ok (record a { auth = mark_unlocked a.auth; keys = keys })

  module _ (F : Formats P) (O : Opaque) (worker : Bool) where
    -- The inner `try` of the login page.
    abbrev pub enter_or_locked : Result App → App → App
    enter_or_locked (ok b) a = record b { route = some accounts_page }
    enter_or_locked (err e) a = record a { route = some locked_page }

    abbrev pub enter : Str → AuthState × Attempt LoginUnlockMaterial → App → App
    enter password (s, threw e) a = record a { auth = s }
    enter password (s, done material) a =
        let b = record a { auth = s } in enter_or_locked (try_unlock worker password material b) b

    -- `onSubmit` of the login page.
    unfoldable pub login_submit : LoginServer → List ℕ → Credentials → App → App
    login_submit server coins args a = enter args.password (login P F O server coins args a.auth) a

    -- `onSubmit` of the registration page.
    abbrev pub pending_of : Attempt RegisterOutcome → Option PendingPhrase
    pending_of (threw e) = none
    pending_of (done outcome) =
        some
          (record { phrase = outcome.recovery_phrase; confirm_indices = outcome.confirm_indices })

    -- Where the register call threw, the page keeps what was pending.
    abbrev pub with_pending : Option PendingPhrase → RegisterForm → RegisterForm
    with_pending none form = form
    with_pending (some pending) form = record form { pending_phrase = some pending }

    abbrev pub registered :
        AuthState × Attempt RegisterOutcome → RegisterForm → App → RegisterForm × App
    registered (s, attempt) form a = (
      with_pending (pending_of attempt) (record form { local_error = none }),
      record a { auth = s },
    )

    unfoldable pub register_submit :
        RegisterServer → Draws → RegisterForm → App → RegisterForm × App
    register_submit server draws form a =
        if not (str_eq form.password form.confirm)
        then (record form { local_error = some do_not_match }, a)
        else if ltb (length form.password) 12
        then (record form { local_error = some too_short }, a)
        else registered (register P F O worker server draws (credentials_of form) a.auth) form a

    abbrev pub enter_or_log : Result App → App → App
    enter_or_log (ok b) a = b
    enter_or_log (err e) a = a

    abbrev pub confirmed : Str → AuthState × Attempt LoginUnlockMaterial → App → App
    confirmed password (s, threw e) a = record a { auth = s }
    confirmed password (s, done material) a =
        let b = record a { auth = s } in enter_or_log (try_unlock worker password material b) b

    -- `afterPhraseConfirmed`: it navigates, whatever was thrown before.
    unfoldable pub after_phrase_confirmed :
        LoginServer → List ℕ → RegisterForm → App → RegisterForm × App
    after_phrase_confirmed server coins form a = (
      record form { pending_phrase = none },
      record (confirmed form.password (login P F O server coins (credentials_of form) a.auth) a) {
        route = some accounts_page;
      },
    )
