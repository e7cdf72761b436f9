-- ===== src/Pages/SignIn/Outcomes.antt =====
-- web/src/stores/authStore.ts, web/src/pages/Login.tsx and web/src/pages/Register.tsx.
-- How a login can end, and where the pages are then.
use fincrypt.Prelude.{
  sym, ap, Bool, str_eq, ℕ, false, none, some, List, Str, ◌≡◌, ◌⊎◌, inl, inr, refl,
}
use fincrypt.Crypto.Errors.{Result-cases, Fault, ok, err}
use fincrypt.Crypto.Platform.{Platform}
use fincrypt.Crypto.Opaque.{Opaque}
use fincrypt.Domain.Formats.{Formats}
use fincrypt.Stores.Auth.{AuthState, Me, locked, authentication_failed, mark_unlocked, unlocked}
use fincrypt.Stores.Auth.Attempts.{Thrown, by_fault, Attempt, threw, done, auth_error_message}
use fincrypt.Stores.Auth.Register.{std_to_url, Credentials, canonical, begun, signed_in}
use fincrypt.Stores.Auth.Login.{
  LoginServer, LoginFinishResponse, LoginUnlockMaterial, invalid_credentials, finish_with, login,
  login_calls, settle_login, unlock_material, settle_material, args_of,
}
use fincrypt.Stores.SessionKeys.{SessionKeys, unlock_with_passphrase}
use fincrypt.Stores.SessionKeys.Subkeys.{unlock_with_passphrase-eq_ok}
use fincrypt.Pages.SignIn.{accounts_page, locked_page, enter, login_submit, App}

-- The ends of a login: the call threw before the store was signed in, or after, or it returned.
abbrev pub Ends : AuthState → AuthState × Attempt LoginUnlockMaterial → Type 0
Ends s (t, result) =
    (t.busy ≡ false)
    × (((e : Thrown) × (result ≡ threw e)
          × (t.error ≡ some (auth_error_message e))
          × (((t.status ≡ s.status) × (t.email ≡ s.email) × (t.user_id ≡ s.user_id))
              ⊎ (t.status ≡ locked)))
        ⊎ ((material : LoginUnlockMaterial) × (result ≡ done material)
            × (t.status ≡ locked)
            × (t.error ≡ none)))

module _ (P : Platform) (F : Formats P) where
  settle_material-Ends :
      (s : AuthState) (email user_id : Str) (material : Attempt LoginUnlockMaterial)
      → Ends s (settle_material material (signed_in email user_id (begun s)))
  settle_material-Ends s email user_id (threw e) = (refl, inl (e, refl, refl, inr refl))
  settle_material-Ends s email user_id (done material) = (refl, inr (material, refl, refl, refl))

  settle_login-Ends :
      (s : AuthState) (email : Str) (calls : Attempt (Me × LoginFinishResponse))
      → Ends s (settle_login P F email calls (begun s))
  settle_login-Ends s email (threw e) = (refl, inl (e, refl, refl, inl (refl, refl, refl)))
  settle_login-Ends s email (done (me, response)) =
      settle_material-Ends s me.email me.user_id (unlock_material P F email me response)

  module _ (O : Opaque) where
    -- However the server and the package answer, a login ends with the store no longer busy: it
    -- throws, with the message of the throw in the store and the status and identity as they were or
    -- the status locked, or it returns, with the status locked and no error.
    pub login-Ends :
        (server : LoginServer) (coins : List ℕ) (args : Credentials) (s : AuthState)
        → Ends s (login P F O server coins args s)
    unfolding login
    login-Ends server coins args s =
        settle_login-Ends s (canonical P args.email)
          (login_calls P F O server coins (canonical P args.email) args.password)

    -- Where the server answered and the package does not return keys, because it returns nothing, as
    -- for a wrong passphrase, or because it throws, as it may for an unknown user, the login throws
    -- the one error, and the store shows the one message: the two cannot be told apart.
    pub login_refused :
        (server : LoginServer) (coins : List ℕ) (args : Credentials) (s : AuthState) (message : Str)
        → server.start (canonical P args.email) (O.start_login coins args.password).1 ≡ done message
        → ((finish_with P F O
                (O.start_login coins args.password).0
                args.password
                (std_to_url P F message)
              ≡ ok none)
            ⊎ ((e : Fault) × (finish_with P F O
                    (O.start_login coins args.password).0
                    args.password
                    (std_to_url P F message)
                  ≡ err e)))
        → login P F O server coins args s ≡ (
          record s { busy = false; error = some authentication_failed },
          threw (by_fault invalid_credentials),
        )
    unfolding login str_eq
    login_refused server coins args s message started (inl nothing) = rw (started, nothing) refl
    login_refused server coins args s message started (inr (e, thrown)) = rw (started, thrown) refl

module _ (P : Platform) where
  -- Where the login page is after a submission: where it was, or at '/locked', with the keystore as it
  -- was, or at the accounts with keystore and session unlocked.
  abbrev pub Shows : App P → App P → Type 0
  Shows a b =
      ((b.route ≡ a.route) × (b.keys ≡ a.keys))
      ⊎ (((b.route ≡ some locked_page) × (b.keys ≡ a.keys))
          ⊎ ((b.route ≡ some accounts_page) × (b.keys.locked ≡ false) × (b.auth.status ≡ unlocked)))

module _ (P : Platform) (F : Formats P) (O : Opaque) (worker : Bool) where
  enter-Shows :
      (password : Str) (s : AuthState) (attempt : Attempt LoginUnlockMaterial) (a : App P)
      → Shows P a (enter P F O worker password (s, attempt) a)
  unfolding mark_unlocked
  enter-Shows password s (threw e) a = inl (refl, refl)
  enter-Shows password s (done material) a =
      elim (Result-cases (unlock_with_passphrase P worker (args_of P password material) a.keys)) [
        | inr (e, fails) ↦ inr (inl (rw fails refl, rw fails refl))
        | inl (keys, opens) ↦
            let (dek, same) =
              unlock_with_passphrase-eq_ok P a.keys keys worker (args_of P password material)
                opens in
            inr (
              inr (
                rw opens refl,
                rw opens (sym (ap (λ (x : SessionKeys P). x.locked) same)),
                rw opens refl,
              ))
      ]

  -- However the login ends, the login page shows the accounts only with keystore and session
  -- unlocked; else it stays where it was or shows '/locked', and the keystore is as it was.
  pub login_submit-Shows :
      (server : LoginServer) (coins : List ℕ) (args : Credentials) (a : App P)
      → Shows P a (login_submit P F O worker server coins args a)
  unfolding login_submit
  login_submit-Shows server coins args a =
      let (s, attempt) = login P F O server coins args a.auth in
      enter-Shows args.password s attempt a
