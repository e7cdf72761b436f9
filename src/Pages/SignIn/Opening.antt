-- ===== src/Pages/SignIn/Opening.antt =====
-- web/src/pages/Login.tsx and web/src/pages/Register.tsx.
-- What a registration and a later login open together.
use fincrypt.Prelude.{ℕ, Bool, List, codes, join, length, some, ◌≡◌, refl, ap, ◌∙◌}
use fincrypt.Crypto.Errors.{ok}
use fincrypt.Crypto.Platform.{Platform}
use fincrypt.Crypto.Opaque.{Opaque}
use fincrypt.Crypto.Recovery.{recover_dek}
use fincrypt.Crypto.Recovery.Opening.{recover_dek-wrap_dek_with_recovery}
use fincrypt.Domain.Formats.{Formats}
use fincrypt.Domain.Vault.{from_b64}
use fincrypt.Domain.Vault.RoundTrip.{from_b64-to_b64}
use fincrypt.Stores.Auth.{Me, unlocked, mark_unlocked}
use fincrypt.Stores.Auth.Attempts.{done}
use fincrypt.Stores.Auth.Register.{
  Credentials, RegisterServer, RegisterFinish, Draws, canonical, prepare_registration, phrase_words,
}
use fincrypt.Stores.Auth.Login.{LoginServer, LoginFinishResponse, login_calls, login}
use fincrypt.Stores.Auth.Entry.{Prepared-of_done}
use fincrypt.Stores.Auth.Released.{Releases, unlock_material-Prepared, Opens-released}
use fincrypt.Pages.SignIn.{App, accounts_page, login_submit}

module _ (P : Platform) (F : Formats P) (O : Opaque) (worker worker' : Bool) where
  -- A user who registered logs in: where the exchange of the login succeeds for an address that is
  -- the same in canonical form and for the same passphrase, and the server releases what the
  -- registration sent, the login page of any device, with a worker or without, leaves the session
  -- unlocked, the keystore with the data key of the registration and the user id that the server
  -- gave, and shows the accounts. The drawn nonce has 12 bytes.
  pub login_submit-unlocks :
      (register_server : RegisterServer) (draws : Draws) (args args' : Credentials)
      (body : RegisterFinish) (server : LoginServer) (coins : List ℕ) (me : Me)
      (response : LoginFinishResponse) (a : App P)
      → length draws.nonce ≡ 12
      → prepare_registration P F O worker register_server draws
          (canonical P args.email)
          args.password
        ≡ done body
      → canonical P args'.email ≡ canonical P args.email
      → args'.password ≡ args.password
      → login_calls P F O server coins (canonical P args'.email) args'.password
        ≡ done (me, response)
      → Releases body response
      → ((login_submit P F O worker' server coins args' a).auth.status ≡ unlocked)
        × ((login_submit P F O worker' server coins args' a).keys.raw_dek ≡ some draws.dek)
        × ((login_submit P F O worker' server coins args' a).keys.record_user_id
            ≡ some response.user_id)
        × ((login_submit P F O worker' server coins args' a).route ≡ some accounts_page)
  unfolding login_submit login mark_unlocked
  login_submit-unlocks register_server draws args args' body server coins me response a fits
        prepared same_email same_password exchange releases =
      let p =
        Prepared-of_done P F O worker register_server draws (canonical P args.email) args.password
          body prepared in
      let material =
        unlock_material-Prepared P F O worker worker' draws (canonical P args.email) args.password
          body me response p releases in
      let o =
        Opens-released P F O worker worker' draws (canonical P args.email) args.password body me
          response p a.keys releases fits in
      rw (exchange, same_email, material, same_password, o.unlocks)
        (refl, o.holds_dek, o.seals_as, refl)

  -- The copy of the data key that the server releases for recovery opens under the words that the
  -- registration showed, joined by spaces, to the data key of the registration.
  pub recover_dek-register :
      (register_server : RegisterServer) (draws : Draws) (args : Credentials)
      (body : RegisterFinish) (response : LoginFinishResponse)
      → length draws.recovery_nonce ≡ 12
      → prepare_registration P F O worker register_server draws
          (canonical P args.email)
          args.password
        ≡ done body
      → Releases body response
      → (w : List ℕ) × (from_b64 P F response.wrapped_dek_recovery ≡ ok w)
        × (recover_dek P w (join (codes " ") (phrase_words draws.mnemonic)) (canonical P args.email)
            ≡ ok draws.dek)
  recover_dek-register register_server draws args body response fits prepared (_, _, _, kept) =
      let p =
        Prepared-of_done P F O worker register_server draws (canonical P args.email) args.password
          body prepared in
      (
        p.recovery_wrap,
        ap (from_b64 P F) kept
            ∙ from_b64-to_b64 P F p.recovery_wrap body.wrapped_dek_recovery p.recovery_encodes,
        recover_dek-wrap_dek_with_recovery P draws.recovery_nonce draws.dek p.recovery_wrap
            (join (codes " ") (phrase_words draws.mnemonic)) (canonical P args.email) fits
            p.wraps_recovery,
      )
