-- ===== src/Crypto/Opaque/Login.antt =====
-- web/src/crypto/opaque.ts, over web/src/crypto/mockOpaqueServer.ts.
-- Who can log in after a registration.
use mathlib.Core.Option.{map}
use fincrypt.Prelude.{
  ℕ, Option, none, some, List, Str, ◌≡◌, ◌≢◌, refl, ◌∙◌, subst, inl, inr, str_eq, lookup,
  lookup-upsert, str_eq_refl,
}
use fincrypt.Prelude.Json.{lookup_field}
use fincrypt.Crypto.Errors.{ok-injective, Result, Result-cases, ok, err}
use fincrypt.Crypto.Platform.{Platform}
use fincrypt.Crypto.Opaque.{
  Opaque, IsOpaque, LoginKeys, LoginResult, RegistrationResult, canonical_user_identifier, register,
  login,
}
use fincrypt.Crypto.Opaque.MockServer.{MockServer, mock_server, post}

abbrev result_of : LoginKeys → LoginResult
result_of keys = record {
  export_key = keys.export_key;
  session_key = keys.session_key;
  server_static_public_key = keys.server_static_public_key;
}

module _ (P : Platform) (O : Opaque) (rfc : IsOpaque O) (setup : Str) where
  abbrev finished : List ℕ → Str → Str → Result (Str × Str)
  finished coins password user =
      O.finish_registration (O.start_registration coins password).0
        (rfc.response_of setup user coins password) password

  -- What a registration that returned has done.
  record Registered (m : MockServer) (coins : List ℕ) (email password : Str)
      (r : RegistrationResult) : Type 0 where
    pub stored : Str
    pub canonical : canonical_user_identifier P email ≡ ok r.user_identifier
    pub completed :
        O.finish_registration
          (O.start_registration coins password).0
          (rfc.response_of setup r.user_identifier coins password)
          password
        ≡ ok (stored, r.export_key)
    pub found :
        lookup r.user_identifier
          (register P O (mock_server O setup) coins email password m).0.records
        ≡ some stored

  Registered-of_ok :
      (m : MockServer) (coins : List ℕ) (email password : Str) (r : RegistrationResult)
      → (register P O (mock_server O setup) coins email password m).1 ≡ ok r
      → Registered m coins email password r
  unfolding register post str_eq lookup_field
  Registered-of_ok m coins email password r h =
      elim (Result-cases (canonical_user_identifier P email)) [
        | inr (e, bad) ↦ let thrown : err e ≡ ok r = rw bad at h in absurd (cc thrown)
        | inl (user, good) ↦ elim (Result-cases (finished coins password user)) [
          | inr (e, bad) ↦
              let thrown : err e ≡ ok r =
                rw (good, rfc.registers setup user coins password, bad) at h in
              absurd (cc thrown)
          | inl ((stored, key), done) ↦
              let made : ok (record { user_identifier = user; export_key = key }) ≡ ok r =
                rw (good, rfc.registers setup user coins password, done) at h in
              subst (Registered m coins email password) (ok-injective _ r made) (record {
                stored = stored;
                canonical = good;
                completed = done;
                found =
                    rw (good, rfc.registers setup user coins password, done)
                      (rw (lookup-upsert (λ old. stored) user user m.records, str_eq_refl user)
                        refl);
              })
        ]
      ]

  -- A login of a canonical user, by what the package makes of the server's answer.
  login_known :
      (m : MockServer) (coins : List ℕ) (email password user : Str) (keys : Option LoginKeys)
      → canonical_user_identifier P email ≡ ok user
      → O.finish_login
          (O.start_login coins password).0
          (rfc.challenge_of setup (lookup user m.records) user (O.start_login coins password).1)
          password
        ≡ ok keys
      → (login P O (mock_server O setup) coins email password m).1 ≡ ok (map result_of keys)
  unfolding login post str_eq lookup_field
  login_known m coins email password user none good result =
      rw
        (
          good,
          rfc.challenges setup (lookup user m.records) user (O.start_login coins password).1,
          result,
        )
        refl
  login_known m coins email password user (some keys) good result =
      rw
        (
          good,
          rfc.challenges setup (lookup user m.records) user (O.start_login coins password).1,
          result,
        )
        refl

  pub login_unknown :
      (m : MockServer) (coins : List ℕ) (email password user : Str)
      → canonical_user_identifier P email ≡ ok user
      → lookup user m.records ≡ none
      → (login P O (mock_server O setup) coins email password m).1 ≡ ok none
  login_unknown m coins email password user good missing =
      login_known m coins email password user none good
        (rw missing (rfc.rejects_fake setup user coins password))

  -- Where the package keeps to the protocol: after a registration that returned, as long as the
  -- server keeps the record, a login with the same password and any spelling of the address that has
  -- the same canonical form returns the keys, with the export key of the registration; and with
  -- another password it returns nothing, as does a login of an address whose canonical form has no
  -- record.
  pub login-register :
      (m m' : MockServer) (coins coins' : List ℕ) (email email' password other : Str)
      (r : RegistrationResult)
      → (register P O (mock_server O setup) coins email password m).1 ≡ ok r
      → canonical_user_identifier P email' ≡ ok r.user_identifier
      → lookup r.user_identifier m'.records
        ≡ lookup r.user_identifier
            (register P O (mock_server O setup) coins email password m).0.records
      → other ≢ password
      → (email'' stranger : Str) → canonical_user_identifier P email'' ≡ ok stranger
      → lookup stranger m'.records ≡ none
      → ((keys : LoginResult) × ((login P O (mock_server O setup) coins' email' password m').1
            ≡ ok (some keys))
          × (keys.export_key ≡ r.export_key))
        × ((login P O (mock_server O setup) coins' email' other m').1 ≡ ok none)
        × ((login P O (mock_server O setup) coins' email'' password m').1 ≡ ok none)
  login-register m m' coins coins' email email' password other r h good kept differs email''
        stranger known missing =
      let done = Registered-of_ok m coins email password r h in
      let stored = kept ∙ done.found in
      let (keys, opens, same) =
        rfc.logs_in setup r.user_identifier coins coins' password done.stored r.export_key
          done.completed in
      let closed =
        rfc.rejects setup r.user_identifier coins coins' password other done.stored r.export_key
          done.completed differs in
      (
        (
          result_of keys,
          login_known m' coins' email' password r.user_identifier (some keys) good
              (rw stored opens),
          same,
        ),
        login_known m' coins' email' other r.user_identifier none good (rw stored closed),
        login_unknown m' coins' email'' password stranger known missing,
      )
