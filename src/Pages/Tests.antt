-- ===== src/Pages/Tests.antt =====
-- Runs of the pages on a concrete platform, with a server that answers what it was sent.
use fincrypt.Stores.Auth.Machine.{
  Client, here, next, begin, end_login, fresh, IsConsistent, Reach-IsConsistent,
}
use fincrypt.Stores.Auth.Login.{
  login, invalid_credentials, settle_login, login_calls, LoginServer, LoginFinishResponse,
}
use fincrypt.Stores.Auth.Attempts.{by_fault, Attempt, threw, done}
use fincrypt.Stores.Auth.{authentication_failed, unlocked, Me, anonymous_state}
use fincrypt.Pages.SignIn.Outcomes.{Ends, Shows, login-Ends, login_refused, login_submit-Shows}
use fincrypt.Pages.Confirmation.{
  Inputs, set_input, confirm, accepted, entered, expected, confirm-eq_accepted,
}
use fincrypt.Prelude.{
  inl, All, ◌↔◌, ◌∷◌, List, false, inr, pos, includes, trim, starts_with, str_eq, ◌*ℤ◌, decimal,
  is_space, words, split, is_well_formed, ℕ, true, none, some, [], Str, codes, join, map, ◌≡◌, refl,
}
use fincrypt.Stores.Auth.Register.{
  std_to_url, begun, Credentials, RegisterServer, RegisterFinish, Draws, canonical, phrase_words,
  prepare_registration,
}
use fincrypt.Stores.Auth.Released.{}
use fincrypt.Crypto.Kdf.{parse_kdf_params, serialize_kdf_params, argon2id_derive, derive_kek}
use fincrypt.Crypto.KdfWorker.{run_worker, derive_kek_off_thread}
use fincrypt.Crypto.KeyHierarchy.{wrap_dek, hkdf_bits, wrap_as, wrap_with_recovery}
use fincrypt.Crypto.Recovery.{
  derive_recovery_kek, normalize_phrase, validate_recovery_phrase, wrap_dek_with_recovery,
  recover_dek,
}
use fincrypt.Crypto.Aead.{encrypt_bytes, import_aes_key}
use fincrypt.Prelude.Json.{lookup_field, null}
use fincrypt.Crypto.Errors.{ok}
use fincrypt.Crypto.Toy.{toy}
use fincrypt.Crypto.Tests.{nonce_1, dek_1}
use fincrypt.Crypto.Opaque.Toy.{toy_opaque, challenge}
use fincrypt.Domain.Vault.{from_b64}
use fincrypt.Domain.ToyFormats.{toy_formats, shift}
use fincrypt.Stores.SessionKeys.{initial}
use fincrypt.Pages.SignIn.{accounts_page, login_submit, App}
use fincrypt.Pages.SignIn.Opening.{login_submit-unlocks, recover_dek-register}
pub mod Entries
pub mod Health

abbrev anna : Credentials
anna = record { email = codes "Anna@x"; password = codes "a-b" }

-- The address with a space and in other letters.
abbrev anna_again : Credentials
anna_again = record { email = codes " anna@X"; password = codes "a-b" }

-- Sixteen bytes in base64, as the formats write it.
abbrev salt_text : Str
salt_text = map shift (9 ∷ 9 ∷ 9 ∷ 9 ∷ nonce_1)

abbrev draws : Draws
draws = record {
  coins = [];
  dek = dek_1;
  mnemonic = codes "zoo zone";
  nonce = nonce_1;
  recovery_nonce = nonce_1;
  choice = λ n. pos 0;
}

abbrev register_server : RegisterServer
register_server = record {
  start = λ email request. done (record { registration_response = email; kdf_salt = salt_text });
  finish = λ body. done (codes "id-1");
}

abbrev body_or_empty : Attempt RegisterFinish → RegisterFinish
body_or_empty (done body) = body
body_or_empty (threw e) = record {
  email = [];
  registration_record = [];
  wrapped_dek = [];
  wrapped_dek_recovery = [];
  kdf_salt = [];
  kdf_params = null;
}

abbrev body : RegisterFinish
body = body_or_empty (
    prepare_registration toy toy_formats toy_opaque true register_server draws
      (canonical toy anna.email) anna.password)

abbrev response : LoginFinishResponse
response = record {
  user_id = codes "id-1";
  kdf_salt = body.kdf_salt;
  kdf_params = body.kdf_params;
  wrapped_dek = body.wrapped_dek;
  wrapped_dek_recovery = body.wrapped_dek_recovery;
}

abbrev me : Me
me = record { user_id = codes "id-1"; email = codes "anna@x" }

-- A challenge in the package's own alphabet: the dash keeps it as it is.
abbrev login_server : Str → LoginServer
login_server password = record {
  start = λ email request. done (challenge (some password));
  finish = λ email request. done response;
  get_me = done me;
}

abbrev app : App toy
app = record { auth = anonymous_state; keys = initial toy; route = none }

prepared :
    prepare_registration toy toy_formats toy_opaque true register_server draws
      (canonical toy anna.email)
      anna.password
    ≡ done body
unfolding prepare_registration std_to_url includes toy trim toy_formats derive_kek_off_thread
    run_worker parse_kdf_params starts_with serialize_kdf_params lookup_field str_eq ◌*ℤ◌
    argon2id_derive import_aes_key wrap_dek encrypt_bytes derive_kek hkdf_bits wrap_as
    wrap_with_recovery derive_recovery_kek normalize_phrase validate_recovery_phrase
    wrap_dek_with_recovery decimal is_space join words split is_well_formed
    fincrypt.Crypto.Json.json_parse fincrypt.Prelude.Json.Quote.quoted
prepared = refl

exchanged :
    login_calls toy toy_formats toy_opaque
      (login_server (codes "a-b"))
      []
      (canonical toy anna_again.email)
      anna_again.password
    ≡ done (me, response)
unfolding std_to_url includes str_eq
exchanged = refl

same_address : canonical toy anna_again.email ≡ canonical toy anna.email
unfolding toy trim is_space
same_address = refl

abbrev shown : App toy
shown = login_submit toy toy_formats toy_opaque false (login_server (codes "a-b")) [] anna_again app

login_submit-unlocks_example :
    (shown.auth.status ≡ unlocked)
    × (shown.keys.raw_dek ≡ some dek_1)
    × (shown.keys.record_user_id ≡ some (codes "id-1"))
    × (shown.route ≡ some accounts_page)
login_submit-unlocks_example =
    login_submit-unlocks toy toy_formats toy_opaque true false register_server draws anna anna_again
      body (login_server (codes "a-b")) [] me response app refl prepared same_address refl exchanged
      (refl, refl, refl, refl)

login_submit-Shows_example : Shows toy app shown
login_submit-Shows_example =
    login_submit-Shows toy toy_formats toy_opaque false (login_server (codes "a-b")) [] anna_again
      app

login-Ends_example :
    Ends anonymous_state
      (login toy toy_formats toy_opaque (login_server (codes "a-c")) [] anna anonymous_state)
login-Ends_example =
    login-Ends toy toy_formats toy_opaque (login_server (codes "a-c")) [] anna anonymous_state

login_refused_example :
    login toy toy_formats toy_opaque (login_server (codes "a-c")) [] anna anonymous_state ≡ (
      record anonymous_state { busy = false; error = some authentication_failed },
      threw (by_fault invalid_credentials),
    )
unfolding std_to_url includes str_eq
login_refused_example =
    login_refused toy toy_formats toy_opaque (login_server (codes "a-c")) [] anna anonymous_state
      (challenge (some (codes "a-c"))) refl (inl refl)

-- Two calls are in flight.
abbrev twice_begun : Client
twice_begun = record { store = begun (begun anonymous_state); in_flight = 2 }

abbrev signed_in_client : Client
signed_in_client = record {
  store = (settle_login toy toy_formats (codes "anna@x") (done (me, response)) twice_begun.store).0;
  in_flight = 1;
}

Reach-IsConsistent_example : IsConsistent toy toy_formats signed_in_client
unfolding anonymous_state
Reach-IsConsistent_example = Reach-IsConsistent toy toy_formats signed_in_client (
    next
      (next (next here (begin fresh))
        (begin (record { store = begun anonymous_state; in_flight = 1 })))
      (end_login twice_begun (codes "anna@x") (done (me, response)) 1 refl))
