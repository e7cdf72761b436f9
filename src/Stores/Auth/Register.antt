-- ===== src/Stores/Auth/Register.antt =====
-- web/src/stores/authStore.ts: `register`. What it draws at random is an argument, and so is what
-- the endpoints answer; the answers have the shape that web/src/api/auth.ts declares.
use fincrypt.Crypto.Kdf.{params_object, default_kdf_params}
use fincrypt.Prelude.{
  ℕ, ℤ, Bool, true, false, some, none, List, [], ◌∷◌, map, Str, codes, trim, split, join, includes,
  ◌==◌, ◌||◌, if◌then◌else◌,
}
use fincrypt.Prelude.Json.{Json}
use fincrypt.Crypto.Errors.{Result, ok, err}
use fincrypt.Crypto.Platform.{Platform}
use fincrypt.Crypto.KdfWorker.{derive_kek_off_thread}
use fincrypt.Crypto.KeyHierarchy.{wrap_dek}
use fincrypt.Crypto.Recovery.{wrap_dek_with_recovery}
use fincrypt.Crypto.Recovery.Indices.{pick_confirm_indices}
use fincrypt.Crypto.Opaque.{Opaque}
use fincrypt.Domain.Formats.{Formats}
use fincrypt.Domain.Vault.{from_b64}
use fincrypt.Stores.SessionKeys.{kek_or_inline}
use fincrypt.Stores.Auth.{AuthState, locked}
use fincrypt.Stores.Auth.Attempts.{Thrown, Attempt, threw, done, lift, auth_error_message, ◌>>=◌}

pub record Credentials : Type 0 where
  pub email : Str
  pub password : Str

-- The answer of '/api/auth/register/start'.
pub record RegisterStartResponse : Type 0 where
  pub registration_response : Str
  pub kdf_salt : Str

-- The body of '/api/auth/register/finish'.
pub record RegisterFinish : Type 0 where
  pub email : Str
  pub registration_record : Str
  pub wrapped_dek : Str
  pub wrapped_dek_recovery : Str
  pub kdf_salt : Str
  pub kdf_params : Json

pub record RegisterOutcome : Type 0 where
  pub user_id : Str
  pub recovery_phrase : List Str
  pub confirm_indices : ℕ × ℕ × ℕ

-- The two endpoints; `start` is given the address and the registration request.
pub record RegisterServer : Type 0 where
  pub start : (email registration_request : Str) → Attempt RegisterStartResponse
  pub finish : RegisterFinish → Attempt Str

-- What is drawn at random: OPAQUE's coins, the data key, the mnemonic, the nonces of the two wraps and
-- the choice of the words to confirm.
pub record Draws : Type 0 where
  pub coins : List ℕ
  pub dek : List ℕ
  pub mnemonic : Str
  pub nonce : List ℕ
  pub recovery_nonce : List ℕ
  pub choice : ℕ → ℤ

-- generateRecoveryPhrase
abbrev pub phrase_words : Str → List Str
phrase_words mnemonic = split b' ' mnemonic

-- .replace(/\+/g, '-').replace(/\//g, '_')
abbrev pub url_code : ℕ → ℕ
url_code c = if c == b'+' then b'-' else if c == b'/' then b'_' else c

-- Where nothing follows, a `=` goes.
abbrev pub unpadded : ℕ → Str → Str
unpadded c [] = if c == b'=' then [] else c ∷ []
unpadded c (a ∷ s) = c ∷ a ∷ s

-- .replace(/=+$/g, '')
pub strip_padding : Str → Str
strip_padding [] = []
strip_padding (c ∷ s) = unpadded c (strip_padding s)

-- set({ busy: true, error: null })
abbrev pub begun : AuthState → AuthState
begun s = record s { busy = true; error = none }

-- The `catch`: the store after a throw.
abbrev pub failed_with : Thrown → AuthState → AuthState
failed_with e s = record s { busy = false; error = some (auth_error_message e) }

-- The store after a register or a login that returned.
abbrev pub signed_in : (email user_id : Str) → AuthState → AuthState
signed_in email user_id s = record s {
  status = locked;
  email = some email;
  user_id = some user_id;
  busy = false;
}

-- From the end of the calls on.
abbrev pub settle_register :
    Str → Attempt RegisterOutcome → AuthState → AuthState × Attempt RegisterOutcome
settle_register email (threw e) s = (failed_with e s, threw e)
settle_register email (done outcome) s = (signed_in email outcome.user_id s, done outcome)

module _ (P : Platform) where
  -- email.trim().toLowerCase()
  abbrev pub canonical : Str → Str
  canonical email = P.to_lower (trim email)

  module _ (F : Formats P) where
    open F use {btoa, atob}

    -- toB64S
    abbrev pub to_b64_s : List ℕ → Result Str
    to_b64_s bytes = btoa bytes

    abbrev reencoded : Result Str → Result Str
    reencoded (err e) = err e
    reencoded (ok encoded) = ok (strip_padding (map url_code encoded))

    abbrev converted : Result Str → Result Str
    converted (err e) = err e
    converted (ok bin) = reencoded (btoa bin)

    unfoldable pub std_to_url : Str → Result Str
    unfolding strip_padding
    std_to_url std = if includes b'-' std || includes b'_' std then ok std else converted (atob std)

    module _ (O : Opaque) (worker : Bool) where
      -- Steps 1 to 5: the body of the last request.
      unfoldable pub prepare_registration :
          RegisterServer → Draws → (email password : Str) → Attempt RegisterFinish
      prepare_registration server draws email password = do
        let (state, request) = O.start_registration draws.coins password
        start ← server.start email request
        response ← lift (std_to_url start.registration_response)
        (registration_record, _) ← lift (O.finish_registration state response password)
        salt ← lift (from_b64 P F start.kdf_salt)
        kek ← lift (
            kek_or_inline P (derive_kek_off_thread P worker password salt default_kdf_params)
              password salt default_kdf_params)
        wrapped_dek ← lift (wrap_dek P draws.nonce draws.dek kek email)
        wrapped_recovery ← lift (
            wrap_dek_with_recovery P draws.recovery_nonce draws.dek
              (join (codes " ") (phrase_words draws.mnemonic)) email)
        wrapped_text ← lift (to_b64_s wrapped_dek)
        recovery_text ← lift (to_b64_s wrapped_recovery)
        done (record {
          email = email;
          registration_record = registration_record;
          wrapped_dek = wrapped_text;
          wrapped_dek_recovery = recovery_text;
          kdf_salt = start.kdf_salt;
          kdf_params = params_object default_kdf_params;
        })

      -- The calls of `register` in their order.
      abbrev pub register_calls :
          RegisterServer → Draws → (email password : Str) → Attempt RegisterOutcome
      register_calls server draws email password = do
        body ← prepare_registration server draws email password
        user_id ← server.finish body
        done (record {
          user_id = user_id;
          recovery_phrase = phrase_words draws.mnemonic;
          confirm_indices = pick_confirm_indices draws.choice;
        })

      unfoldable pub register :
          RegisterServer → Draws → Credentials → AuthState → AuthState × Attempt RegisterOutcome
      register server draws args s =
          settle_register (canonical args.email)
            (register_calls server draws (canonical args.email) args.password) (begun s)
