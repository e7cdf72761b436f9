-- ===== src/Stores/Auth/Login.antt =====
-- web/src/stores/authStore.ts: `login`.
use fincrypt.Prelude.Json.Text.{json_stringify}
use fincrypt.Prelude.{ℕ, List, Str, codes, Option, some}
use fincrypt.Prelude.Json.{Json, text}
use fincrypt.Crypto.Errors.{Fault, plain_error, Result, ok, err}
use fincrypt.Crypto.Platform.{Platform}
use fincrypt.Crypto.Opaque.{Opaque, LoginKeys}
use fincrypt.Domain.Formats.{Formats}
use fincrypt.Domain.Vault.{from_b64}
use fincrypt.Stores.SessionKeys.{PassphraseArgs}
use fincrypt.Stores.Auth.{AuthState, Me}
use fincrypt.Stores.Auth.Attempts.{by_fault, Attempt, threw, done, lift, ◌>>=◌}
use fincrypt.Stores.Auth.Register.{
  Credentials, canonical, std_to_url, begun, failed_with, signed_in,
}

pub record LoginFinishResponse : Type 0 where
  pub user_id : Str
  pub kdf_salt : Str
  pub kdf_params : Json
  pub wrapped_dek : Str
  pub wrapped_dek_recovery : Str

pub record LoginUnlockMaterial : Type 0 where
  pub user_id : Str
  pub email : Str
  pub wrap_user_id : Str
  pub kdf_salt : List ℕ
  pub kdf_params_json : Str
  pub wrapped_dek : List ℕ
  pub wrapped_dek_recovery : List ℕ
  pub debug_salt : Str
  pub debug_params : Json

-- The endpoints; `start` and `finish` are given the address and the message.
pub record LoginServer : Type 0 where
  pub start : (email start_login_request : Str) → Attempt Str
  pub finish : (email finish_login_request : Str) → Attempt LoginFinishResponse
  pub get_me : Attempt Me

abbrev pub invalid_credentials : Fault
invalid_credentials = plain_error (codes "invalid credentials")

-- The `try` over `finishLogin`, and the test for `null`: a throw, too, is a refusal.
abbrev pub finished_or_refused : Result (Option LoginKeys) → Attempt LoginKeys
finished_or_refused (ok (some keys)) = done keys
finished_or_refused _ = threw (by_fault invalid_credentials)

-- typeof kdfParams === 'string' ? kdfParams : JSON.stringify(kdfParams)
abbrev pub params_text : Json → Str
params_text (text s) = s
params_text v = json_stringify v

-- The store is set before the material is decoded: a throw there finds it signed in.
abbrev pub settle_material :
    Attempt LoginUnlockMaterial → AuthState → AuthState × Attempt LoginUnlockMaterial
settle_material (threw e) s = (failed_with e s, threw e)
settle_material (done material) s = (s, done material)

-- What the pages hand to `unlockWithPassphrase`.
abbrev pub args_of : (P : Platform) → Str → LoginUnlockMaterial → PassphraseArgs P
args_of P password material = record {
  pass = password;
  user_id = material.wrap_user_id;
  record_user_id = some material.user_id;
  kdf_salt = material.kdf_salt;
  kdf_params_json = material.kdf_params_json;
  wrapped_dek = material.wrapped_dek;
}

module _ (P : Platform) (F : Formats P) where
  -- What `login` returns.
  unfoldable pub unlock_material : Str → Me → LoginFinishResponse → Attempt LoginUnlockMaterial
  unlock_material email me response = do
    kdf_salt ← lift (from_b64 P F response.kdf_salt)
    wrapped_dek ← lift (from_b64 P F response.wrapped_dek)
    wrapped_dek_recovery ← lift (from_b64 P F response.wrapped_dek_recovery)
    done (record {
      user_id = response.user_id;
      email = me.email;
      wrap_user_id = email;
      kdf_salt = kdf_salt;
      kdf_params_json = params_text response.kdf_params;
      wrapped_dek = wrapped_dek;
      wrapped_dek_recovery = wrapped_dek_recovery;
      debug_salt = response.kdf_salt;
      debug_params = response.kdf_params;
    })

  abbrev pub settle_login :
      Str → Attempt (Me × LoginFinishResponse) → AuthState → AuthState × Attempt LoginUnlockMaterial
  settle_login email (threw e) s = (failed_with e s, threw e)
  settle_login email (done (me, response)) s =
      settle_material (unlock_material email me response) (signed_in me.email me.user_id s)

  module _ (O : Opaque) where
    abbrev pub finish_with : (state password : Str) → Result Str → Result (Option LoginKeys)
    finish_with state password (ok response) = O.finish_login state response password
    finish_with state password (err e) = err e

    -- The calls of `login` in their order.
    abbrev pub login_calls :
        LoginServer → List ℕ → (email password : Str) → Attempt (Me × LoginFinishResponse)
    login_calls server coins email password = do
      let (state, request) = O.start_login coins password
      message ← server.start email request
      keys ← finished_or_refused (finish_with state password (std_to_url P F message))
      response ← server.finish email keys.finish_login_request
      me ← server.get_me
      done (me, response)

    unfoldable pub login :
        LoginServer → List ℕ → Credentials → AuthState → AuthState × Attempt LoginUnlockMaterial
    login server coins args s =
        settle_login (canonical P args.email)
          (login_calls server coins (canonical P args.email) args.password) (begun s)
