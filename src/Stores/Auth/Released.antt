-- ===== src/Stores/Auth/Released.antt =====
-- web/src/stores/authStore.ts.
-- What the material of a login opens, where the server releases what a registration sent.
use fincrypt.Crypto.Kdf.Params.{default_in_range, parse_kdf_params-object}
use fincrypt.Prelude.{Bool, false, none, some, [], Str, length, ◌≡◌, refl, sym, ap, ◌∙◌}
use fincrypt.Crypto.Errors.{ok}
use fincrypt.Crypto.Platform.{Platform}
use fincrypt.Crypto.Kdf.{default_kdf_params, parse_kdf_params}
use fincrypt.Crypto.KeyHierarchy.{wrapped_dek, wrap_dek, unwrap_dek}
use fincrypt.Crypto.KeyHierarchy.Wraps.{unwrap_as-wrap_as}
use fincrypt.Crypto.Opaque.{Opaque}
use fincrypt.Domain.Formats.{Formats}
use fincrypt.Domain.Vault.{from_b64}
use fincrypt.Domain.Vault.RoundTrip.{from_b64-to_b64}
use fincrypt.Stores.SessionKeys.{SessionKeys, unlock_with_passphrase}
use fincrypt.Stores.Auth.{Me}
use fincrypt.Stores.Auth.Attempts.{done}
use fincrypt.Stores.Auth.Register.{RegisterFinish, Draws}
use fincrypt.Stores.Auth.Login.{
  args_of, LoginFinishResponse, LoginUnlockMaterial, unlock_material, params_text,
}
use fincrypt.Stores.Auth.Entry.{Prepared, kek_or_inline-eq_derive_kek}

-- The server releases what the registration sent.
abbrev pub Releases : RegisterFinish → LoginFinishResponse → Type 0
Releases body response =
    (response.kdf_salt ≡ body.kdf_salt)
    × (response.kdf_params ≡ body.kdf_params)
    × (response.wrapped_dek ≡ body.wrapped_dek)
    × (response.wrapped_dek_recovery ≡ body.wrapped_dek_recovery)

module _ (P : Platform) (F : Formats P) where
  -- What a material opens: the data key and the identities in the keystore.
  pub record Opens (worker : Bool) (draws : Draws) (password : Str) (response : LoginFinishResponse)
      (material : LoginUnlockMaterial) (k : SessionKeys P) : Type 0 where
    pub opened : SessionKeys P
    pub unlocks : unlock_with_passphrase P worker (args_of P password material) k ≡ ok opened
    pub holds_dek : opened.raw_dek ≡ some draws.dek
    pub is_open : opened.locked ≡ false
    pub seals_as : opened.record_user_id ≡ some response.user_id

  module _ (O : Opaque) (worker worker' : Bool) (draws : Draws) (email password : Str)
      (body : RegisterFinish) (me : Me) (response : LoginFinishResponse) where
    abbrev pub released : Prepared P F O worker draws email password body → LoginUnlockMaterial
    released p = record {
      user_id = response.user_id;
      email = me.email;
      wrap_user_id = email;
      kdf_salt = p.salt;
      kdf_params_json = params_text response.kdf_params;
      wrapped_dek = p.wrap;
      wrapped_dek_recovery = p.recovery_wrap;
      debug_salt = response.kdf_salt;
      debug_params = response.kdf_params;
    }

    pub unlock_material-Prepared :
        (p : Prepared P F O worker draws email password body)
        → Releases body response
        → unlock_material P F email me response ≡ done (released p)
    unfolding unlock_material
    unlock_material-Prepared p (salt, params, wrap, recovery) =
        rw
          (
            ap (from_b64 P F) salt ∙ p.salt_decodes,
            ap (from_b64 P F) wrap ∙ from_b64-to_b64 P F p.wrap body.wrapped_dek p.wrap_encodes,
            ap (from_b64 P F) recovery
                ∙ from_b64-to_b64 P F p.recovery_wrap body.wrapped_dek_recovery p.recovery_encodes,
          )
          refl

    pub Opens-released :
        (p : Prepared P F O worker draws email password body) (k : SessionKeys P)
        → Releases body response
        → length draws.nonce ≡ 12
        → Opens worker' draws password response (released p) k
    unfolding unlock_with_passphrase
    Opens-released p k (salt, params, wrap, recovery) fits =
        let object = params ∙ p.default_params in
        let read : parse_kdf_params P (params_text response.kdf_params) ≡ ok default_kdf_params =
          rw object (parse_kdf_params-object P) in
        let kek =
          kek_or_inline-eq_derive_kek P worker' password p.salt default_kdf_params default_in_range
          ∙ sym (
              kek_or_inline-eq_derive_kek P worker password p.salt default_kdf_params
                default_in_range)
          ∙ p.derived in
        let opens : unwrap_dek P p.wrap p.kek email ≡ ok draws.dek =
          unfold wrap_dek unwrap_dek in
          (unwrap_as-wrap_as P wrapped_dek draws.nonce draws.dek p.wrap p.kek email fits
            p.wraps).1 in
        record {
          opened = record {
            locked = false;
            user_id = some email;
            record_user_id = some response.user_id;
            raw_dek = some draws.dek;
            subkeys = [];
            kdf_params_json = some (params_text response.kdf_params);
            kdf_salt = some p.salt;
            wrapped_dek = some p.wrap;
            wrapped_dek_recovery = none;
          };
          unlocks = rw (read, kek, opens) refl;
          holds_dek = refl;
          is_open = refl;
          seals_as = refl;
        }
