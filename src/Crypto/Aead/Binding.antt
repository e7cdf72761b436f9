-- ===== src/Crypto/Aead/Binding.antt =====
-- web/src/crypto/aead.ts.
-- The additional data of `buildAad` names its user, record type and record.
use fincrypt.Prelude.{
  ℕ, ◌<◌, ◌≡◌, inr, ap, refl, sym, ◌∙◌, true, false, List, arith, Str, codes, length, includes,
  separator_injective, is_well_formed, is_well_formed-append,
}
use fincrypt.Crypto.Errors.{ok, err, decrypt_error}
use fincrypt.Crypto.Platform.{Platform, IsBinding}
use fincrypt.Crypto.Aead.{
  drop, RecordType, type_name, aad_text, build_aad, encrypt_bytes, decrypt_bytes,
}
use fincrypt.Crypto.Aead.Opening.{decrypt_bytes_wrong}

type_name_injective : (t u : RecordType) → type_name t ≡ type_name u → t ≡ u
type_name_injective t u e = ground arith

no_bar-type_name : (t : RecordType) → includes b'|' (type_name t) ≡ false
unfolding includes
no_bar-type_name t = ground arith

well_formed-type_name : (t : RecordType) → is_well_formed (type_name t) ≡ true
unfolding is_well_formed
well_formed-type_name t = ground arith

pub aad_text_injective :
    (user user' : Str) (type type' : RecordType) (id id' : Str)
    → includes b'|' user ≡ false
    → includes b'|' user' ≡ false
    → aad_text user type id ≡ aad_text user' type' id'
    → (user ≡ user') × (type ≡ type') × (id ≡ id')
aad_text_injective user user' type type' id id' h h' e =
    let outer = separator_injective b'|' user user' _ _ h h' (ap (drop 3) e) in
    let inner =
      separator_injective b'|' (type_name type) (type_name type') id id' (no_bar-type_name type)
        (no_bar-type_name type') outer.1 in
    (outer.0, type_name_injective type type' inner.0, inner.1)

pub well_formed-aad_text :
    (user : Str) (type : RecordType) (id : Str)
    → is_well_formed user ≡ true
    → is_well_formed id ≡ true
    → is_well_formed (aad_text user type id) ≡ true
well_formed-aad_text user type id h k =
    is_well_formed-append (codes "v1|") _ (unfold is_well_formed in refl) (
      is_well_formed-append user _ h (
        is_well_formed-append (codes "|") _ (unfold is_well_formed in refl) (
          is_well_formed-append (type_name type) _ (well_formed-type_name type)
            (is_well_formed-append (codes "|") id (unfold is_well_formed in refl) k))))

module _ (P : Platform) where
  open P use {CryptoKey, utf8, utf8_injective, utf8_nonempty}

  pub build_aad-inverse :
      (user : Str) (type : RecordType) (id : Str) (aad : List ℕ)
      → build_aad P user type id ≡ ok aad
      → (aad ≡ utf8 (aad_text user type id))
        × (includes b'|' user ≡ false)
        × (includes b'|' id ≡ false)
        × (0 < length user)
        × (0 < length id)
  unfolding build_aad
  build_aad-inverse user type id aad h = ground arith

  -- Two calls of `buildAad` that return the same bytes were given the same user, record type and
  -- record, if the ids hold no lone surrogate.
  pub build_aad_injective :
      (user user' : Str) (type type' : RecordType) (id id' : Str) (aad : List ℕ)
      → is_well_formed user ≡ true
      → is_well_formed user' ≡ true
      → is_well_formed id ≡ true
      → is_well_formed id' ≡ true
      → build_aad P user type id ≡ ok aad
      → build_aad P user' type' id' ≡ ok aad
      → (user ≡ user') × (type ≡ type') × (id ≡ id')
  build_aad_injective user user' type type' id id' aad wu wu' wi wi' h h' =
      let (made, plain, _, _, _) = build_aad-inverse user type id aad h in
      let (made', plain', _, _, _) = build_aad-inverse user' type' id' aad h' in
      aad_text_injective user user' type type' id id' plain plain' (
        utf8_injective _ _ (well_formed-aad_text user type id wu wi)
          (well_formed-aad_text user' type' id' wu' wi') (sym made ∙ made'))

  pub build_aad_nonempty :
      (user : Str) (type : RecordType) (id : Str) (aad : List ℕ)
      → build_aad P user type id ≡ ok aad
      → 0 < length aad
  build_aad_nonempty user type id aad h =
      let made = (build_aad-inverse user type id aad h).0 in
      rw made (utf8_nonempty (aad_text user type id) (omega arith))

  -- A ciphertext that was sealed for one record does not open as another record's: the call throws
  -- `DecryptError` whenever user, record type or record id differ, where ciphertexts bind their
  -- additional data and the ids hold no lone surrogate.
  pub decrypt_bytes-swapped :
      IsBinding P
      → (key : CryptoKey) (nonce plaintext aad aad' packed : List ℕ)
      → (user user' : Str) (type type' : RecordType) (id id' : Str) → is_well_formed user ≡ true
      → is_well_formed user' ≡ true
      → is_well_formed id ≡ true
      → is_well_formed id' ≡ true
      → length nonce ≡ 12
      → build_aad P user type id ≡ ok aad
      → build_aad P user' type' id' ≡ ok aad'
      → encrypt_bytes P key nonce plaintext aad ≡ ok packed
      → ¬ ((user ≡ user') × (type ≡ type') × (id ≡ id'))
      → decrypt_bytes P key packed aad' ≡ err decrypt_error
  decrypt_bytes-swapped binding key nonce plaintext aad aad' packed user user' type type' id id' wu
        wu' wi wi' fits h h' sealed differ =
      decrypt_bytes_wrong P binding key key nonce plaintext aad aad' packed fits sealed
        (build_aad_nonempty user' type' id' aad' h')
        (inr (λ e.
          differ (build_aad_injective user user' type type' id id' aad wu wu' wi wi' h (rw e h'))))
