-- ===== src/Domain/Vault/RoundTrip.antt =====
-- web/src/domain/store.ts: what is saved can be loaded, and what a load does with each row.
use fincrypt.Crypto.Json.{json_parse-json_stringify}
use fincrypt.Prelude.Json.Text.RoundTrip.{IsKept}
use fincrypt.Prelude.Json.Text.WellFormed.{is_well_formed-json_stringify}
use fincrypt.Prelude.Json.Text.{json_stringify}
use fincrypt.Prelude.{
  ℕ, false, List, [], ◌∷◌, map, Str, take, drop, ◌≡◌, refl, sym, ap, ◌∙◌, length, Member, inl, inr,
  arith, Bool-cases, includes, take-append, drop-append, subst,
}
use fincrypt.Prelude.Json.{Json}
use fincrypt.Crypto.Errors.{Fault, ok, err, ◌>>=◌, >>=-eq_ok, ok-injective, Result-cases}
use fincrypt.Crypto.Platform.{Platform}
use fincrypt.Cache.{Db, Cache, CachedEnvelope, WireEnvelope}
use fincrypt.Sync.Merge.{row_of}
use fincrypt.Domain.Formats.{Formats}
use fincrypt.Domain.Vault.{
  SyncableType, Loaded, standard_code, to_b64, from_b64, build_aad_string, encrypt_with_subkey,
  record_type, seal_record, open_row, loaded, put_working, load_rows,
}

map-standard_code :
    (b : Str) → includes b'-' b ≡ false → includes b'_' b ≡ false → map standard_code b ≡ b
unfolding includes
map-standard_code [] h k = refl
map-standard_code (c ∷ b) h k = ground (arith, map-standard_code b)

module _ (P : Platform) (F : Formats P) where
  open P use {CryptoKey, gcm_seal, gcm_open, utf8, gcm_open-gcm_seal}

  pub from_b64-to_b64 :
      (bytes : List ℕ) (b : Str) → to_b64 P F bytes ≡ ok b → from_b64 P F b ≡ ok bytes
  from_b64-to_b64 bytes b h =
      let (dash, line) = F.includes-btoa bytes b h in
      ap F.atob (map-standard_code b dash line) ∙ F.atob-btoa bytes b h

  -- The row that comes of a sealed record opens, under the same subkey, to the record's payload, if
  -- JSON text keeps the payload.
  pub open_row-seal_record :
      (subkey : CryptoKey) (nonce : List ℕ) (user : Str) (type : SyncableType) (record_id : Str)
      (payload : Json) (ts : Str) (e : WireEnvelope)
      → IsKept payload
      → length nonce ≡ 12
      → seal_record P F subkey nonce user type record_id payload ts ≡ ok e
      → open_row P F subkey (row_of e) ≡ ok payload
  unfolding seal_record open_row
  open_row-seal_record subkey nonce user type record_id payload ts e kept fits h =
      let text = utf8 (json_stringify payload) in
      let (aad, made, h₁) =
        >>=-eq_ok (build_aad_string P F user (record_type type) record_id) _ h in
      let packed = encrypt_with_subkey P F subkey nonce text aad in
      let (nonce_text, _, h₂) = >>=-eq_ok (to_b64 P F nonce) _ h₁ in
      let (blob, encoded, h₃) = >>=-eq_ok (to_b64 P F packed) _ h₂ in
      let same = ok-injective _ e h₃ in
      let front : take 12 packed ≡ nonce =
        take-append 12 nonce (gcm_seal subkey nonce (utf8 aad) text) fits in
      let back : drop 12 packed ≡ gcm_seal subkey nonce (utf8 aad) text =
        drop-append 12 nonce (gcm_seal subkey nonce (utf8 aad) text) fits in
      subst (λ (x : WireEnvelope). open_row P F subkey (row_of x) ≡ ok payload) same
        (rw (from_b64-to_b64 packed blob encoded, front, back, gcm_open-gcm_seal)
          (rw
            (F.utf8_decode-utf8 (json_stringify payload)
              (is_well_formed-json_stringify payload kept))
            (json_parse-json_stringify payload kept)))

  module _ (db : Db) where
    -- Where the loop of `loadWorking` returns, every row that is not deleted opened, and is listed
    -- with what it opened to.
    pub load_rows_lists :
        (subkey : CryptoKey) (name : Str) (rows : List CachedEnvelope) (c : Cache db)
        (out : List Loaded) (row : CachedEnvelope)
        → (load_rows P F db subkey name rows c).1 ≡ ok out
        → Member row rows
        → row.deleted ≡ false
        → (payload : Json) × (open_row P F subkey row ≡ ok payload)
          × Member (loaded P F row payload) out
    unfolding load_rows open_row
    load_rows_lists subkey name [] c out row h there live = absurd there
    load_rows_lists subkey name (r ∷ rows) c out row h there live = elim (Bool-cases r.deleted) [
      | inl dead ↦
          let rest : (load_rows P F db subkey name rows c).1 ≡ ok out = rw dead at h in
          elim there [
            | inl same ↦ absurd (cc (sym live ∙ ap (λ (x : CachedEnvelope). x.deleted) same ∙ dead))
            | inr behind ↦ load_rows_lists subkey name rows c out row rest behind live
          ]
      | inr alive ↦ elim (Result-cases (open_row P F subkey r)) [
        | inr (e, fails) ↦
            let thrown : err e ≡ ok out = rw (alive, fails) at h in absurd (cc thrown)
        | inl (payload, opens) ↦
            let c' = put_working P F db r name (ok payload) c in
            let both : ((load_rows P F db subkey name rows c').1 >>= λ more.
            ok (loaded P F r payload ∷ more))
                ≡ ok out =
              rw (alive, opens) at h in
            let (more, rest, made) = >>=-eq_ok (load_rows P F db subkey name rows c').1 _ both in
            let is_out = ok-injective _ out made in
            elim there [
              | inl same ↦ (
                payload,
                rw same opens,
                subst (Member (loaded P F row payload)) is_out
                    (inl (ap (λ (x : CachedEnvelope). loaded P F x payload) same)),
              )
              | inr behind ↦
                  let (its, opened, listed) =
                    load_rows_lists subkey name rows c' more row rest behind live in
                  (its, opened, subst (Member (loaded P F row its)) is_out (inr listed))
            ]
      ]
    ]

    -- A record that one device saved is listed with its payload by every load, on any device with the
    -- same subkey, whose cached rows hold the saved envelope and which does not throw.
    pub load_rows-seal_record :
        (subkey : CryptoKey) (nonce : List ℕ) (user : Str) (type : SyncableType) (record_id : Str)
        (payload : Json) (ts : Str) (e : WireEnvelope) (name : Str) (rows : List CachedEnvelope)
        (c : Cache db) (out : List Loaded)
        → IsKept payload
        → length nonce ≡ 12
        → seal_record P F subkey nonce user type record_id payload ts ≡ ok e
        → Member (row_of e) rows
        → (load_rows P F db subkey name rows c).1 ≡ ok out
        → Member (loaded P F (row_of e) payload) out
    load_rows-seal_record subkey nonce user type record_id payload ts e name rows c out kept fits
          sealed there h =
        let opens =
          open_row-seal_record subkey nonce user type record_id payload ts e kept fits sealed in
        let (its, opened, listed) =
          load_rows_lists subkey name rows c out (row_of e) h there refl in
        let same = ok-injective its payload (sym opened ∙ opens) in
        subst (λ j. Member (loaded P F (row_of e) j) out) same listed

    -- One row that is not deleted and does not open makes the whole loop throw, whatever the other
    -- rows hold.
    pub load_rows_blocked :
        (subkey : CryptoKey) (name : Str) (rows : List CachedEnvelope) (c : Cache db)
        (row : CachedEnvelope) (e : Fault)
        → Member row rows
        → row.deleted ≡ false
        → open_row P F subkey row ≡ err e
        → (thrown : Fault) × ((load_rows P F db subkey name rows c).1 ≡ err thrown)
    load_rows_blocked subkey name rows c row e there live closed =
        elim (Result-cases (load_rows P F db subkey name rows c).1) [
          | inr failed ↦ failed
          | inl (out, h) ↦
              let (payload, opens, _) = load_rows_lists subkey name rows c out row h there live in
              absurd (cc (sym closed ∙ opens))
        ]
