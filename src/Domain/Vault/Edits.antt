-- ===== src/Domain/Vault/Edits.antt =====
-- web/src/domain/store.ts, `loadWorking`: what becomes of an edit that is not synced yet.
use fincrypt.Prelude.{
  false, some, List, [], ◌∷◌, Str, ◌≡◌, refl, sym, ap, ◌∙◌, str_eq, str_eq_refl, eq_of_str_eq,
  if◌then◌else◌, Member, inl, inr, ◌⊎◌, Bool-cases, keep_if, Member-keep_if, Member-of-keep_if,
}
use fincrypt.Prelude.Json.{Json}
use fincrypt.Crypto.Errors.{ok, err, ◌>>=◌, >>=-eq_ok, Result-cases}
use fincrypt.Crypto.Platform.{Platform}
use fincrypt.Cache.{Db, Cache, CachedEnvelope, WorkingRow}
use fincrypt.Domain.Formats.{Formats}
use fincrypt.Domain.Vault.{
  load_with, Loaded, open_row, loaded, put_working, load_rows, SyncableType, record_type,
  key_and_user, of_type, load_working,
}
use fincrypt.Crypto.Aead.{type_name}
use fincrypt.Crypto.KeyHierarchy.{derive_subkey}
use fincrypt.Sync.Engine.{Network, flush}
use fincrypt.Stores.SessionKeys.{SessionKeys}

module _ (P : Platform) (F : Formats P) (db : Db) where
  open P use {CryptoKey}

  -- The working row that the loop writes for an opened row.
  abbrev pub working_row : Str → CachedEnvelope → Json → WorkingRow
  working_row name row payload = record {
    key = row.key;
    record_id = row.record_id;
    type = name;
    payload = payload;
    ts = row.ts;
  }

  get-put_working :
      (row r : CachedEnvelope) (name : Str) (payload : Json) (c : Cache db)
      → db.working.get (put_working P F db r name (ok payload) c).working row.key ≡ (
          if str_eq r.key row.key
          then some (working_row name r payload)
          else db.working.get c.working row.key)
  get-put_working row r name payload c =
      db.working.get-put c.working (working_row name r payload) row.key

  -- The loop leaves the row of a key as the envelope under that key has it.
  load_rows-working :
      (subkey : CryptoKey) (name : Str) (rows : List CachedEnvelope) (c : Cache db)
      (out : List Loaded) (row : CachedEnvelope) (payload : Json)
      → (load_rows P F db subkey name rows c).1 ≡ ok out
      → ((r : CachedEnvelope) → Member r rows → r.key ≡ row.key → r ≡ row)
      → row.deleted ≡ false
      → open_row P F subkey row ≡ ok payload
      → Member row rows ⊎ (db.working.get c.working row.key ≡ some (working_row name row payload))
      → db.working.get (load_rows P F db subkey name rows c).0.working row.key
        ≡ some (working_row name row payload)
  unfolding load_rows open_row
  load_rows-working subkey name [] c out row payload h unique live opens (inl there) = absurd there
  load_rows-working subkey name [] c out row payload h unique live opens (inr done) = done
  load_rows-working subkey name (r ∷ rows) c out row payload h unique live opens start =
      let unique_rest = λ (x : CachedEnvelope) (m : Member x rows). unique x (inr m) in
      elim (Bool-cases r.deleted) [
        | inl dead ↦
            let rest : (load_rows P F db subkey name rows c).1 ≡ ok out = rw dead at h in
            rw dead (
              load_rows-working subkey name rows c out row payload rest unique_rest live opens
                (elim start [
                  | inr done ↦ inr done
                  | inl there ↦ elim there [
                    | inr behind ↦ inl behind
                    | inl same ↦
                        absurd (cc (sym live ∙ ap (λ (x : CachedEnvelope). x.deleted) same ∙ dead))
                  ]
                ]))
        | inr alive ↦ elim (Result-cases (open_row P F subkey r)) [
          | inr (e, fails) ↦
              let thrown : err e ≡ ok out = rw (alive, fails) at h in absurd (cc thrown)
          | inl (its, opened) ↦
              let c' = put_working P F db r name (ok its) c in
              let both : ((load_rows P F db subkey name rows c').1 >>= λ more.
              ok (loaded P F r its ∷ more))
                  ≡ ok out =
                rw (alive, opened) at h in
              let (more, rest, _) = >>=-eq_ok (load_rows P F db subkey name rows c').1 _ both in
              let there' : Member row rows
                  ⊎ (db.working.get c'.working row.key ≡ some (working_row name row payload)) =
                elim (Bool-cases (str_eq r.key row.key)) [
                  | inl same ↦
                      let is = unique r (inl refl) (eq_of_str_eq r.key row.key same) in
                      let what : its ≡ payload =
                        cc (sym opened ∙ ap (open_row P F subkey) is ∙ opens) in
                      inr (get-put_working row r name its c ∙ rw same (rw (is, what) refl))
                  | inr other ↦ elim start [
                    | inr done ↦ inr (get-put_working row r name its c ∙ rw other done)
                    | inl there ↦ elim there [
                      | inr behind ↦ inl behind
                      | inl same ↦ absurd (
                          cc (
                            sym other
                            ∙ ap (λ (x : CachedEnvelope). str_eq x.key row.key) (sym same)
                            ∙ str_eq_refl row.key))
                    ]
                  ]
                ] in
              rw (alive, opened)
                (load_rows-working subkey name rows c' more row payload rest unique_rest live opens
                  there')
        ]
      ]

  -- A load puts the record back as its cached envelope has it, whatever the working set held: an edit
  -- that waits in the outbox is gone from the working set, if after the flush the cache still holds
  -- a live envelope of the record, which opens, and the load does not throw.
  pub load_working_reverts :
      (net : Network) (type : SyncableType) (s : SessionKeys P) (c : Cache db) (subkey : CryptoKey)
      (out : List Loaded) (row : CachedEnvelope) (payload : Json)
      → (key_and_user P F s.locked s.raw_dek s.user_id >>= λ key.
          derive_subkey P key.0 (record_type type))
        ≡ ok subkey
      → db.envelopes.get (flush db net c).cache.envelopes row.key ≡ some row
      → row.type ≡ type_name (record_type type)
      → row.deleted ≡ false
      → open_row P F subkey row ≡ ok payload
      → (load_working P F db net type s c).1 ≡ ok out
      → db.working.get (load_working P F db net type s c).0.working row.key
        ≡ some (working_row (type_name (record_type type)) row payload)
  unfolding load_working
  load_working_reverts net type s c subkey out row payload unlocked stored typed live opens h =
      let name = type_name (record_type type) in
      let c' = (flush db net c).cache in
      let all = db.envelopes.to_array c'.envelopes in
      let rows = keep_if (of_type P F db name) all in
      let h' : (load_with P F db subkey name c').1 ≡ ok out = rw unlocked at h in
      let (listed, looped, _) = >>=-eq_ok (load_rows P F db subkey name rows c').1 _ h' in
      let there : Member row rows =
        Member-keep_if (of_type P F db name) row all
          (db.envelopes.to_array-of_get c'.envelopes row.key row stored)
          (rw typed (str_eq_refl name)) in
      let unique : (r : CachedEnvelope) → Member r rows → r.key ≡ row.key → r ≡ row = λ r m same.
        let found =
          db.envelopes.get-of_to_array c'.envelopes r
            (Member-of-keep_if (of_type P F db name) r all m).0 in
        let both : some r ≡ some row =
          sym found ∙ ap (db.envelopes.get c'.envelopes) same ∙ stored in
        cc both in
      rw unlocked (
        load_rows-working subkey name rows c' listed row payload looped unique live opens
          (inl there))
