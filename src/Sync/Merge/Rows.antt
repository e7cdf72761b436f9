-- ===== src/Sync/Merge/Rows.antt =====
-- web/src/sync/merge.ts.
-- Merging, seen through the row of one key.
use fincrypt.Prelude.{
  ◌≡◌, refl, ◌∙◌, Option, none, some, arith, Str, str_eq, str_eq_iff, str_lt_irrefl, if◌then◌else◌,
  Bool-cases, Option-cases, inl, inr,
}
use fincrypt.Cache.{Db, Cache, WireEnvelope, CachedEnvelope, WorkingRow}
use fincrypt.Sync.Outbox.{type_key}
use fincrypt.Sync.Merge.{Change, Tombstone, row_of, keeps_stored, bury, store_newer, merge_change}

-- The row that stays of a stored one and a new envelope.
abbrev pub newer : Option CachedEnvelope → WireEnvelope → Option CachedEnvelope
newer stored e = if keeps_stored stored e then stored else some (row_of e)

abbrev pub wire_key : WireEnvelope → Str
wire_key e = type_key e.type e.record_id

-- A change that brings an envelope.
abbrev pub change_of : WireEnvelope → Change
change_of e = record { envelope = some e; tombstone = none }

module _ (db : Db) where
  abbrev pub row_at : Cache db → Str → Option CachedEnvelope
  row_at c k = db.envelopes.get c.envelopes k

  abbrev pub working_at : Cache db → Str → Option WorkingRow
  working_at c k = db.working.get c.working k

  pub row_at-store_newer :
      (c : Cache db) (e : WireEnvelope) (k : Str)
      → row_at (store_newer db e c) k
        ≡ (if str_eq (wire_key e) k then newer (row_at c k) e else row_at c k)
  row_at-store_newer c e k =
      ground (arith, str_eq_iff (wire_key e) k, db.envelopes.get-put c.envelopes (row_of e) k)

  row_at-bury :
      (c : Cache db) (t : Tombstone) (k : Str)
      → row_at (bury db t c) k
        ≡ (if str_eq (type_key t.type t.record_id) k then none else row_at c k)
  row_at-bury c t k = db.envelopes.get-delete c.envelopes _ k

  newer_idempotent :
      (o : Option CachedEnvelope) (e : WireEnvelope) → newer (newer o e) e ≡ newer o e
  newer_idempotent none e = rw (str_lt_irrefl e.ts) refl
  newer_idempotent (some r) e = ground (arith, str_lt_irrefl e.ts)

  stored_twice :
      (c : Cache db) (e : WireEnvelope) (k : Str)
      → row_at (store_newer db e (store_newer db e c)) k ≡ row_at (store_newer db e c) k
  stored_twice c e k =
      row_at-store_newer (store_newer db e c) e k
      ∙ rw (row_at-store_newer c e k) (elim (Bool-cases (str_eq (wire_key e) k)) [
        | inl same ↦ rw same (newer_idempotent (row_at c k) e)
        | inr other ↦ rw other refl
      ])

  pub working_at-store_newer :
      (c : Cache db) (e : WireEnvelope) (k : Str)
      → working_at (store_newer db e c) k ≡ working_at c k
  working_at-store_newer c e k = ground arith

  working-stored_twice :
      (c : Cache db) (e : WireEnvelope) (k : Str)
      → working_at (store_newer db e (store_newer db e c)) k ≡ working_at (store_newer db e c) k
  working-stored_twice c e k = working_at-store_newer (store_newer db e c) e k

  buried_twice :
      (c : Cache db) (t : Tombstone) (k : Str)
      → row_at (bury db t (bury db t c)) k ≡ row_at (bury db t c) k
  buried_twice c t k = ground (arith, row_at-bury (bury db t c) t k, row_at-bury c t k)

  working-buried_twice :
      (c : Cache db) (t : Tombstone) (k : Str)
      → working_at (bury db t (bury db t c)) k ≡ working_at (bury db t c) k
  working-buried_twice c t k = ground (
    arith,
    db.working.get-delete c.working (type_key t.type t.record_id) k,
    db.working.get-delete (db.working.delete c.working (type_key t.type t.record_id))
        (type_key t.type t.record_id) k,
  )

  -- Applying a change a second time leaves every row of the cache as it is, of the envelopes and of
  -- the decrypted records.
  pub merge_change_idempotent :
      (c : Cache db) (change : Change) (k : Str)
      → (row_at (merge_change db (merge_change db c change) change) k
          ≡ row_at (merge_change db c change) k)
        × (working_at (merge_change db (merge_change db c change) change) k
            ≡ working_at (merge_change db c change) k)
  unfolding merge_change
  merge_change_idempotent c change k = elim (Option-cases change.tombstone) [
    | inl no_tombstone ↦ elim (Option-cases change.envelope) [
      | inl nothing ↦ rw (no_tombstone, nothing) (refl, refl)
      | inr (e, brings) ↦ rw (no_tombstone, brings) (stored_twice c e k, working-stored_twice c e k)
    ]
    | inr (t, buries) ↦ rw buries (buried_twice c t k, working-buried_twice c t k)
  ]
