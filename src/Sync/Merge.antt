-- ===== src/Sync/Merge.antt =====
-- web/src/sync/merge.ts: a server change is applied to the cache; the greater timestamp wins.
pub mod Rows
pub mod Order
use fincrypt.Prelude.{
  Bool, false, not, Option, none, some, List, [], ◌∷◌, Str, str_lt, if◌then◌else◌,
}
use fincrypt.Cache.{Db, Cache, WireEnvelope, CachedEnvelope}
use fincrypt.Sync.Outbox.{type_key}

pub record Tombstone : Type 0 where
  pub record_id : Str
  pub type : Str
  pub deleted_at : Str

-- `ChangeJSON`: both fields are optional.
pub record Change : Type 0 where
  pub envelope : Option WireEnvelope
  pub tombstone : Option Tombstone

abbrev pub row_of : WireEnvelope → CachedEnvelope
row_of e = record {
  key = type_key e.type e.record_id;
  record_id = e.record_id;
  type = e.type;
  blob = e.ciphertext;
  aad = e.aad;
  ts = e.ts;
  deleted = false;
}

-- existing != null && existing.ts >= e.ts
abbrev pub keeps_stored : Option CachedEnvelope → WireEnvelope → Bool
keeps_stored none e = false
keeps_stored (some existing) e = not (str_lt existing.ts e.ts)

module _ (db : Db) where
  abbrev pub bury : Tombstone → Cache db → Cache db
  bury t c = record c {
    envelopes = db.envelopes.delete c.envelopes (type_key t.type t.record_id);
    working = db.working.delete c.working (type_key t.type t.record_id);
  }

  abbrev pub store_newer : WireEnvelope → Cache db → Cache db
  store_newer e c =
      if keeps_stored (db.envelopes.get c.envelopes (type_key e.type e.record_id)) e
      then c
      else record c { envelopes = db.envelopes.put c.envelopes (row_of e) }

  abbrev merge_parts : Option Tombstone → Option WireEnvelope → Cache db → Cache db
  merge_parts (some t) e c = bury t c
  merge_parts none none c = c
  merge_parts none (some e) c = store_newer e c

  unfoldable pub merge_change : Cache db → Change → Cache db
  merge_change c change = merge_parts change.tombstone change.envelope c

  -- for (const change of res.changes) await mergeChange(change)
  unfoldable pub merge_all : Cache db → List Change → Cache db
  merge_all c [] = c
  merge_all c (change ∷ changes) = merge_all (merge_change c change) changes
