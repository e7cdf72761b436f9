-- ===== src/Cache.antt =====
-- web/src/cache/db.ts: the rows of the four tables, and the cache as a state.
pub mod Tables
pub mod Lists
pub mod Search
use fincrypt.Prelude.{ℕ, Bool, Str}
use fincrypt.Prelude.Json.{Json}
use fincrypt.Cache.Tables.{KeyTable, SeqTable}

pub record CachedEnvelope : Type 0 where
  pub key : Str
  pub record_id : Str
  pub type : Str
  pub blob : Str
  pub aad : Str
  pub ts : Str
  pub deleted : Bool

pub record WorkingRow : Type 0 where
  pub key : Str
  pub record_id : Str
  pub type : Str
  pub payload : Json
  pub ts : Str

-- `OutboxEnvelope` of sync/outbox.ts, and the `envelope` of a `ChangeJSON`.
pub record WireEnvelope : Type 0 where
  pub record_id : Str
  pub type : Str
  pub nonce : Str
  pub ciphertext : Str
  pub aad : Str
  pub ts : Str

-- What `outbox.add` is given, without the key that the table assigns. The code stores
-- `JSON.stringify` of the envelope and takes `JSON.parse` of it; of an object of six texts that is
-- the object again, so the object itself stands here.
pub record OutboxEntry : Type 0 where
  pub record_id : Str
  pub type : Str
  pub envelope : WireEnvelope
  pub ts : Str

pub record OutboxRow : Type 0 where
  pub seq : ℕ
  pub entry : OutboxEntry

pub record MetaRow : Type 0 where
  pub key : Str
  pub value : Str

abbrev pub envelope_key : CachedEnvelope → Str
envelope_key r = r.key

abbrev pub working_key : WorkingRow → Str
working_key r = r.key

abbrev pub meta_key : MetaRow → Str
meta_key r = r.key

abbrev pub outbox_row : ℕ → OutboxEntry → OutboxRow
outbox_row n e = record { seq = n; entry = e }

abbrev pub outbox_seq : OutboxRow → ℕ
outbox_seq r = r.seq

-- `FincryptCache`: what Dexie gives for its four stores.
pub record Db : Type 1 where
  pub envelopes : KeyTable CachedEnvelope envelope_key
  pub working : KeyTable WorkingRow working_key
  pub outbox : SeqTable OutboxEntry OutboxRow outbox_row outbox_seq
  pub meta : KeyTable MetaRow meta_key

pub record Cache (db : Db) : Type 0 where
  pub envelopes : db.envelopes.Table
  pub working : db.working.Table
  pub outbox : db.outbox.Table
  pub meta : db.meta.Table

module _ (db : Db) where
  unfoldable pub clear_working : Cache db → Cache db
  clear_working c = record c { working = db.working.empty }

  unfoldable pub clear_all : Cache db
  clear_all = record {
    envelopes = db.envelopes.empty;
    working = db.working.empty;
    outbox = db.outbox.empty;
    meta = db.meta.empty;
  }
