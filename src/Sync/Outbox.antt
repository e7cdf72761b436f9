-- ===== src/Sync/Outbox.antt =====
-- web/src/sync/outbox.ts: the durable queue of mutations, and the queued deletes.
pub mod Deletes
use fincrypt.Prelude.{
  ℕ, Bool, true, false, Option, none, some, List, [], ◌∷◌, ◌++◌, map, Str, codes, take, split,
  starts_with, if◌then◌else◌, get_or,
}
use fincrypt.Cache.{
  Db, Cache, WireEnvelope, OutboxEntry, OutboxRow, MetaRow, CachedEnvelope, outbox_seq,
}

-- type + ':' + recordId
unfoldable pub type_key : Str → Str → Str
type_key type record_id = type ++ (codes ":" ++ record_id)

-- 'delete:' + type + ':' + recordId
unfoldable pub delete_key : Str → Str → Str
delete_key type record_id = codes "delete:" ++ (type ++ (codes ":" ++ record_id))

pub record PendingDelete : Type 0 where
  pub type : Str
  pub record_id : Str
  pub ts : Str

-- const [, type, recordId] = m.key.split(':'), with '' for what is not there
abbrev pub pending_of : MetaRow → PendingDelete
pending_of m = record {
  type = get_or (split b':' m.key) 1 [];
  record_id = get_or (split b':' m.key) 2 [];
  ts = m.value;
}

abbrev pub is_delete : MetaRow → Bool
is_delete m = starts_with (codes "delete:") m.key

pub pending_from : List MetaRow → List PendingDelete
pending_from [] = []
pending_from (m ∷ metas) =
    if is_delete m then pending_of m ∷ pending_from metas else pending_from metas

module _ (db : Db) where
  unfoldable pub enqueue : Str → Str → WireEnvelope → Cache db → Cache db
  enqueue record_id type envelope c = record c {
    outbox =
        db.outbox.add c.outbox
          (record { record_id = record_id; type = type; envelope = envelope; ts = envelope.ts });
  }

  -- `update` changes a row that is there, and only that.
  abbrev mark_deleted : Option CachedEnvelope → db.envelopes.Table → db.envelopes.Table
  mark_deleted none t = t
  mark_deleted (some e) t = db.envelopes.put t (record e { deleted = true })

  unfoldable pub enqueue_delete : Str → Str → Str → Cache db → Cache db
  enqueue_delete record_id type ts c = record c {
    meta = db.meta.put c.meta (record { key = delete_key type record_id; value = ts });
    envelopes = mark_deleted (db.envelopes.get c.envelopes (type_key type record_id)) c.envelopes;
  }

  unfoldable pub drain : ℕ → Cache db → List OutboxRow
  drain limit c = take limit (db.outbox.rows c.outbox)

  unfoldable pub remove_flushed : List ℕ → Cache db → Cache db
  remove_flushed seqs c = record c { outbox = db.outbox.bulk_delete c.outbox seqs }

  unfoldable pub pending_deletes : Cache db → List PendingDelete
  unfolding pending_from
  pending_deletes c = pending_from (db.meta.to_array c.meta)

  unfoldable pub clear_delete : Str → Str → Cache db → Cache db
  clear_delete type record_id c = record c {
    meta = db.meta.delete c.meta (delete_key type record_id);
  }
