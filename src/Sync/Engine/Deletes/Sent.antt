-- ===== src/Sync/Engine/Deletes/Sent.antt =====
-- web/src/sync/engine.ts, `flushDeletes` in `flush`: a flush that pushes a batch sends the deletes.
use fincrypt.Prelude.{Str}
use fincrypt.Cache.{Db, Cache, MetaRow}
use fincrypt.Sync.Outbox.{PendingDelete, delete_key}

module _ (db : Db) where
  abbrev pub delete_of : Str → Str → Str → PendingDelete
  delete_of type id ts = record { type = type; record_id = id; ts = ts }

  abbrev pub delete_row : Str → Str → Str → MetaRow
  delete_row type id ts = record { key = delete_key type id; value = ts }
