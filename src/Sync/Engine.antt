-- ===== src/Sync/Engine.antt =====
-- web/src/sync/engine.ts: the flush of the outbox, the pull, and the scheduler.
-- What `apiFetch` gives is an argument: a reply, or that the call throws.
pub mod Flush
pub mod Deletes
use fincrypt.Prelude.{
  ℕ, suc, ◌+◌, ◌*◌, ◌^◌, min, Bool, true, false, Option, none, some, List, [], ◌∷◌, map, Str, codes,
  length, if◌then◌else◌,
}
use fincrypt.Cache.{Db, Cache, WireEnvelope, OutboxRow, MetaRow, outbox_seq}
use fincrypt.Sync.Outbox.{PendingDelete, drain, remove_flushed, pending_deletes, clear_delete}
use fincrypt.Sync.Merge.{Change, merge_all}

pub record FlushResult : Type 0 where
  pub pushed : ℕ
  pub failed : Bool

-- The body of POST /api/records/sync.
pub record SyncRequest : Type 0 where
  pub since : Option Str
  pub pushes : List WireEnvelope

-- Its reply, without `serverTime`, which nothing reads.
pub record SyncReply : Type 0 where
  pub changes : List Change
  pub next_cursor : Option Str

pub record Network : Type 0 where
  -- `none` where apiFetch throws
  pub post_sync : SyncRequest → Option SyncReply
  -- DELETE /api/records/type/id?ts=…: false where apiFetch throws
  pub delete_record : PendingDelete → Bool

-- The requests that a flush makes, in order.
pub data Request : Type 0 where
  post : SyncRequest → Request
  delete : PendingDelete → Request

abbrev pub cursor_key : Str
cursor_key = codes "cursor"

abbrev pub value_of : Option MetaRow → Option Str
value_of none = none
value_of (some row) = some row.value

abbrev pub batch_limit : ℕ
batch_limit = 500

abbrev pub envelope_of : OutboxRow → WireEnvelope
envelope_of row = row.entry.envelope

module _ (db : Db) where
  -- What a flush leaves: the cache, the result, and the requests that were made.
  pub record Flushed : Type 0 where
    pub cache : Cache db
    pub result : FlushResult
    pub requests : List Request

  unfoldable pub get_cursor : Cache db → Option Str
  get_cursor c = value_of (db.meta.get c.meta cursor_key)

  abbrev pub put_cursor : Option Str → Cache db → Cache db
  put_cursor none c = c
  put_cursor (some cursor) c = record c {
    meta = db.meta.put c.meta (record { key = cursor_key; value = cursor });
  }

  -- The changes are merged, then the cursor is stored.
  unfoldable pub apply_reply : SyncReply → Cache db → Cache db
  apply_reply reply c = put_cursor reply.next_cursor (merge_all db c reply.changes)

  -- One request for each delete that was listed before the loop; a failed one stays queued.
  unfoldable pub flush_listed : Network → List PendingDelete → Cache db → Cache db
  flush_listed net [] c = c
  flush_listed net (d ∷ ds) c =
      flush_listed net ds (if net.delete_record d then clear_delete db d.type d.record_id c else c)

  unfoldable pub flush_deletes : Network → Cache db → Cache db
  unfolding flush_listed
  flush_deletes net c = flush_listed net (pending_deletes db c) c

  abbrev pub request_of : List OutboxRow → Cache db → SyncRequest
  request_of batch c = record { since = get_cursor c; pushes = map envelope_of batch }

  abbrev failed_with : List Request → Cache db → Flushed
  failed_with requests c = record {
    cache = c;
    result = record { pushed = 0; failed = true };
    requests = requests;
  }

  -- From the reply to a pull on.
  abbrev settle_pull : SyncRequest → Option SyncReply → Cache db → Flushed
  settle_pull request none c = failed_with (post request ∷ []) c
  settle_pull request (some reply) c = record {
    cache = apply_reply reply c;
    result = record { pushed = 0; failed = false };
    requests = post request ∷ [];
  }

  unfoldable pub pull : Network → Cache db → Flushed
  pull net c = settle_pull (request_of [] c) (net.post_sync (request_of [] c)) c

  -- The cache once a reply to a batch is in: the changes and the cursor, then the rows of the batch
  -- go, whatever was queued meanwhile.
  unfoldable pub settle_batch : List OutboxRow → SyncReply → Cache db → Cache db
  settle_batch batch reply c = remove_flushed db (map outbox_seq batch) (apply_reply reply c)

  abbrev settle_push :
      Network → SyncRequest → List OutboxRow → Option SyncReply → Cache db → Flushed
  settle_push net request batch none c = failed_with (post request ∷ []) c
  settle_push net request batch (some reply) c = record {
    cache = flush_deletes net (settle_batch batch reply c);
    result = record { pushed = length batch; failed = false };
    requests = post request ∷ map delete (pending_deletes db (settle_batch batch reply c));
  }

  abbrev flush_batch : Network → List OutboxRow → Cache db → Flushed
  flush_batch net [] c = pull net c
  flush_batch net (row ∷ rows) c =
      settle_push net (request_of (row ∷ rows) c) (row ∷ rows)
        (net.post_sync (request_of (row ∷ rows) c)) c

  unfoldable pub flush : Network → Cache db → Flushed
  flush net c = flush_batch net (drain db batch_limit c) c
