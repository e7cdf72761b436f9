-- ===== src/Sync/Interleaving.antt =====
-- web/src/sync.
-- Mutations and flushes that overlap: while one flush waits for its reply, records are saved, other
-- flushes start, and replies come in any order or not at all.
pub mod Safety
use fincrypt.Prelude.{
  ℕ, suc, ◌<◌, ◌≡◌, ◌⊎◌, refl, sym, ap, ◌∙◌, subst, true, not, Bool, Bool-cases, List, [], ◌∷◌,
  ◌++◌, arith, Str, map, inl, inr, Member, keep_if, Member-append_left, Member-append_right,
  Member-append_cases, Member-keep_if, Member-of-keep_if, take, drop, ◌==◌, ==_iff,
  take-append-drop,
}
use fincrypt.Cache.{
  Db, Cache, OutboxRow, OutboxEntry, outbox_seq, outbox_row, WireEnvelope, clear_all,
}
use fincrypt.Cache.Tables.{is_in}
use fincrypt.Sync.Outbox.{drain, remove_flushed, enqueue}
use fincrypt.Sync.Engine.{SyncReply, settle_batch, batch_limit}
use fincrypt.Sync.Engine.Flush.{outbox_rows, outbox-apply_reply}

module _ (db : Db) where
  -- The cache, the batches that wait for a reply, and two logs that the code does not keep: every
  -- row that was ever queued, and every row whose push was answered.
  pub record System : Type 0 where
    pub cache : Cache db
    pub flights : List (List OutboxRow)
    pub queued : List OutboxRow
    pub answered : List OutboxRow

  unfoldable pub start : System
  start = record { cache = clear_all db; flights = []; queued = []; answered = [] }

  abbrev pub entry_of : Str → Str → WireEnvelope → OutboxEntry
  entry_of record_id type e = record { record_id = record_id; type = type; envelope = e; ts = e.ts }

  pub data Step : System → System → Type 0 where
    -- enqueue
    mutate :
        (s : System) (record_id type : Str) (e : WireEnvelope)
        → Step s (record s {
          cache = enqueue db record_id type e s.cache;
          queued =
              outbox_row (db.outbox.next_seq s.cache.outbox) (entry_of record_id type e) ∷ s.queued;
        })
    -- flush, up to the request
    depart : (s : System) → Step s (record s { flights = drain db batch_limit s.cache ∷ s.flights })
    -- the reply to one of the waiting batches
    arrive :
        (s : System) (before : List (List OutboxRow)) (batch : List OutboxRow)
        (after : List (List OutboxRow)) (reply : SyncReply)
        → s.flights ≡ before ++ batch ∷ after
        → Step s (record s {
          cache = settle_batch db batch reply s.cache;
          flights = before ++ after;
          answered = batch ++ s.answered;
        })
    -- the request of one of them fails
    lose :
        (s : System) (before : List (List OutboxRow)) (batch : List OutboxRow)
        (after : List (List OutboxRow))
        → s.flights ≡ before ++ batch ∷ after
        → Step s (record s { flights = before ++ after })
    -- a pull, a merge, a delete: whatever leaves the outbox alone
    elsewhere :
        (s : System) (c : Cache db) → c.outbox ≡ s.cache.outbox → Step s (record s { cache = c })

  pub data Reach : System → Type 0 where
    here : Reach start
    next : {s t : System} → Reach s → Step s t → Reach t
