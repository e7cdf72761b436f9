-- ===== src/Sync/Tests/Flushes.antt =====
-- Runs of flushes, of the scheduler and of overlapping flushes over tables that are lists.
use fincrypt.Prelude.{◌≡◌, ◌⊎◌, refl, some, none, [], ◌∷◌, codes, inl, Member, true, false, arith}
use fincrypt.Cache.{Cache, OutboxRow, outbox_row, clear_all}
use fincrypt.Cache.Lists.{list_db}
use fincrypt.Sync.Outbox.{enqueue, enqueue_delete}
use fincrypt.Sync.Engine.{Network, SyncReply, post, flush, get_cursor}
use fincrypt.Sync.Engine.Flush.{outbox_rows, flush_times, flush_times_drains}
use fincrypt.Sync.Engine.Deletes.{queued_at, flush_idle}
use fincrypt.Sync.Interleaving.{System, Reach, start, here, next, mutate}
use fincrypt.Sync.Interleaving.Safety.{no_write_lost}
use fincrypt.Sync.Tests.{wire, fresh, chat}

abbrev nothing_new : SyncReply
nothing_new = record { changes = []; next_cursor = none }

abbrev online : Network
online = record { post_sync = λ q. some nothing_new; delete_record = λ d. true }

abbrev offline : Network
offline = record { post_sync = λ q. none; delete_record = λ d. false }

abbrev one_queued : Cache list_db
one_queued = enqueue list_db (codes "r1") chat (wire (codes "r1") (codes "2024")) fresh

abbrev two_queued : Cache list_db
two_queued = enqueue list_db (codes "r2") chat (wire (codes "r2") (codes "2025")) one_queued

abbrev with_delete : Cache list_db
with_delete = enqueue_delete list_db (codes "r1") chat (codes "2024") one_queued

flush_times_drains_example : outbox_rows list_db (flush_times list_db online 1 two_queued) ≡ []
unfolding list_db enqueue clear_all
flush_times_drains_example =
    flush_times_drains list_db online 1 two_queued (λ q. (nothing_new, refl)) (omega arith)

flush_idle_example :
    ((flush list_db online fresh).requests
      ≡ post (record { since = get_cursor list_db fresh; pushes = [] }) ∷ [])
    × (outbox_rows list_db (flush list_db online fresh).cache ≡ [])
    × (queued_at list_db (flush list_db online fresh).cache chat (codes "r1")
        ≡ queued_at list_db fresh chat (codes "r1"))
unfolding list_db clear_all
flush_idle_example = flush_idle list_db online fresh chat (codes "r1") refl

abbrev first_row : OutboxRow
first_row = outbox_row 1 (record {
  record_id = codes "r1";
  type = chat;
  envelope = wire (codes "r1") (codes "2024");
  ts = codes "2024";
})

abbrev after_save : System list_db
after_save = record { cache = one_queued; flights = []; queued = first_row ∷ []; answered = [] }

after_save-Reach : Reach list_db after_save
unfolding list_db clear_all start
after_save-Reach =
    next here (mutate (start list_db) (codes "r1") chat (wire (codes "r1") (codes "2024")))

no_write_lost_example :
    Member first_row (outbox_rows list_db after_save.cache) ⊎ Member first_row after_save.answered
no_write_lost_example = no_write_lost list_db after_save first_row after_save-Reach (inl refl)
