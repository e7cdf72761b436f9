-- ===== src/Sync/Engine/Flush.antt =====
-- web/src/sync/engine.ts.
-- What a flush does to the outbox.
use fincrypt.Prelude.{
  length-drop, subst, ℕ, zero, suc, ◌*◌, ◌≤◌, ◌<◌, ◌≡◌, refl, sym, ap, ◌∙◌, true, false, not,
  Option, none, some, List, [], ◌∷◌, ◌++◌, arith, Str, length, take, drop, keep_if, map, All,
  if◌then◌else◌, Bool, List-cases, inl, inr,
}
use mathlib.Core.List.{append-nil}
use fincrypt.Cache.{Db, Cache, OutboxRow, outbox_seq}
use fincrypt.Cache.Tables.{is_in, IsAscending}
use fincrypt.Sync.Outbox.{PendingDelete, drain, remove_flushed, pending_deletes, clear_delete}
use fincrypt.Sync.Merge.{Change, merge_change, merge_all}
use fincrypt.Sync.Engine.{
  flush_batch, failed_with, SyncReply, SyncRequest, Network, post, get_cursor, apply_reply,
  flush_listed, flush_deletes, settle_batch, pull, flush, request_of, batch_limit, put_cursor,
  envelope_of,
}

abbrev unsent : List ℕ → OutboxRow → Bool
unsent seqs r = not (is_in seqs (outbox_seq r))

keep_if-unsent_above :
    (n : ℕ) (seqs : List ℕ) (rows : List OutboxRow)
    → All (λ r. n < outbox_seq r) rows
    → keep_if (unsent (n ∷ seqs)) rows ≡ keep_if (unsent seqs) rows
keep_if-unsent_above n seqs [] h = refl
keep_if-unsent_above n seqs (r ∷ rows) (h, hs) = ground (arith, keep_if-unsent_above n seqs rows hs)

keep_if-unsent_none : (rows : List OutboxRow) → keep_if (unsent []) rows ≡ rows
keep_if-unsent_none [] = refl
keep_if-unsent_none (r ∷ rows) = ap (λ t. r ∷ t) (keep_if-unsent_none rows)

-- Deleting a batch from the front by its keys leaves what stands behind it.
keep_if-unsent :
    (n : ℕ) (rows later : List OutboxRow)
    → IsAscending outbox_seq (rows ++ later)
    → keep_if (unsent (map outbox_seq (take n rows))) (rows ++ later) ≡ drop n rows ++ later
keep_if-unsent zero rows later h = keep_if-unsent_none (rows ++ later)
keep_if-unsent (suc n) [] later h = keep_if-unsent_none later
keep_if-unsent (suc n) (r ∷ rows) later (above, h) =
    let rest =
      keep_if-unsent_above (outbox_seq r) (map outbox_seq (take n rows)) (rows ++ later) above
      ∙ keep_if-unsent n rows later h in
    ground arith

module _ (db : Db) where
  abbrev pub outbox_rows : Cache db → List OutboxRow
  outbox_rows c = db.outbox.rows c.outbox

  outbox-merge_change : (c : Cache db) (ch : Change) → (merge_change db c ch).outbox ≡ c.outbox
  unfolding merge_change
  outbox-merge_change c ch = ground arith

  outbox-merge_all : (c : Cache db) (chs : List Change) → (merge_all db c chs).outbox ≡ c.outbox
  unfolding merge_all
  outbox-merge_all c [] = refl
  outbox-merge_all c (ch ∷ chs) =
      outbox-merge_all (merge_change db c ch) chs ∙ outbox-merge_change c ch

  outbox-put_cursor : (o : Option Str) (c : Cache db) → (put_cursor db o c).outbox ≡ c.outbox
  outbox-put_cursor none c = refl
  outbox-put_cursor (some v) c = refl

  pub outbox-apply_reply :
      (reply : SyncReply) (c : Cache db) → (apply_reply db reply c).outbox ≡ c.outbox
  unfolding apply_reply
  outbox-apply_reply reply c =
      outbox-put_cursor reply.next_cursor (merge_all db c reply.changes)
      ∙ outbox-merge_all c reply.changes

  outbox-clear_if :
      (b : Bool) (type id : Str) (c : Cache db)
      → (if b then clear_delete db type id c else c).outbox ≡ c.outbox
  unfolding clear_delete
  outbox-clear_if b type id c = ground arith

  outbox-flush_listed :
      (net : Network) (ds : List PendingDelete) (c : Cache db)
      → (flush_listed db net ds c).outbox ≡ c.outbox
  unfolding flush_listed
  outbox-flush_listed net [] c = refl
  outbox-flush_listed net (d ∷ ds) c =
      outbox-flush_listed net ds _ ∙ outbox-clear_if (net.delete_record d) d.type d.record_id c

  outbox-flush_deletes : (net : Network) (c : Cache db) → (flush_deletes db net c).outbox ≡ c.outbox
  unfolding flush_deletes
  outbox-flush_deletes net c = outbox-flush_listed net (pending_deletes db c) c

  -- Once the reply to a batch of at most n rows from the front of the outbox is in, exactly the batch
  -- is gone: the rows behind it and the rows that were queued while the request was under way are
  -- kept, in order.
  pub outbox_rows-settle_batch :
      (n : ℕ) (reply : SyncReply) (c c' : Cache db) (later : List OutboxRow)
      → outbox_rows c' ≡ outbox_rows c ++ later
      → outbox_rows (settle_batch db (drain db n c) reply c') ≡ drop n (outbox_rows c) ++ later
  unfolding settle_batch remove_flushed drain
  outbox_rows-settle_batch n reply c c' later grown =
      db.outbox.rows-bulk_delete _ _
      ∙ ap (λ t. keep_if (unsent (map outbox_seq (take n (outbox_rows c)))) (db.outbox.rows t))
          (outbox-apply_reply reply c')
      ∙ ap (keep_if (unsent (map outbox_seq (take n (outbox_rows c))))) grown
      ∙ keep_if-unsent n (outbox_rows c) later
          (subst (IsAscending outbox_seq) grown (db.outbox.rows-IsAscending c'.outbox))

  flush_batch_failed :
      (net : Network) (batch : List OutboxRow) (c : Cache db)
      → net.post_sync (request_of db batch c) ≡ none
      → flush_batch db net batch c ≡ failed_with db (post (request_of db batch c) ∷ []) c
  unfolding pull
  flush_batch_failed net [] c h = rw h refl
  flush_batch_failed net (row ∷ rows) c h = rw h refl

  -- A flush whose sync request fails makes no other request, reports the failure and changes nothing
  -- in the cache, so that every row stays queued.
  pub flush_failed :
      (net : Network) (c : Cache db)
      → net.post_sync (request_of db (drain db batch_limit c) c) ≡ none
      → ((flush db net c).cache ≡ c)
        × ((flush db net c).result ≡ record { pushed = 0; failed = true })
        × ((flush db net c).requests ≡ post (request_of db (drain db batch_limit c) c) ∷ [])
  unfolding flush
  flush_failed net c h = rw (flush_batch_failed net (drain db batch_limit c) c h) (refl, refl, refl)

  none_behind :
      (c : Cache db)
      → drain db batch_limit c ≡ []
      → outbox_rows c ≡ drop batch_limit (outbox_rows c)
  unfolding drain
  none_behind c drained = elim (List-cases (outbox_rows c)) [
    | inl empty ↦ rw empty refl
    | inr (row, rows, e) ↦ absurd (cc (subst (λ t. take batch_limit t ≡ []) e drained))
  ]

  flush_batch_succeeded :
      (net : Network) (batch : List OutboxRow) (c : Cache db) (reply : SyncReply)
      → net.post_sync (request_of db batch c) ≡ some reply
      → drain db batch_limit c ≡ batch
      → (outbox_rows (flush_batch db net batch c).cache ≡ drop batch_limit (outbox_rows c))
        × ((flush_batch db net batch c).result ≡ record { pushed = length batch; failed = false })
  unfolding pull
  flush_batch_succeeded net [] c reply h drained =
      rw h (ap db.outbox.rows (outbox-apply_reply reply c) ∙ none_behind c drained, refl)
  flush_batch_succeeded net (row ∷ rows) c reply h drained = rw h (sent, refl)
    where
      sent :
          outbox_rows (flush_deletes db net (settle_batch db (row ∷ rows) reply c))
          ≡ drop batch_limit (outbox_rows c)
      sent =
          ap db.outbox.rows (outbox-flush_deletes net (settle_batch db (row ∷ rows) reply c))
          ∙ ap (λ batch. outbox_rows (settle_batch db batch reply c)) (sym drained)
          ∙ outbox_rows-settle_batch batch_limit reply c c [] (sym (append-nil (outbox_rows c)))
          ∙ append-nil (drop batch_limit (outbox_rows c))

  -- A flush whose sync request is answered sends the first 500 queued envelopes, oldest first, and
  -- leaves exactly the rows behind them.
  pub flush_succeeded :
      (net : Network) (c : Cache db) (reply : SyncReply)
      → net.post_sync
          (record { since = get_cursor db c; pushes = map envelope_of (take 500 (outbox_rows c)) })
        ≡ some reply
      → (outbox_rows (flush db net c).cache ≡ drop 500 (outbox_rows c))
        × ((flush db net c).result
            ≡ record { pushed = length (take 500 (outbox_rows c)); failed = false })
  unfolding flush drain
  flush_succeeded net c reply h =
      flush_batch_succeeded net (take 500 (outbox_rows c)) c reply h refl

  -- A run of flushes, one after another.
  abbrev pub flush_times : Network → ℕ → Cache db → Cache db
  flush_times net zero c = c
  flush_times net (suc n) c = flush_times net n (flush db net c).cache

  -- Against a server that answers every sync request, n flushes empty an outbox of at most 500 n
  -- rows.
  pub flush_times_drains :
      (net : Network) (n : ℕ) (c : Cache db)
      → ((request : SyncRequest) → (reply : SyncReply) × (net.post_sync request ≡ some reply))
      → length (outbox_rows c) ≤ 500 * n
      → outbox_rows (flush_times net n c) ≡ []
  flush_times_drains net zero c answers h = elim (List-cases (outbox_rows c)) [
    | inl empty ↦ empty
    | inr (row, rows, e) ↦ absurd (omega (arith, ap length e))
  ]
  flush_times_drains net (suc n) c answers h =
      let (reply, answered) =
        answers (record {
          since = get_cursor db c;
          pushes = map envelope_of (take 500 (outbox_rows c));
        }) in
      let (left, _) = flush_succeeded net c reply answered in
      flush_times_drains net n (flush db net c).cache answers
        (omega (arith, ap length left, length-drop 500 (outbox_rows c)))
