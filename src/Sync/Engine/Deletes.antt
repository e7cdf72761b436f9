-- ===== src/Sync/Engine/Deletes.antt =====
-- web/src/sync/engine.ts: what a flush does to the queued deletes.
pub mod Sent
use mathlib.Core.List.{append_cancel_left}
use fincrypt.Prelude.{
  sym, Bool-cases, take, subst, starts_with, ℕ, zero, suc, ◌≡◌, refl, ap, ◌∙◌, true, false, Option,
  none, some, List, [], ◌∷◌, arith, Str, codes, Member, if◌then◌else◌, inl, inr, str_eq, str_eq_iff,
  str_eq_refl, separator_injective,
}
use fincrypt.Cache.{OutboxRow, Db, Cache, MetaRow}
use fincrypt.Sync.Outbox.{remove_flushed, PendingDelete, delete_key, drain, clear_delete}
use fincrypt.Sync.Outbox.Deletes.{
  pending_deletes_iff, put-IsPlain, IsPlain, pending_deletes-ColonFree, ColonFree,
}
use fincrypt.Sync.Merge.{Change, merge_change, merge_all}
use fincrypt.Sync.Engine.{
  pending_deletes, settle_batch, flush_deletes, SyncReply, SyncRequest, Network, post, get_cursor,
  apply_reply, flush_listed, pull, flush, settle_pull, request_of, put_cursor, cursor_key,
}
use fincrypt.Sync.Engine.Flush.{outbox_rows, flush_times, outbox-apply_reply}

pub delete_key_injective :
    (type type' id id' : Str)
    → ColonFree type
    → ColonFree type'
    → delete_key type id ≡ delete_key type' id'
    → (type ≡ type') × (id ≡ id')
unfolding delete_key
delete_key_injective type type' id id' h h' e =
    separator_injective b':' type type' id id' h h' (append_cancel_left (codes "delete:") _ _ e)

delete_key-ne-cursor_key : (type id : Str) → str_eq cursor_key (delete_key type id) ≡ false
unfolding delete_key str_eq
delete_key-ne-cursor_key type id = refl

module _ (db : Db) where
  abbrev pub queued_at : Cache db → Str → Str → Option MetaRow
  queued_at c type id = db.meta.get c.meta (delete_key type id)

  meta-merge_change : (c : Cache db) (ch : Change) → (merge_change db c ch).meta ≡ c.meta
  unfolding merge_change
  meta-merge_change c ch = ground arith

  meta-merge_all : (c : Cache db) (chs : List Change) → (merge_all db c chs).meta ≡ c.meta
  unfolding merge_all
  meta-merge_all c [] = refl
  meta-merge_all c (ch ∷ chs) = meta-merge_all (merge_change db c ch) chs ∙ meta-merge_change c ch

  queued_at-put_cursor :
      (o : Option Str) (c : Cache db) (type id : Str)
      → queued_at (put_cursor db o c) type id ≡ queued_at c type id
  queued_at-put_cursor none c type id = refl
  queued_at-put_cursor (some v) c type id =
      db.meta.get-put c.meta _ _ ∙ rw (delete_key-ne-cursor_key type id) refl

  pub queued_at-apply_reply :
      (reply : SyncReply) (c : Cache db) (type id : Str)
      → queued_at (apply_reply db reply c) type id ≡ queued_at c type id
  unfolding apply_reply
  queued_at-apply_reply reply c type id =
      queued_at-put_cursor reply.next_cursor (merge_all db c reply.changes) type id
      ∙ ap (λ t. db.meta.get t (delete_key type id)) (meta-merge_all c reply.changes)

  settle_pull_keeps :
      (o : Option SyncReply) (q : SyncRequest) (c : Cache db)
      → ((settle_pull db q o c).requests ≡ post q ∷ [])
        × ((settle_pull db q o c).cache.outbox ≡ c.outbox)
        × ((type id : Str) → queued_at (settle_pull db q o c).cache type id ≡ queued_at c type id)
  settle_pull_keeps none q c = (refl, refl, λ type id. refl)
  settle_pull_keeps (some reply) q c =
      (refl, outbox-apply_reply db reply c, queued_at-apply_reply reply c)

  -- While the outbox is empty, a flush makes the sync request alone, answered or not: it sends no
  -- DELETE, and every queued delete stays queued as it is.
  pub flush_idle :
      (net : Network) (c : Cache db) (type id : Str)
      → outbox_rows db c ≡ []
      → ((flush db net c).requests ≡ post (record { since = get_cursor db c; pushes = [] }) ∷ [])
        × (outbox_rows db (flush db net c).cache ≡ [])
        × (queued_at (flush db net c).cache type id ≡ queued_at c type id)
  unfolding flush drain pull
  flush_idle net c type id empty =
      let (made, same, kept) =
        settle_pull_keeps (net.post_sync (request_of db [] c)) (request_of db [] c) c in
      rw empty (made, ap db.outbox.rows same ∙ empty, kept type id)

  -- However often it is flushed, and whatever the server answers, a delete that is queued while the
  -- outbox is empty is never sent.
  pub flush_times_idle :
      (net : Network) (n : ℕ) (c : Cache db) (type id : Str)
      → outbox_rows db c ≡ []
      → queued_at (flush_times db net n c) type id ≡ queued_at c type id
  flush_times_idle net zero c type id empty = refl
  flush_times_idle net (suc n) c type id empty =
      let (_, still, kept) = flush_idle net c type id empty in
      flush_times_idle net n (flush db net c).cache type id still ∙ kept
