-- ===== src/Sync/Interleaving/Safety.antt =====
-- web/src/sync, over many flushes: what holds in every state that overlapping runs reach.
use fincrypt.Prelude.{
  ℕ, suc, ◌<◌, ◌≡◌, ◌⊎◌, refl, sym, ap, ◌∙◌, subst, true, not, Bool, Bool-cases, List, [], ◌∷◌,
  ◌++◌, arith, Str, map, inl, inr, Member, keep_if, Member-append_left, Member-append_right,
  Member-append_cases, Member-keep_if, Member-of-keep_if, take, drop, ◌==◌, ==_iff,
  take-append-drop,
}
use fincrypt.Cache.{Db, Cache, OutboxRow, outbox_seq, outbox_row, WireEnvelope, clear_all}
use fincrypt.Cache.Tables.{is_in}
use fincrypt.Sync.Outbox.{drain, remove_flushed, enqueue}
use fincrypt.Sync.Engine.{SyncReply, settle_batch, batch_limit}
use fincrypt.Sync.Engine.Flush.{outbox_rows, outbox-apply_reply}
use fincrypt.Sync.Interleaving.{
  System, start, entry_of, Step, mutate, depart, arrive, lose, elsewhere, Reach, here, next,
}

module _ (db : Db) where
  record IsSound (s : System db) : Type 0 where
    -- one row for each key
    one_row :
        (r r' : OutboxRow)
        → Member r s.queued
        → Member r' s.queued
        → outbox_seq r ≡ outbox_seq r'
        → r ≡ r'
    below : (r : OutboxRow) → Member r s.queued → outbox_seq r < db.outbox.next_seq s.cache.outbox
    known : (r : OutboxRow) → Member r (outbox_rows db s.cache) → Member r s.queued
    waiting :
        (batch : List OutboxRow) (r : OutboxRow)
        → Member batch s.flights
        → Member r batch
        → Member r s.queued
    safe :
        (r : OutboxRow)
        → Member r s.queued
        → Member r (outbox_rows db s.cache) ⊎ Member r s.answered

  rows-enqueue :
      (record_id type : Str) (e : WireEnvelope) (c : Cache db)
      → outbox_rows db (enqueue db record_id type e c)
        ≡ outbox_rows db c
          ++ outbox_row (db.outbox.next_seq c.outbox) (entry_of db record_id type e) ∷ []
  unfolding enqueue
  rows-enqueue record_id type e c = db.outbox.rows-add _ _

  next_seq-enqueue :
      (record_id type : Str) (e : WireEnvelope) (c : Cache db)
      → db.outbox.next_seq (enqueue db record_id type e c).outbox
        ≡ suc (db.outbox.next_seq c.outbox)
  unfolding enqueue
  next_seq-enqueue record_id type e c = db.outbox.next_seq-add _ _

  rows-settle_batch :
      (batch : List OutboxRow) (reply : SyncReply) (c : Cache db)
      → outbox_rows db (settle_batch db batch reply c)
        ≡ keep_if (λ r. not (is_in (map outbox_seq batch) (outbox_seq r))) (outbox_rows db c)
  unfolding settle_batch remove_flushed
  rows-settle_batch batch reply c =
      db.outbox.rows-bulk_delete _ _
      ∙ ap
          (λ t. keep_if (λ r. not (is_in (map outbox_seq batch) (outbox_seq r))) (db.outbox.rows t))
          (outbox-apply_reply db reply c)

  next_seq-settle_batch :
      (batch : List OutboxRow) (reply : SyncReply) (c : Cache db)
      → db.outbox.next_seq (settle_batch db batch reply c).outbox ≡ db.outbox.next_seq c.outbox
  unfolding settle_batch remove_flushed
  next_seq-settle_batch batch reply c =
      db.outbox.next_seq-bulk_delete _ _ ∙ ap db.outbox.next_seq (outbox-apply_reply db reply c)

  mutate-IsSound :
      (s : System db) (record_id type : Str) (e : WireEnvelope)
      → IsSound s
      → IsSound (record s {
        cache = enqueue db record_id type e s.cache;
        queued =
            outbox_row (db.outbox.next_seq s.cache.outbox) (entry_of db record_id type e)
            ∷ s.queued;
      })
  mutate-IsSound s record_id type e h =
      let new = outbox_row (db.outbox.next_seq s.cache.outbox) (entry_of db record_id type e) in
      record {
        one_row = one;
        below = under;
        known = λ r m.
            elim (Member-append_cases r (outbox_rows db s.cache) (new ∷ [])
              (subst (Member r) (rows-enqueue record_id type e s.cache) m)) [
                | inl old ↦ inr (h.known r old)
                | inr (inl same) ↦ inl same
                | inr (inr no_more) ↦ absurd no_more
              ];
        waiting = λ batch r m n. inr (h.waiting batch r m n);
        safe = λ r m. elim m [
          | inl same ↦ inl (
              subst (Member r) (sym (rows-enqueue record_id type e s.cache))
                (Member-append_right r (outbox_rows db s.cache) (new ∷ []) (inl same)))
          | inr old ↦ elim (h.safe r old) [
            | inl there ↦ inl (
                subst (Member r) (sym (rows-enqueue record_id type e s.cache))
                  (Member-append_left r (outbox_rows db s.cache) (new ∷ []) there))
            | inr gone ↦ inr gone
          ]
        ];
      }
    where
      one :
          (r r' : OutboxRow)
          → Member r (
              outbox_row (db.outbox.next_seq s.cache.outbox) (entry_of db record_id type e)
              ∷ s.queued)
          → Member r' (
              outbox_row (db.outbox.next_seq s.cache.outbox) (entry_of db record_id type e)
              ∷ s.queued)
          → outbox_seq r ≡ outbox_seq r'
          → r ≡ r'
      one r r' (inl a) (inl b) same = a ∙ sym b
      one r r' (inl a) (inr b) same = absurd (omega (arith, h.below r' b, ap outbox_seq a))
      one r r' (inr a) (inl b) same = absurd (omega (arith, h.below r a, ap outbox_seq b))
      one r r' (inr a) (inr b) same = h.one_row r r' a b same

      under :
          (r : OutboxRow)
          → Member r (
              outbox_row (db.outbox.next_seq s.cache.outbox) (entry_of db record_id type e)
              ∷ s.queued)
          → outbox_seq r < db.outbox.next_seq (enqueue db record_id type e s.cache).outbox
      under r (inl a) = omega (arith, ap outbox_seq a, next_seq-enqueue record_id type e s.cache)
      under r (inr a) = omega (arith, h.below r a, next_seq-enqueue record_id type e s.cache)

  Member-take :
      (n : ℕ) (r : OutboxRow) (rows : List OutboxRow) → Member r (take n rows) → Member r rows
  Member-take n r rows m =
      subst (Member r) (take-append-drop n rows)
        (Member-append_left r (take n rows) (drop n rows) m)

  depart-IsSound :
      (s : System db)
      → IsSound s
      → IsSound (record s { flights = drain db batch_limit s.cache ∷ s.flights })
  unfolding drain
  depart-IsSound s h = record {
    one_row = h.one_row;
    below = h.below;
    known = h.known;
    waiting = wait;
    safe = h.safe;
  }
    where
      wait :
          (batch : List OutboxRow) (r : OutboxRow)
          → Member batch (take batch_limit (outbox_rows db s.cache) ∷ s.flights)
          → Member r batch
          → Member r s.queued
      wait batch r (inl same) n =
          h.known r (Member-take batch_limit r (outbox_rows db s.cache) (subst (Member r) same n))
      wait batch r (inr m) n = h.waiting batch r m n

  still_waiting :
      (s : System db) (before after : List (List OutboxRow)) (batch x : List OutboxRow)
      → s.flights ≡ before ++ batch ∷ after
      → Member x (before ++ after)
      → Member x s.flights
  still_waiting s before after batch x e m =
      subst (Member x) (sym e) (elim (Member-append_cases x before after m) [
        | inl l ↦ Member-append_left x before (batch ∷ after) l
        | inr r ↦ Member-append_right x before (batch ∷ after) (inr r)
      ])

  row_of_seq :
      (batch : List OutboxRow) (n : ℕ)
      → is_in (map outbox_seq batch) n ≡ true
      → (r : OutboxRow) × Member r batch × (outbox_seq r ≡ n)
  row_of_seq [] n h = cc
  row_of_seq (r ∷ batch) n h = elim (Bool-cases (outbox_seq r == n)) [
    | inl same ↦ (r, inl refl, (==_iff (outbox_seq r) n).0 same)
    | inr other ↦ let (r', m, same) = row_of_seq batch n (ground arith) in (r', inr m, same)
  ]

  arrive-IsSound :
      (s : System db) (before : List (List OutboxRow)) (batch : List OutboxRow)
      (after : List (List OutboxRow)) (reply : SyncReply)
      → s.flights ≡ before ++ batch ∷ after
      → IsSound s
      → IsSound (record s {
        cache = settle_batch db batch reply s.cache;
        flights = before ++ after;
        answered = batch ++ s.answered;
      })
  arrive-IsSound s before batch after reply e h =
      let in_batch : OutboxRow → Bool = λ r. is_in (map outbox_seq batch) (outbox_seq r) in
      let flying : Member batch s.flights =
        subst (Member batch) (sym e)
          (Member-append_right batch before (batch ∷ after) (inl refl)) in
      record {
        one_row = h.one_row;
        below = λ r m. omega (arith, h.below r m, next_seq-settle_batch batch reply s.cache);
        known = λ r m.
            h.known r
              (Member-of-keep_if (λ x. not (in_batch x)) r (outbox_rows db s.cache)
                (subst (Member r) (rows-settle_batch batch reply s.cache) m)).0;
        waiting = λ x r m n. h.waiting x r (still_waiting s before after batch x e m) n;
        safe = λ r m. elim (h.safe r m) [
          | inr gone ↦ inr (Member-append_right r batch s.answered gone)
          | inl there ↦ elim (Bool-cases (in_batch r)) [
            | inl sent ↦
                let (r', flew, same) = row_of_seq batch (outbox_seq r) sent in
                let one = h.one_row r' r (h.waiting batch r' flying flew) m same in
                inr (Member-append_left r batch s.answered (subst (λ x. Member x batch) one flew))
            | inr later ↦ inl (
                subst (Member r) (sym (rows-settle_batch batch reply s.cache)) (
                  Member-keep_if (λ x. not (in_batch x)) r (outbox_rows db s.cache) there
                    (rw later refl)))
          ]
        ];
      }

  Step-IsSound : {s t : System db} → Step db s t → IsSound s → IsSound t
  Step-IsSound (mutate s record_id type e) h = mutate-IsSound s record_id type e h
  Step-IsSound (depart s) h = depart-IsSound s h
  Step-IsSound (arrive s before batch after reply e) h =
      arrive-IsSound s before batch after reply e h
  Step-IsSound (lose s before batch after e) h = record {
    one_row = h.one_row;
    below = h.below;
    known = h.known;
    waiting = λ x r m n. h.waiting x r (still_waiting s before after batch x e m) n;
    safe = h.safe;
  }
  Step-IsSound (elsewhere s c e) h = record {
    one_row = h.one_row;
    below = λ r m. rw (ap db.outbox.next_seq e) (h.below r m);
    known = λ r m. h.known r (subst (λ t. Member r (db.outbox.rows t)) e m);
    waiting = h.waiting;
    safe = λ r m. elim (h.safe r m) [
      | inl there ↦ inl (subst (λ t. Member r (db.outbox.rows t)) (sym e) there)
      | inr gone ↦ inr gone
    ];
  }

  start-IsSound : IsSound (start db)
  unfolding start clear_all
  start-IsSound = record {
    one_row = λ r r' m. absurd m;
    below = λ r m. absurd m;
    known = λ r m. subst (Member r) db.outbox.rows-empty m;
    waiting = λ batch r m. absurd m;
    safe = λ r m. absurd m;
  }

  Reach-IsSound : {s : System db} → Reach db s → IsSound s
  Reach-IsSound here = start-IsSound
  Reach-IsSound (next r st) = Step-IsSound st (Reach-IsSound r)

  -- No write is lost: however saves, flushes, replies and failures overlap, every row that was ever
  -- queued is in the outbox or was in a push that the server answered.
  pub no_write_lost :
      (s : System db) (r : OutboxRow)
      → Reach db s
      → Member r s.queued
      → Member r (outbox_rows db s.cache) ⊎ Member r s.answered
  no_write_lost s r run m = (Reach-IsSound run).safe r m
