-- ===== src/Sync/Outbox/Deletes.antt =====
-- web/src/sync/outbox.ts.
-- Queued deletes: what is queued is listed, and what is listed was queued.
use fincrypt.Prelude.{
  subst, ◌⊎◌, ◌≡◌, ◌↔◌, refl, sym, ap, ◌∙◌, inl, inr, true, false, Bool-cases, some, none, List, [],
  ◌∷◌, ◌++◌, arith, Str, codes, includes, split-none, split-first, starts_with-append, Member,
  str_eq, str_eq_refl,
}
use fincrypt.Cache.{Db, Cache, MetaRow}
use fincrypt.Sync.Outbox.{
  PendingDelete, pending_of, pending_from, is_delete, delete_key, enqueue_delete, pending_deletes,
  clear_delete,
}

abbrev pub ColonFree : Str → Type 0
ColonFree s = includes b':' s ≡ false

pub pending_of-delete_key :
    (type id ts : Str)
    → ColonFree type
    → ColonFree id
    → pending_of (record { key = delete_key type id; value = ts })
      ≡ record { type = type; record_id = id; ts = ts }
unfolding delete_key
pending_of-delete_key type id ts h k =
    rw (split-first b':' (codes "delete") (type ++ (codes ":" ++ id)) (unfold includes in refl))
      (rw (split-first b':' type id h) (rw (split-none b':' id k) refl))

is_delete-delete_key :
    (type id ts : Str) → is_delete (record { key = delete_key type id; value = ts }) ≡ true
unfolding delete_key
is_delete-delete_key type id ts = starts_with-append (codes "delete:") _

Member-pending_from :
    (r : MetaRow) (metas : List MetaRow)
    → Member r metas
    → is_delete r ≡ true
    → Member (pending_of r) (pending_from metas)
unfolding pending_from
Member-pending_from r [] m h = m
Member-pending_from r (x ∷ metas) (inl e) h = rw (← e) (rw h (inl refl))
Member-pending_from r (x ∷ metas) (inr m) h = elim (Bool-cases (is_delete x)) [
  | inl listed ↦ rw listed (inr (Member-pending_from r metas m h))
  | inr other ↦ rw other (Member-pending_from r metas m h)
]

Member-of-pending_from :
    (p : PendingDelete) (metas : List MetaRow)
    → Member p (pending_from metas)
    → (r : MetaRow) × Member r metas × (is_delete r ≡ true) × (p ≡ pending_of r)
unfolding pending_from
Member-of-pending_from p [] m = absurd m
Member-of-pending_from p (x ∷ metas) m = elim (Bool-cases (is_delete x)) [
  | inl listed ↦
      let m' : (p ≡ pending_of x) ⊎ Member p (pending_from metas) = rw listed at m in
      elim m' [
        | inl e ↦ (x, inl refl, listed, e)
        | inr n ↦
            let (r, there, passes, same) = Member-of-pending_from p metas n in
            (r, inr there, passes, same)
      ]
  | inr other ↦
      let (r, there, passes, same) = Member-of-pending_from p metas (rw other at m) in
      (r, inr there, passes, same)
]

module _ (db : Db) where
  -- Every key under 'delete:' was made of a type and an id with no colon.
  pub record IsPlain (c : Cache db) : Type 0 where
    pub at :
        (r : MetaRow)
        → Member r (db.meta.to_array c.meta)
        → is_delete r ≡ true
        → (type : Str) × (id : Str) × ColonFree type × ColonFree id × (r.key ≡ delete_key type id)

  pub pending_deletes-ColonFree :
      (c : Cache db) (d : PendingDelete)
      → IsPlain c
      → Member d (pending_deletes db c)
      → ColonFree d.type × ColonFree d.record_id
  unfolding pending_deletes
  pending_deletes-ColonFree c d plain m =
      let (r, there, listed, same) = Member-of-pending_from d (db.meta.to_array c.meta) m in
      let (type, id, h, k, made) = plain.at r there listed in
      let names : r ≡ record { key = delete_key type id; value = r.value } = ground arith in
      let whole = same ∙ ap pending_of names ∙ pending_of-delete_key type id r.value h k in
      subst (λ (x : PendingDelete). ColonFree x.type × ColonFree x.record_id) (sym whole) (h, k)

  -- Where every key of the meta table under 'delete:' was made of a type and an id with no colon, a
  -- delete whose type and id hold no colon is listed, with a timestamp, exactly if its own key holds
  -- that timestamp.
  pub pending_deletes_iff :
      (c : Cache db) (type id ts : Str)
      → IsPlain c
      → ColonFree type
      → ColonFree id
      → Member (record { type = type; record_id = id; ts = ts }) (pending_deletes db c) ↔ (
          db.meta.get c.meta (delete_key type id)
          ≡ some (record { key = delete_key type id; value = ts }))
  unfolding pending_deletes
  pending_deletes_iff c type id ts plain h k = (listed, queued)
    where
      listed :
          Member
            (record { type = type; record_id = id; ts = ts })
            (pending_from (db.meta.to_array c.meta))
          → db.meta.get c.meta (delete_key type id)
            ≡ some (record { key = delete_key type id; value = ts })
      listed m =
          let (r, there, is, same) = Member-of-pending_from _ _ m in
          let (type', id', h', k', made) = plain.at r there is in
          let stored = db.meta.get-of_to_array c.meta r there in
          let names : r ≡ record { key = delete_key type' id'; value = r.value } = ground arith in
          let whole = same ∙ ap pending_of names ∙ pending_of-delete_key type' id' r.value h' k' in
          let types : type ≡ type' = ap (λ (p : PendingDelete). p.type) whole in
          let ids : id ≡ id' = ap (λ (p : PendingDelete). p.record_id) whole in
          let stamps : ts ≡ r.value = ap (λ (p : PendingDelete). p.ts) whole in
          cc (stored, names, made)

      queued :
          db.meta.get c.meta (delete_key type id)
            ≡ some (record { key = delete_key type id; value = ts })
          → Member
              (record { type = type; record_id = id; ts = ts })
              (pending_from (db.meta.to_array c.meta))
      queued e = rw (← (pending_of-delete_key type id ts h k)) (
          Member-pending_from _ _ (db.meta.to_array-of_get c.meta _ _ e)
            (is_delete-delete_key type id ts))

  pub put-IsPlain :
      (c : Cache db) (row : MetaRow)
      → IsPlain c
      → (is_delete row ≡ true
          → (type : Str) × (id : Str) × ColonFree type
            × ColonFree id
            × (row.key ≡ delete_key type id))
      → IsPlain (record c { meta = db.meta.put c.meta row })
  put-IsPlain c row plain made = record {
    at = λ r m listed.
        let stored = db.meta.get-of_to_array (db.meta.put c.meta row) r m in
        let stored' = sym (db.meta.get-put c.meta row r.key) ∙ stored in
        elim (Bool-cases (str_eq row.key r.key)) [
          | inl same ↦
              let e : row ≡ r = ground arith in
              subst
                (λ (x : MetaRow).
                  (type : Str) × (id : Str) × ColonFree type
                  × ColonFree id
                  × (x.key ≡ delete_key type id))
                e (made (rw e listed))
          | inr other ↦
              let old : db.meta.get c.meta r.key ≡ some r = ground arith in
              plain.at r (db.meta.to_array-of_get c.meta r.key r old) listed
        ];
  }

  -- Queueing a delete keeps the queue plain, if its type and id hold no colon.
  pub enqueue_delete-IsPlain :
      (c : Cache db) (type id ts : Str)
      → ColonFree type
      → ColonFree id
      → IsPlain c
      → IsPlain (enqueue_delete db id type ts c)
  unfolding enqueue_delete
  enqueue_delete-IsPlain c type id ts h k plain = record {
    at =
        (put-IsPlain c (record { key = delete_key type id; value = ts }) plain
          (λ _. (type, id, h, k, refl))).at;
  }

  pub clear_delete-IsPlain :
      (c : Cache db) (type id : Str) → IsPlain c → IsPlain (clear_delete db type id c)
  unfolding clear_delete
  clear_delete-IsPlain c type id plain = record {
    at = λ r m listed.
        let stored =
          sym (db.meta.get-delete c.meta (delete_key type id) r.key)
          ∙ db.meta.get-of_to_array (db.meta.delete c.meta (delete_key type id)) r m in
        let old : db.meta.get c.meta r.key ≡ some r = ground arith in
        plain.at r (db.meta.to_array-of_get c.meta r.key r old) listed;
  }

  get-clear_delete :
      (c : Cache db) (type id : Str)
      → db.meta.get (clear_delete db type id c).meta (delete_key type id) ≡ none
  unfolding clear_delete
  get-clear_delete c type id =
      db.meta.get-delete c.meta _ _ ∙ rw (str_eq_refl (delete_key type id)) refl

  -- A queued delete is listed until it is cleared, and no longer: for a type and an id with no colon
  -- it is listed right after `enqueueDelete`, and not after `clearDelete`, whatever its timestamp.
  pub delete_lifecycle :
      (c : Cache db) (type id ts ts' : Str)
      → IsPlain c
      → ColonFree type
      → ColonFree id
      → Member
          (record { type = type; record_id = id; ts = ts })
          (pending_deletes db (enqueue_delete db id type ts c))
        × ¬ (
            Member
              (record { type = type; record_id = id; ts = ts' })
              (pending_deletes db (clear_delete db type id c)))
  delete_lifecycle c type id ts ts' plain h k = (
    (pending_deletes_iff (enqueue_delete db id type ts c) type id ts
          (enqueue_delete-IsPlain c type id ts h k plain) h k).1
        (unfold enqueue_delete in
          db.meta.get-put c.meta _ _ ∙ rw (str_eq_refl (delete_key type id)) refl),
    λ m. cc (
      get-clear_delete c type id,
      (pending_deletes_iff (clear_delete db type id c) type id ts'
            (clear_delete-IsPlain c type id plain) h k).0
          m,
    ),
  )
