-- ===== src/Cache/Lists.antt =====
-- Tables as lists, for the witnesses.
use fincrypt.Prelude.{
  All, ℕ, suc, ◌<◌, ◌≡◌, refl, ap, inl, inr, Bool, not, Bool-cases, Option, none, some, List, [],
  ◌∷◌, ◌++◌, Str, str_eq, arith, if◌then◌else◌, Member, keep_if, Member-keep_if, Member-of-keep_if,
  str_eq_iff, str_eq_refl, Member-append_cases,
}
use fincrypt.Cache.Tables.{IsAscending, KeyTable, SeqTable, is_in}
use fincrypt.Cache.{
  Db, envelope_key, working_key, meta_key, OutboxEntry, OutboxRow, outbox_row, outbox_seq,
}

module _ {Row : Type 0} (key_of : Row → Str) where
  abbrev pub other_key : Str → Row → Bool
  other_key k r = not (str_eq (key_of r) k)

  pub list_get : List Row → Str → Option Row
  list_get [] k = none
  list_get (r ∷ t) k = if str_eq (key_of r) k then some r else list_get t k

  pub list_delete : List Row → Str → List Row
  list_delete t k = keep_if (other_key k) t

  -- The newest row of each key.
  pub list_rows : List Row → List Row
  list_rows [] = []
  list_rows (r ∷ t) = r ∷ keep_if (other_key (key_of r)) (list_rows t)

  pub list_get-delete :
      (t : List Row) (j k : Str)
      → list_get (list_delete t j) k ≡ (if str_eq j k then none else list_get t k)
  unfolding list_get list_delete
  list_get-delete [] j k = ground arith
  list_get-delete (r ∷ t) j k = ground (
    arith,
    list_get-delete t j k,
    str_eq_iff (key_of r) j,
    str_eq_iff (key_of r) k,
    str_eq_iff j k,
  )

  pub key_of-list_get : (t : List Row) (k : Str) (r : Row) → list_get t k ≡ some r → key_of r ≡ k
  unfolding list_get
  key_of-list_get [] k r h = cc
  key_of-list_get (x ∷ t) k r h = ground (arith, key_of-list_get t k r, str_eq_iff (key_of x) k)

  pub list_rows-of_get :
      (t : List Row) (k : Str) (r : Row) → list_get t k ≡ some r → Member r (list_rows t)
  unfolding list_get list_rows
  list_rows-of_get [] k r h = cc
  list_rows-of_get (x ∷ t) k r h = elim (Bool-cases (str_eq (key_of x) k)) [
    | inl e ↦ inl (ground arith)
    | inr ne ↦
        let found : list_get t k ≡ some r = ground arith in
        inr (
          Member-keep_if (other_key (key_of x)) r (list_rows t) (list_rows-of_get t k r found) (
            ground (
              arith,
              key_of-list_get t k r found,
              str_eq_iff (key_of r) (key_of x),
              str_eq_iff (key_of x) k,
            )))
  ]

  pub list_get-of_rows :
      (t : List Row) (r : Row) → Member r (list_rows t) → list_get t (key_of r) ≡ some r
  unfolding list_get list_rows
  list_get-of_rows [] r m = absurd m
  list_get-of_rows (x ∷ t) r (inl e) = rw (← e) (rw (str_eq_refl (key_of r)) refl)
  list_get-of_rows (x ∷ t) r (inr m) =
      let (there, other) = Member-of-keep_if (other_key (key_of x)) r (list_rows t) m in
      ground (
        arith,
        list_get-of_rows t r there,
        str_eq_iff (key_of r) (key_of x),
        str_eq_iff (key_of x) (key_of r),
      )

  unfoldable pub list_table : KeyTable Row key_of
  unfolding list_get list_delete list_rows
  list_table = record {
    Table = List Row;
    empty = [];
    get = list_get;
    put = λ t r. r ∷ t;
    delete = list_delete;
    to_array = list_rows;
    get-empty = λ k. refl;
    get-put = λ t r k. refl;
    get-delete = list_get-delete;
    key_of_get = key_of-list_get;
    to_array-of_get = list_rows-of_get;
    get-of_to_array = list_get-of_rows;
  }

pub IsAscending-append :
    (rs : List OutboxRow) (r : OutboxRow)
    → IsAscending outbox_seq rs
    → ((s : OutboxRow) → Member s rs → s.seq < r.seq)
    → IsAscending outbox_seq (rs ++ r ∷ [])
IsAscending-append [] r h below = (tt, tt)
IsAscending-append (x ∷ rs) r (above, h) below = (
  All-append_last rs r above (below x (inl refl)),
  IsAscending-append rs r h (λ s m. below s (inr m)),
)
  where
    All-append_last :
        (rs : List OutboxRow) (r : OutboxRow)
        → All (λ s. x.seq < s.seq) rs
        → x.seq < r.seq
        → All (λ s. x.seq < s.seq) (rs ++ r ∷ [])
    All-append_last [] r h k = (k, tt)
    All-append_last (s ∷ rs) r (k, h) last = (k, All-append_last rs r h last)

All-keep_if :
    (P : OutboxRow → Type 0) (p : OutboxRow → Bool) (rs : List OutboxRow)
    → All P rs
    → All P (keep_if p rs)
All-keep_if P p [] h = tt
All-keep_if P p (r ∷ rs) (h, hs) = elim (Bool-cases (p r)) [
  | inl kept ↦ rw kept (h, All-keep_if P p rs hs)
  | inr dropped ↦ rw dropped (All-keep_if P p rs hs)
]

pub IsAscending-keep_if :
    (p : OutboxRow → Bool) (rs : List OutboxRow)
    → IsAscending outbox_seq rs
    → IsAscending outbox_seq (keep_if p rs)
IsAscending-keep_if p [] h = tt
IsAscending-keep_if p (r ∷ rs) (above, h) = elim (Bool-cases (p r)) [
  | inl kept ↦ rw kept (All-keep_if (λ s. r.seq < s.seq) p rs above, IsAscending-keep_if p rs h)
  | inr dropped ↦ rw dropped (IsAscending-keep_if p rs h)
]

-- The rows newest last, and the next key.
pub record Queue : Type 0 where
  pub entries : List OutboxRow
  pub next : ℕ
  pub ascending : IsAscending outbox_seq entries
  pub bounded : (r : OutboxRow) → Member r entries → r.seq < next

unfoldable pub queue_table : SeqTable OutboxEntry OutboxRow outbox_row outbox_seq
queue_table = record {
  Table = Queue;
  empty = record { entries = []; next = 1; ascending = tt; bounded = λ r m. absurd m };
  add = λ q e. record {
    entries = q.entries ++ outbox_row q.next e ∷ [];
    next = suc q.next;
    ascending = IsAscending-append q.entries (outbox_row q.next e) q.ascending q.bounded;
    bounded = λ r m. elim (Member-append_cases r q.entries (outbox_row q.next e ∷ []) m) [
      | inl old ↦ omega (arith, q.bounded r old)
      | inr (inl e) ↦ omega (arith, ap outbox_seq e)
      | inr (inr no_more) ↦ absurd no_more
    ];
  };
  bulk_delete = λ q seqs. record {
    entries = keep_if (λ r. not (is_in seqs (outbox_seq r))) q.entries;
    next = q.next;
    ascending = IsAscending-keep_if (λ r. not (is_in seqs (outbox_seq r))) q.entries q.ascending;
    bounded = λ r m.
        q.bounded r (Member-of-keep_if (λ r. not (is_in seqs (outbox_seq r))) r q.entries m).0;
  };
  rows = λ q. q.entries;
  next_seq = λ q. q.next;
  rows-empty = refl;
  rows-add = λ q e. refl;
  next_seq-add = λ q e. refl;
  seq-lt-next_seq = λ q r m. q.bounded r m;
  rows-IsAscending = λ q. q.ascending;
  rows-bulk_delete = λ q seqs. refl;
  next_seq-bulk_delete = λ q seqs. refl;
}

unfoldable pub list_db : Db
unfolding list_table queue_table
list_db = record {
  envelopes = list_table envelope_key;
  working = list_table working_key;
  outbox = queue_table;
  meta = list_table meta_key;
}
