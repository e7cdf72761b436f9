-- ===== src/Sync/Tests.antt =====
-- Runs of the sync modules over tables that are lists.
pub mod Flushes
use fincrypt.Prelude.{
  ℕ, ◌≡◌, ◌⊎◌, ◌↔◌, refl, sym, ap, ◌∙◌, Option, some, none, List, [], ◌∷◌, Str, codes, inl, inr,
  Member, true, false, includes, str_lt,
}
use fincrypt.Cache.{Db, Cache, CachedEnvelope, WireEnvelope, MetaRow, clear_all}
use fincrypt.Cache.Lists.{list_get, list_rows, list_db}
use fincrypt.Sync.Outbox.{delete_key, enqueue, enqueue_delete, clear_delete, pending_deletes}
use fincrypt.Sync.Outbox.Deletes.{ColonFree, IsPlain, pending_deletes_iff, enqueue_delete-IsPlain}
use fincrypt.Sync.Merge.{row_of, merge_change, merge_all}
use fincrypt.Sync.Merge.Rows.{change_of, row_at, working_at, merge_change_idempotent, wire_key}
use fincrypt.Sync.Merge.Order.{NotOlder, Candidate, merged, merged_newest, merge_converges}

abbrev pub wire : Str → Str → WireEnvelope
wire id ts = record {
  record_id = id;
  type = codes "chat";
  nonce = codes "bm9uY2U=";
  ciphertext = codes "Y2lwaGVy";
  aad = codes "v1|anna|chat";
  ts = ts;
}

abbrev pub fresh : Cache list_db
fresh = clear_all list_db

pub fresh-IsPlain : IsPlain list_db fresh
unfolding list_db clear_all
fresh-IsPlain = record { at = λ r there listed. absurd there }

abbrev pub chat : Str
chat = codes "chat"

-- The cache in which one delete is queued.
abbrev one_delete : Cache list_db
one_delete = enqueue_delete list_db (codes "r1") chat (codes "2024") fresh

pending_deletes_iff_example :
    Member
      (record { type = chat; record_id = codes "r1"; ts = codes "2024" })
      (pending_deletes list_db one_delete)
    ↔ (list_db.meta.get one_delete.meta (delete_key chat (codes "r1"))
        ≡ some (record { key = delete_key chat (codes "r1"); value = codes "2024" }))
unfolding includes
pending_deletes_iff_example =
    pending_deletes_iff list_db one_delete chat (codes "r1") (codes "2024")
      (enqueue_delete-IsPlain list_db fresh chat (codes "r1") (codes "2024") refl refl
        fresh-IsPlain)
      refl refl

abbrev old_row : WireEnvelope
old_row = wire (codes "r1") (codes "2023")

abbrev new_row : WireEnvelope
new_row = wire (codes "r1") (codes "2023-2")

merged_newest_example :
    (r : CachedEnvelope) × (row_at list_db
        (merged list_db fresh (old_row ∷ new_row ∷ []))
        (wire_key new_row)
      ≡ some r)
    × Candidate list_db fresh (old_row ∷ new_row ∷ []) (wire_key new_row) r
    × NotOlder r (row_of new_row)
merged_newest_example =
    merged_newest list_db fresh (old_row ∷ new_row ∷ []) (wire_key new_row) (row_of new_row)
      (inr (new_row, inr (inl refl), refl, refl))

-- Of two rows with different timestamps there is no tie.
no_ties_here :
    (r r' : CachedEnvelope)
    → Candidate list_db fresh (old_row ∷ new_row ∷ []) (wire_key new_row) r
    → Candidate list_db fresh (old_row ∷ new_row ∷ []) (wire_key new_row) r'
    → r.ts ≡ r'.ts
    → r ≡ r'
unfolding list_db clear_all
no_ties_here r r' (inl stored) _ same = absurd (cc stored)
no_ties_here r r' (inr (e, m, _, made)) (inl stored) same = absurd (cc stored)
no_ties_here r r' (inr (e, m, _, made)) (inr (e', m', _, made')) same =
    made
    ∙ ap row_of (
        one_ts e e' m m' (
          sym (ap (λ (x : CachedEnvelope). x.ts) made)
          ∙ same
          ∙ ap (λ (x : CachedEnvelope). x.ts) made'))
    ∙ sym made'
  where
    one_ts :
        (e e' : WireEnvelope)
        → Member e (old_row ∷ new_row ∷ [])
        → Member e' (old_row ∷ new_row ∷ [])
        → e.ts ≡ e'.ts
        → e ≡ e'
    one_ts e e' (inl is) (inl is') same = cc
    one_ts e e' (inr (inl is)) (inr (inl is')) same = cc
    one_ts e e' (inl is) (inr (inl is')) same =
        absurd (
          cc
            (sym (ap (λ (x : WireEnvelope). x.ts) is) ∙ same ∙ ap (λ (x : WireEnvelope). x.ts) is'))
    one_ts e e' (inr (inl is)) (inl is') same =
        absurd (
          cc
            (sym (ap (λ (x : WireEnvelope). x.ts) is) ∙ same ∙ ap (λ (x : WireEnvelope). x.ts) is'))
    one_ts e e' (inr (inr m)) _ same = absurd m
    one_ts e e' (inl is) (inr (inr m)) same = absurd m
    one_ts e e' (inr (inl is)) (inr (inr m)) same = absurd m

swapped : (e : WireEnvelope) → Member e (old_row ∷ new_row ∷ []) ↔ Member e (new_row ∷ old_row ∷ [])
swapped e = (turn old_row new_row, turn new_row old_row)
  where
    turn : (a b : WireEnvelope) → Member e (a ∷ b ∷ []) → Member e (b ∷ a ∷ [])
    turn a b (inl is) = inr (inl is)
    turn a b (inr (inl is)) = inl is
    turn a b (inr (inr m)) = absurd m

merge_converges_example :
    row_at list_db (merged list_db fresh (old_row ∷ new_row ∷ [])) (wire_key new_row)
    ≡ row_at list_db (merged list_db fresh (new_row ∷ old_row ∷ [])) (wire_key new_row)
merge_converges_example =
    merge_converges list_db fresh (old_row ∷ new_row ∷ []) (new_row ∷ old_row ∷ [])
      (wire_key new_row) swapped no_ties_here
