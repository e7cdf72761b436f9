-- ===== src/Pages/Transactions/Saves.antt =====
-- web/src/pages/TransactionsPage.tsx.
-- What a submission of the form queues.
use mathlib.Core.List.{map-append, append-nil, append_assoc}
use fincrypt.Prelude.{
  Bool, true, false, none, Bool-cases, ℕ, ℤ, Option, some, List, [], ◌∷◌, ◌++◌, map, Str, ◌≡◌, refl,
  sym, ap, ◌∙◌, inl, inr,
}
use fincrypt.Crypto.Errors.{Result, Result-cases, ok, err}
use fincrypt.Crypto.Platform.{Platform}
use fincrypt.Cache.{Db, Cache, OutboxRow}
use fincrypt.Stores.SessionKeys.{SessionKeys, or_else}
use fincrypt.Domain.Formats.{Formats}
use fincrypt.Domain.Vault.{SyncableType, save_record, transactions_type}
use fincrypt.Prelude.Json.{Json}
use fincrypt.Domain.Vault.Saves.{save_record-effects}
use fincrypt.Pages.TransactionForm.{
  AccountRow, TransactionForm, Save, Draws, own_saves, handed_on, payload_of,
}
use fincrypt.Pages.Transactions.{
  TxnRow, on_save, Page, page_save, run_save, run_saves, submit, submit_number,
}

-- The records that a submission saves, by whether the form makes a transfer and which row is edited.
abbrev pub saved_ids : Bool → Option TxnRow → Draws → List Str
saved_ids true none draws = draws.first_id ∷ draws.second_id ∷ draws.page_id ∷ []
saved_ids true (some row) draws = draws.first_id ∷ draws.second_id ∷ row.record_id ∷ []
saved_ids false none draws = draws.first_id ∷ draws.page_id ∷ []
saved_ids false (some row) draws = draws.first_id ∷ row.record_id ∷ []

map-saved_ids :
    (accounts : List AccountRow) (form : TransactionForm) (amount : ℤ) (draws : Draws)
    (now later : Str) (editing : Option TxnRow)
    → map
        (λ (x : Save). x.record_id)
        (own_saves accounts form amount draws now
          ++ page_save editing (handed_on form amount) draws later ∷ [])
      ≡ saved_ids form.as_transfer editing draws
unfolding own_saves
map-saved_ids accounts form amount draws now later none = elim (Bool-cases form.as_transfer) [
  | inl transfer ↦ rw transfer refl
  | inr plain ↦ rw plain refl
]
map-saved_ids accounts form amount draws now later (some row) = elim (Bool-cases form.as_transfer) [
  | inl transfer ↦ rw transfer refl
  | inr plain ↦ rw plain refl
]

abbrev then_more {ℓ} :
    {C : Type ℓ} → (C → C × Result (Unit {0})) → C × Result (Unit {0}) → C × Result (Unit {0})
then_more rest (c, err e) = (c, err e)
then_more rest (c, ok done) = rest c

module _ (P : Platform) (F : Formats P) (db : Db) (s : SessionKeys P) where
  -- The record ids that the outbox holds, in its order.
  abbrev pub queued_ids : Cache db → List Str
  queued_ids c = map (λ (r : OutboxRow). r.entry.record_id) (db.outbox.rows c.outbox)

  save_record-queued_ids :
      (nonce : List ℕ) (type : SyncableType) (id : Str) (payload : Json) (ts : Str)
      (c c' : Cache db)
      → save_record P F db nonce type id payload ts s c ≡ ok c'
      → queued_ids c' ≡ queued_ids c ++ id ∷ []
  save_record-queued_ids nonce type id payload ts c c' h =
      let (_, (row, queued, its), _, _) =
        save_record-effects P F db nonce type id payload ts s c c' id h in
      ap (map (λ (r : OutboxRow). r.entry.record_id)) queued
      ∙ map-append _ (db.outbox.rows c.outbox) (row ∷ [])
      ∙ ap (λ x. queued_ids c ++ x ∷ []) its

  run_saves-queued_ids :
      (now : Str) (saves : List Save) (c c' : Cache db)
      → run_saves P F db s now saves c ≡ (c', ok tt)
      → queued_ids c' ≡ queued_ids c ++ map (λ (x : Save). x.record_id) saves
  unfolding run_saves
  run_saves-queued_ids now [] c c' h =
      ap queued_ids (sym (ap (λ (x : Cache db × Result (Unit {0})). x.0) h))
      ∙ sym (append-nil (queued_ids c))
  run_saves-queued_ids now (save ∷ saves) c c' h =
      elim (Result-cases (run_save P F db s now save c)) [
        | inr (e, fails) ↦
            let thrown : ◌≡◌ {A = Cache db × Result (Unit {0})} (c, err e) (c', ok tt) =
              rw fails at h in
            absurd (cc thrown)
        | inl (c₁, saved) ↦
            let rest : run_saves P F db s now saves c₁ ≡ (c', ok tt) = rw saved at h in
            let first =
              save_record-queued_ids save.nonce transactions_type save.record_id
                (payload_of save.entry) (or_else P save.ts now) c c₁ (unfold run_save in saved) in
            run_saves-queued_ids now saves c₁ c' rest
            ∙ ap (λ ids. ids ++ map (λ (x : Save). x.record_id) saves) first
            ∙ append_assoc (queued_ids c) (save.record_id ∷ [])
                (map (λ (x : Save). x.record_id) saves)
      ]

  run_saves-append :
      (now : Str) (saves more : List Save) (c : Cache db)
      → run_saves P F db s now (saves ++ more) c
        ≡ then_more (run_saves P F db s now more) (run_saves P F db s now saves c)
  unfolding run_saves
  run_saves-append now [] more c = refl
  run_saves-append now (save ∷ saves) more c = elim (Result-cases (run_save P F db s now save c)) [
    | inr (e, fails) ↦ rw fails refl
    | inl (c₁, saved) ↦ rw saved (run_saves-append now saves more c₁)
  ]

  submit_number-last :
      (accounts : List AccountRow) (form : TransactionForm) (amount : ℤ) (draws : Draws)
      (now later : Str) (page : Page) (c' : Cache db) (own : Cache db × Result (Unit {0}))
      → then_more
          (run_saves P F db s now (page_save page.editing (handed_on form amount) draws later ∷ []))
          own
        ≡ (c', ok tt)
      → (submit_number P F db s accounts form amount draws now later page own).1 ≡ c'
  unfolding run_saves on_save
  submit_number-last accounts form amount draws now later page c' (c, err e) h =
      absurd (cc (ap (λ (x : Cache db × Result (Unit {0})). x.1) h))
  submit_number-last accounts form amount draws now later page c' (c, ok done) h =
      elim (Result-cases
        (run_save P F db s now (page_save page.editing (handed_on form amount) draws later) c)) [
          | inr (e, fails) ↦
              let thrown : ◌≡◌ {A = Cache db × Result (Unit {0})} (c, err e) (c', ok tt) =
                rw fails at h in
              absurd (cc (ap (λ (x : Cache db × Result (Unit {0})). x.1) thrown))
          | inl (c₁, saved) ↦
              let whole : ◌≡◌ {A = Cache db × Result (Unit {0})} (c₁, ok tt) (c', ok tt) =
                rw saved at h in
              rw saved (ap (λ (x : Cache db × Result (Unit {0})). x.0) whole)
        ]

  -- Where the amount is a number and none of its calls of `saveRecord` throws, a submission queues, in
  -- this order, one save under a drawn id, for a transfer one more under a second drawn id, and then
  -- another, under a further drawn id, or under the id of the row that is edited. So a plain entry and
  -- an edit of one are two saves each, and a transfer is three.
  pub submit-queued_ids :
      (to_number : Str → Option ℤ) (accounts : List AccountRow) (form : TransactionForm)
      (amount : ℤ) (draws : Draws) (now later : Str) (page : Page) (c c' : Cache db)
      → to_number form.amount ≡ some amount
      → run_saves P F db s now
          (own_saves accounts form amount draws now
            ++ page_save page.editing (handed_on form amount) draws later ∷ [])
          c
        ≡ (c', ok tt)
      → ((submit P F db s to_number accounts form draws now later page c).1 ≡ c')
        × (queued_ids c' ≡ queued_ids c ++ saved_ids form.as_transfer page.editing draws)
  unfolding submit on_save
  submit-queued_ids to_number accounts form amount draws now later page c c' number h =
      let own = own_saves accounts form amount draws now in
      let last = page_save page.editing (handed_on form amount) draws later in
      (
        rw number (
            submit_number-last accounts form amount draws now later page c'
              (run_saves P F db s now own c) (sym (run_saves-append now own (last ∷ []) c) ∙ h)),
        run_saves-queued_ids now (own ++ last ∷ []) c c' h
            ∙ ap (λ ids. queued_ids c ++ ids)
                (map-saved_ids accounts form amount draws now later page.editing),
      )
