-- ===== src/Pages/Transactions/Pairs.antt =====
-- web/src/pages/TransactionsPage.tsx.
-- The two rows of a transfer: how they are made, and that they are deleted together.
use fincrypt.Prelude.{
  ℤ, pos, ◌+ℤ◌, ◌≤ℤ◌, true, List, Option, none, some, [], ◌∷◌, Str, codes, ◌≡◌, ◌≢◌, ◌⊎◌, refl, sym,
  ap, ◌∙◌, subst, inl, inr, str_eq, str_eq_refl, str_eq_iff, eq_of_str_eq, Member, Bool-cases,
  arith,
}
use fincrypt.Crypto.Errors.{>>=-eq_ok, plain_error, ok, ok-injective, err}
use fincrypt.Crypto.Platform.{Platform}
use fincrypt.Cache.{Db, Cache}
use fincrypt.Sync.Outbox.{type_key, delete_key}
use fincrypt.Stores.SessionKeys.{SessionKeys}
use fincrypt.Domain.Formats.{Formats}
use fincrypt.Domain.Vault.{delete_record, transactions_type, forgotten}
use fincrypt.Pages.TransactionForm.{
  Save, AccountRow, TransactionForm, Draws, own_saves, out_leg, in_leg,
}
use fincrypt.Pages.Transactions.{TxnRow, is_partner, same_group, find_partner, on_delete}

same_group-eq_some : (group : Str) (o : Option Str) → same_group group o ≡ true → o ≡ some group
same_group-eq_some group none h = cc
same_group-eq_some group (some g) h = ap some (eq_of_str_eq g group h)

is_partner-true :
    (id group : Str) (r : TxnRow)
    → is_partner id group r ≡ true
    → (r.record_id ≢ id) × (r.entry.transfer_group ≡ some group)
is_partner-true id group r h = (
  λ same. absurd (ground (arith, str_eq_iff r.record_id id)),
  same_group-eq_some group r.entry.transfer_group (ground arith),
)

is_partner_refl :
    (id group : Str) (r : TxnRow)
    → r.record_id ≢ id
    → r.entry.transfer_group ≡ some group
    → is_partner id group r ≡ true
is_partner_refl id group r differs grouped =
    rw (grouped, str_eq_refl group) (ground (arith, eq_of_str_eq r.record_id id))

find_partner-some :
    (id group : Str) (rows : List TxnRow) (partner : TxnRow)
    → Member partner rows
    → partner.record_id ≢ id
    → partner.entry.transfer_group ≡ some group
    → (p : TxnRow) × (find_partner id group rows ≡ some p)
      × Member p rows
      × (p.record_id ≢ id)
      × (p.entry.transfer_group ≡ some group)
unfolding find_partner
find_partner-some id group [] partner there differs grouped = absurd there
find_partner-some id group (r ∷ rows) partner there differs grouped =
    elim (Bool-cases (is_partner id group r)) [
      | inl it ↦
          let (apart, its) = is_partner-true id group r it in (r, rw it refl, inl refl, apart, its)
      | inr other ↦ elim there [
        | inl same ↦ absurd (
            cc (
              sym other
              ∙ is_partner_refl id group r (subst (λ (x : TxnRow). x.record_id ≢ id) same differs)
                  (subst (λ (x : TxnRow). x.entry.transfer_group ≡ some group) same grouped)))
        | inr behind ↦
            let (p, found, member, apart, its) =
              find_partner-some id group rows partner behind differs grouped in
            (p, rw other found, inr member, apart, its)
      ]
    ]

module _ (P : Platform) (F : Formats P) (db : Db) (s : SessionKeys P) where
  abbrev pub transactions_name : Str
  transactions_name = codes "transactions"

  -- The record is in neither the working set nor the cached envelopes, and its delete waits to be sent.
  abbrev pub IsGone : (now id : Str) → Cache db → Type 0
  IsGone now id c =
      (db.working.get c.working (type_key transactions_name id) ≡ none)
      × (db.envelopes.get c.envelopes (type_key transactions_name id) ≡ none)
      × (db.meta.get c.meta (delete_key transactions_name id)
          ≡ some (record { key = delete_key transactions_name id; value = now }))

  delete_record-eq_ok :
      (id now : Str) (c c' : Cache db)
      → delete_record P F db transactions_type id now s c ≡ ok c'
      → forgotten P F db transactions_name id now c ≡ c'
  unfolding delete_record
  delete_record-eq_ok id now c c' h = go s.user_id refl
    where
      go : (user : Option Str) → s.user_id ≡ user → forgotten P F db transactions_name id now c ≡ c'
      go none e =
          let thrown : err (plain_error (codes "vault locked")) ≡ ok c' = rw e at h in
          absurd (cc thrown)
      go (some user) e = ok-injective _ c' (rw e at h)

  forgotten-IsGone :
      (id now : Str) (c : Cache db) → IsGone now id (forgotten P F db transactions_name id now c)
  forgotten-IsGone id now c = (
    db.working.get-delete c.working (type_key transactions_name id) (type_key transactions_name id)
        ∙ rw (str_eq_refl (type_key transactions_name id)) refl,
    db.envelopes.get-delete c.envelopes (type_key transactions_name id)
          (type_key transactions_name id)
        ∙ rw (str_eq_refl (type_key transactions_name id)) refl,
    db.meta.get-put c.meta (record { key = delete_key transactions_name id; value = now })
          (delete_key transactions_name id)
        ∙ rw (str_eq_refl (delete_key transactions_name id)) refl,
  )

  forgotten-keeps :
      (id other now : Str) (c : Cache db)
      → IsGone now id c
      → IsGone now id (forgotten P F db transactions_name other now c)
  forgotten-keeps id other now c (gone, gone', waits) = (
    ground (
      arith,
      db.working.get-delete c.working (type_key transactions_name other)
          (type_key transactions_name id),
    ),
    ground (
      arith,
      db.envelopes.get-delete c.envelopes (type_key transactions_name other)
          (type_key transactions_name id),
    ),
    db.meta.get-put c.meta (record { key = delete_key transactions_name other; value = now })
          (delete_key transactions_name id)
        ∙ elim (Bool-cases
            (str_eq (delete_key transactions_name other) (delete_key transactions_name id))) [
              | inl same ↦
                  rw same (ap (λ k. some (record { key = k; value = now })) (eq_of_str_eq _ _ same))
              | inr differs ↦ rw differs waits
            ],
  )

  -- Deleting one row of a transfer deletes the other: where no third row shares the group of two rows
  -- and the call does not throw, neither is left in the working set or the cached envelopes, and both
  -- deletes wait to be sent. The outbox is as it was: saves of the two that are queued stay queued.
  pub on_delete-pair :
      (row partner : TxnRow) (rows : List TxnRow) (group now : Str) (c c' : Cache db)
      → row.entry.transfer_group ≡ some group
      → Member partner rows
      → partner.record_id ≢ row.record_id
      → partner.entry.transfer_group ≡ some group
      → ((r : TxnRow)
          → Member r rows
          → r.entry.transfer_group ≡ some group
          → (r.record_id ≡ row.record_id) ⊎ (r.record_id ≡ partner.record_id))
      → on_delete P F db s row rows now c ≡ ok c'
      → IsGone now row.record_id c' × IsGone now partner.record_id c' × (c'.outbox ≡ c.outbox)
  unfolding on_delete
  on_delete-pair row partner rows group now c c' grouped there differs grouped' only h =
      let (p, found, member, apart, its) =
        find_partner-some row.record_id group rows partner there differs grouped' in
      let (c₁, first, h₁) =
        >>=-eq_ok (delete_record P F db transactions_type row.record_id now s c) _ h in
      let second : delete_record P F db transactions_type p.record_id now s c₁ ≡ ok c' =
        rw (grouped, found) at h₁ in
      let made = delete_record-eq_ok p.record_id now c₁ c' second in
      let made₁ = delete_record-eq_ok row.record_id now c c₁ first in
      let gone = subst (IsGone now row.record_id) made₁ (forgotten-IsGone row.record_id now c) in
      let same : p.record_id ≡ partner.record_id = elim (only p member its) [
        | inl own ↦ absurd (apart own)
        | inr it ↦ it
      ] in
      (
        subst (IsGone now row.record_id) made
            (forgotten-keeps row.record_id p.record_id now c₁ gone),
        subst (λ id. IsGone now id c') same
            (subst (IsGone now p.record_id) made (forgotten-IsGone p.record_id now c₁)),
        ap (λ (x : Cache db). x.outbox) (sym made) ∙ ap (λ (x : Cache db). x.outbox) (sym made₁),
      )

-- The form makes a transfer of two saves, out of the source and into the target, whose amounts cancel,
-- the first not positive and the second not negative, and which share the drawn group.
pub own_saves-transfer :
    (accounts : List AccountRow) (form : TransactionForm) (amount : ℤ) (draws : Draws) (now : Str)
    → form.as_transfer ≡ true
    → (o : Save) × (i : Save) × (own_saves accounts form amount draws now ≡ o ∷ i ∷ [])
      × (o.entry.amount +ℤ i.entry.amount ≡ pos 0)
      × (o.entry.amount ≤ℤ pos 0)
      × (pos 0 ≤ℤ i.entry.amount)
      × (o.entry.account_id ≡ form.account_id)
      × (i.entry.account_id ≡ form.target_account)
      × (o.entry.transfer_group ≡ some draws.group)
      × (i.entry.transfer_group ≡ some draws.group)
unfolding own_saves ◌+ℤ◌
own_saves-transfer accounts form amount draws now transfer = (
  out_leg accounts form amount draws,
  in_leg accounts form amount draws now,
  rw transfer refl,
  ground arith,
  ground arith,
  ground arith,
  refl,
  refl,
  refl,
  refl,
)
