-- ===== src/Pages/Transactions.antt =====
-- web/src/pages/TransactionsPage.tsx: the handlers `submit`, `onSave` and `onDelete`, and the rows that
-- are shown. Amounts are whole minor units; `Number` of the amount's text, the identifiers and nonces
-- that are drawn, and the times are arguments. The code's field `data` is `entry` here.
pub mod Saves
pub mod Pairs
use fincrypt.Prelude.{
  sort, false, ℕ, ℤ, pos, neg, pos_part, neg_part, ◌+◌, Bool, true, false, not, ◌&&◌, Option, none,
  some, List, [], ◌∷◌, Str, codes, length, ◌==◌, str_eq, if◌then◌else◌, keep_if,
}
use fincrypt.Prelude.Json.{Json, null, int, text, obj, end, field}
use fincrypt.Crypto.Errors.{Fault, Result, ok, err, ◌>>=◌}
use fincrypt.Crypto.Platform.{Platform}
use fincrypt.Cache.{Db, Cache}
use fincrypt.Stores.SessionKeys.{SessionKeys, or_else}
use fincrypt.Domain.Formats.{Formats}
use fincrypt.Domain.Vault.{transactions_type, save_record, delete_record}
use fincrypt.Pages.TransactionForm.{
  TransactionData, AccountRow, TransactionForm, first_account, initial_form, text_or_null,
  payload_of, abs, find_account, currency_or_usd, currency_of, text_or, Save, Draws, out_leg,
  in_leg, plain_entry, own_saves, handed_on,
}

pub record TxnRow : Type 0 where
  pub record_id : Str
  pub entry : TransactionData
  pub ts : Str

-- The rows after a reload: `locale_less a b` is `a.localeCompare(b) < 0`.
unfoldable pub by_date : (locale_less : Str → Str → Bool) → List TxnRow → List TxnRow
by_date locale_less rows = sort (λ a b. locale_less a.entry.date b.entry.date) rows

-- The state of the page that the handlers set.
pub record Page : Type 0 where
  pub editing : Option TxnRow
  pub creating : Bool
  pub local_error : Option Fault

abbrev pub name_or_unknown : Option AccountRow → Str
name_or_unknown none = codes "(unknown account)"
name_or_unknown (some a) = a.name

unfoldable pub account_name : List AccountRow → Str → Str
account_name accounts id = name_or_unknown (find_account id accounts)

-- recordId ?? crypto.randomUUID(), and the time of an update.
abbrev pub page_save : Option TxnRow → TransactionData → Draws → (later : Str) → Save
page_save none entry draws later = record {
  record_id = draws.page_id;
  nonce = draws.page_nonce;
  entry = entry;
  ts = none;
}
page_save (some row) entry draws later = record {
  record_id = row.record_id;
  nonce = draws.page_nonce;
  entry = entry;
  ts = some later;
}

-- The other row of a transfer, as `onDelete` looks for it.
abbrev pub same_group : Str → Option Str → Bool
same_group group none = false
same_group group (some g) = str_eq g group

abbrev pub is_partner : Str → Str → TxnRow → Bool
is_partner record_id group r =
    not (str_eq r.record_id record_id) && same_group group r.entry.transfer_group

pub find_partner : Str → Str → List TxnRow → Option TxnRow
find_partner record_id group [] = none
find_partner record_id group (r ∷ rows) =
    if is_partner record_id group r then some r else find_partner record_id group rows

abbrev pub partner_of : TxnRow → List TxnRow → Option TxnRow
partner_of row rows = in_group row.entry.transfer_group
  where
    in_group : Option Str → Option TxnRow
    in_group none = none
    in_group (some group) = find_partner row.record_id group rows

abbrev passes : Option Str → TxnRow → Bool
passes none r = true
passes (some account) r = str_eq r.entry.account_id account

-- The rows that are shown: all, or those of the account in the address of the page.
unfoldable pub visible : Option Str → List TxnRow → List TxnRow
visible account rows = keep_if (passes account) rows

module _ (P : Platform) (F : Formats P) (db : Db) (s : SessionKeys P) where
  unfoldable pub run_save : (now : Str) → Save → Cache db → Result (Cache db)
  run_save now save c =
      save_record P F db save.nonce transactions_type save.record_id (payload_of save.entry)
        (or_else P save.ts now) s c

  abbrev pub then_saves :
      (Cache db → Cache db × Result (Unit {0}))
      → Cache db
      → Result (Cache db)
      → Cache db × Result (Unit {0})
  then_saves rest c (err e) = (c, err e)
  then_saves rest c (ok c') = rest c'

  -- Calls one after the other, up to the first that throws: the cache then, and how it ended.
  unfoldable pub run_saves : (now : Str) → List Save → Cache db → Cache db × Result (Unit {0})
  run_saves now [] c = (c, ok tt)
  run_saves now (save ∷ saves) c = then_saves (run_saves now saves) c (run_save now save c)

  -- `onSave`, up to the reload.
  abbrev pub settle_save : Result (Cache db) → Page → Cache db → Page × Cache db
  settle_save (err e) page c = (record page { local_error = some e }, c)
  settle_save (ok c') page c = (record page { editing = none; creating = false }, c')

  unfoldable pub on_save : (now : Str) → Save → Page → Cache db → Page × Cache db
  on_save now save page c = settle_save (run_save now save c) page c

  -- A throw of the form's own saves is not caught, and leaves the page as it is.
  abbrev pub submit_number :
      List AccountRow
      → TransactionForm
      → ℤ
      → Draws
      → (now later : Str) → Page
      → Cache db × Result (Unit {0})
      → Page × Cache db
  submit_number accounts form amount draws now later page (c, err e) = (page, c)
  submit_number accounts form amount draws now later page (c, ok done) =
      on_save now (page_save page.editing (handed_on form amount) draws later) page c

  abbrev pub submit_if :
      Option ℤ
      → List AccountRow
      → TransactionForm
      → Draws
      → (now later : Str) → Page
      → Cache db
      → Page × Cache db
  submit_if none accounts form draws now later page c = (page, c)
  submit_if (some amount) accounts form draws now later page c =
      submit_number accounts form amount draws now later page
        (run_saves now (own_saves accounts form amount draws now) c)

  -- `submit` of the form with the `onSubmit` of the page; `none` is `NaN`.
  unfoldable pub submit :
      (to_number : Str → Option ℤ)
      → List AccountRow
      → TransactionForm
      → Draws
      → (now later : Str) → Page
      → Cache db
      → Page × Cache db
  submit to_number accounts form draws now later page c =
      submit_if (to_number form.amount) accounts form draws now later page c

  abbrev pub delete_partner : Option TxnRow → (now : Str) → Cache db → Result (Cache db)
  delete_partner none now c = ok c
  delete_partner (some partner) now c =
      delete_record P F db transactions_type partner.record_id now s c

  -- `onDelete`, up to the reload.
  unfoldable pub on_delete : TxnRow → List TxnRow → (now : Str) → Cache db → Result (Cache db)
  unfolding find_partner
  on_delete row rows now c = do
    c' ← delete_record P F db transactions_type row.record_id now s c
    delete_partner (partner_of row rows) now c'
