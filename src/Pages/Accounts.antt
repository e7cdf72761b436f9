-- ===== src/Pages/Accounts.antt =====
-- web/src/pages/AccountsPage.tsx: `onCreate`, `onArchive` and the two lists. `Number` of the opening
-- balance's text, the drawn identifier and nonce, and the times are arguments.
use fincrypt.Prelude.{
  sort, ◌≡◌, ◌⊎◌, inl, inr, refl, ◌∙◌, str_eq_refl, [], ℕ, ℤ, Bool, true, false, not, Option, none,
  some, List, Str, codes, trim, length, ◌==◌, if◌then◌else◌, keep_if,
}
use fincrypt.Prelude.Json.{Json, null, int, bool, text, obj, end, field}
use fincrypt.Crypto.Errors.{Result-cases, Fault, Result, ok, err}
use fincrypt.Crypto.Platform.{Platform}
use fincrypt.Cache.{Db, Cache}
use fincrypt.Stores.SessionKeys.{SessionKeys}
use fincrypt.Domain.Formats.{Formats}
use fincrypt.Domain.Vault.Saves.{saved_row, save_record-effects}
use fincrypt.Sync.Outbox.{type_key}
use fincrypt.Domain.Vault.{accounts_type, save_record}

-- `none` is the balance `NaN`.
pub record AccountData : Type 0 where
  pub name : Str
  pub currency : Str
  pub opening_balance : Option ℤ
  pub institution_note : Str
  pub archived : Bool

pub record AccountRow : Type 0 where
  pub record_id : Str
  pub entry : AccountData
  pub ts : Str

-- The state of the page that the handlers read and set.
pub record Page : Type 0 where
  pub name : Str
  pub currency : Str
  pub opening : Str
  pub busy : Bool
  pub local_error : Option Fault

-- `NaN` in JSON text is `null`.
abbrev pub number_or_null : Option ℤ → Json
number_or_null none = null
number_or_null (some n) = int n

abbrev pub account_payload : AccountData → Json
account_payload d = obj (
    field (codes "name") (text d.name) (
      field (codes "currency") (text d.currency) (
        field (codes "openingBalance") (number_or_null d.opening_balance) (
          field (codes "institutionNote") (text d.institution_note)
            (field (codes "archived") (bool d.archived) end)))))

abbrev pub new_account : (to_number : Str → Option ℤ) → Page → AccountData
new_account to_number page = record {
  name = trim page.name;
  currency = page.currency;
  opening_balance = to_number page.opening;
  institution_note = [];
  archived = false;
}

-- { ...row.data, archived: true }
abbrev pub archived_account : AccountRow → AccountData
archived_account row = record row.entry { archived = true }

-- The rows after a reload: `locale_less a b` is `a.localeCompare(b) < 0`.
unfoldable pub by_name : (locale_less : Str → Str → Bool) → List AccountRow → List AccountRow
by_name locale_less rows = sort (λ a b. locale_less b.entry.name a.entry.name) rows

-- The two lists of the page.
abbrev pub is_active : AccountRow → Bool
is_active r = not r.entry.archived

abbrev pub is_archived : AccountRow → Bool
is_archived r = r.entry.archived

unfoldable pub active : List AccountRow → List AccountRow
active rows = keep_if is_active rows

unfoldable pub archived : List AccountRow → List AccountRow
archived rows = keep_if is_archived rows

module _ (P : Platform) (F : Formats P) (db : Db) (s : SessionKeys P) where
  -- From the end of `saveRecord` on, with `catch` and `finally`.
  abbrev pub settle_create : Result (Cache db) → Page → Cache db → Page × Cache db
  settle_create (err e) page c = (record page { local_error = some e; busy = false }, c)
  settle_create (ok c') page c =
      (record page { name = []; opening = codes "0.00"; busy = false }, c')

  -- `onCreate`, up to the reload.
  unfoldable pub on_create :
      (to_number : Str → Option ℤ)
      → (record_id : Str) (nonce : List ℕ) (now : Str) → Page
      → Cache db
      → Page × Cache db
  on_create to_number record_id nonce now page c =
      if length (trim page.name) == 0
      then (page, c)
      else settle_create
          (save_record P F db nonce accounts_type record_id
            (account_payload (new_account to_number page)) now s c)
          page c

  -- A throw is not caught; `finally` clears `busy`.
  abbrev pub settle_archive : Result (Cache db) → Page → Cache db → Page × Cache db
  settle_archive (err e) page c = (record page { busy = false }, c)
  settle_archive (ok c') page c = (record page { busy = false }, c')

  -- `onArchive`, up to the reload.
  unfoldable pub on_archive :
      AccountRow → (nonce : List ℕ) (later : Str) → Page → Cache db → Page × Cache db
  on_archive row nonce later page c =
      settle_archive
        (save_record P F db nonce accounts_type row.record_id
          (account_payload (archived_account row)) later s c)
        page c

  -- `onArchive` leaves the page not busy; and either it stored the account under its id, with the flag
  -- set, the other fields as they were and the later timestamp, or the save threw and the cache is as
  -- it was.
  pub on_archive-effects :
      (row : AccountRow) (nonce : List ℕ) (later : Str) (page : Page) (c : Cache db)
      → ((on_archive row nonce later page c).0.busy ≡ false)
        × ((db.working.get
                (on_archive row nonce later page c).1.working
                (type_key (codes "accounts") row.record_id)
              ≡ some (
                  saved_row P F db accounts_type row.record_id
                    (account_payload (record row.entry { archived = true }))
                    later))
            ⊎ ((on_archive row nonce later page c).1 ≡ c))
  unfolding on_archive
  on_archive-effects row nonce later page c =
      elim (Result-cases (
        save_record P F db nonce accounts_type row.record_id
          (account_payload (archived_account row)) later s c)) [
            | inr (e, fails) ↦ (rw fails refl, inr (rw fails refl))
            | inl (c', saved) ↦
                let effects =
                  save_record-effects P F db nonce accounts_type row.record_id
                    (account_payload (archived_account row)) later s c c'
                    (type_key (codes "accounts") row.record_id) saved in
                (
                  rw saved refl,
                  inl (
                      rw saved (
                        effects.0
                        ∙ rw (str_eq_refl (type_key (codes "accounts") row.record_id)) refl)),
                )
          ]
