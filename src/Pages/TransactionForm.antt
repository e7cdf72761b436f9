-- ===== src/Pages/TransactionForm.antt =====
-- web/src/pages/TransactionsPage.tsx: the form, with the saves that it asks for. Amounts are whole minor
-- units; the identifiers and nonces that are drawn are arguments. The code's field `data` is `entry`.
use fincrypt.Prelude.{
  false, ℕ, ℤ, pos, neg, pos_part, neg_part, ◌+◌, Bool, false, Option, none, some, List, [], ◌∷◌,
  Str, codes, str_eq, if◌then◌else◌,
}
use fincrypt.Prelude.Json.{Json, null, int, text, obj, end, field}

pub record TransactionData : Type 0 where
  pub account_id : Str
  pub description : Str
  pub amount : ℤ
  pub currency : Str
  pub date : Str
  pub category : Str
  pub transfer_group : Option Str
  pub source : Str

-- An account of the list, with the fields that the page reads.
pub record AccountRow : Type 0 where
  pub record_id : Str
  pub name : Str
  pub currency : Str

-- The state of the form, but for its amount as a number.
pub record TransactionForm : Type 0 where
  pub description : Str
  pub amount : Str
  pub date : Str
  pub account_id : Str
  pub category : Str
  pub as_transfer : Bool
  pub target_account : Str

-- The state of the form when it opens: that of the entry to edit, or an empty one for the first account.
abbrev pub first_account : List AccountRow → Str
first_account [] = []
first_account (a ∷ accounts) = a.record_id

unfoldable pub initial_form :
    (to_text : ℤ → Str) (today : Str) → List AccountRow → Option TransactionData → TransactionForm
initial_form to_text today accounts none = record {
  description = [];
  amount = [];
  date = today;
  account_id = first_account accounts;
  category = [];
  as_transfer = false;
  target_account = [];
}
initial_form to_text today accounts (some d) = record {
  description = d.description;
  amount = to_text d.amount;
  date = d.date;
  account_id = d.account_id;
  category = d.category;
  as_transfer = false;
  target_account = [];
}

abbrev pub text_or_null : Option Str → Json
text_or_null none = null
text_or_null (some s) = text s

-- The object that `saveRecord` is given.
abbrev pub payload_of : TransactionData → Json
payload_of d = obj (
    field (codes "accountId") (text d.account_id) (
      field (codes "description") (text d.description) (
        field (codes "amount") (int d.amount) (
          field (codes "currency") (text d.currency) (
            field (codes "date") (text d.date) (
              field (codes "category") (text d.category) (
                field (codes "transferGroup") (text_or_null d.transfer_group)
                  (field (codes "source") (text d.source) end))))))))

-- Math.abs
abbrev pub abs : ℤ → ℤ
abs a = pos (pos_part a + neg_part a)

-- accounts.find((a) => a.recordId === id)
pub find_account : Str → List AccountRow → Option AccountRow
find_account id [] = none
find_account id (a ∷ accounts) = if str_eq a.record_id id then some a else find_account id accounts

abbrev pub currency_or_usd : Option AccountRow → Str
currency_or_usd none = codes "USD"
currency_or_usd (some a) = a.currency

unfoldable pub currency_of : List AccountRow → Str → Str
unfolding find_account
currency_of accounts id = currency_or_usd (find_account id accounts)

-- a || b
abbrev pub text_or : Str → Str → Str
text_or [] default = default
text_or (c ∷ s) default = c ∷ s

-- One call of `saveRecord`, with the nonce that it draws.
pub record Save : Type 0 where
  pub record_id : Str
  pub nonce : List ℕ
  pub entry : TransactionData
  pub ts : Option Str

-- What a submission draws: the transfer group, and an identifier and a nonce for each call.
pub record Draws : Type 0 where
  pub group : Str
  pub first_id : Str
  pub first_nonce : List ℕ
  pub second_id : Str
  pub second_nonce : List ℕ
  pub page_id : Str
  pub page_nonce : List ℕ

abbrev pub out_leg : List AccountRow → TransactionForm → ℤ → Draws → Save
out_leg accounts form amount draws = record {
  record_id = draws.first_id;
  nonce = draws.first_nonce;
  entry = record {
    account_id = form.account_id;
    description = text_or form.description (codes "Transfer out");
    amount = neg (abs amount);
    currency = currency_of accounts form.account_id;
    date = form.date;
    category = form.category;
    transfer_group = some draws.group;
    source = codes "manual";
  };
  ts = none;
}

abbrev pub in_leg : List AccountRow → TransactionForm → ℤ → Draws → (now : Str) → Save
in_leg accounts form amount draws now = record {
  record_id = draws.second_id;
  nonce = draws.second_nonce;
  entry = record {
    account_id = form.target_account;
    description = text_or form.description (codes "Transfer in");
    amount = abs amount;
    currency = currency_of accounts form.target_account;
    date = form.date;
    category = form.category;
    transfer_group = some draws.group;
    source = codes "manual";
  };
  ts = some now;
}

abbrev pub plain_entry : List AccountRow → TransactionForm → ℤ → Draws → Save
plain_entry accounts form amount draws = record {
  record_id = draws.first_id;
  nonce = draws.first_nonce;
  entry = record {
    account_id = form.account_id;
    description = form.description;
    amount = amount;
    currency = currency_of accounts form.account_id;
    date = form.date;
    category = form.category;
    transfer_group = none;
    source = codes "manual";
  };
  ts = none;
}

-- The saves that the form makes itself.
unfoldable pub own_saves : List AccountRow → TransactionForm → ℤ → Draws → (now : Str) → List Save
own_saves accounts form amount draws now =
    if form.as_transfer
    then out_leg accounts form amount draws ∷ in_leg accounts form amount draws now ∷ []
    else plain_entry accounts form amount draws ∷ []

-- What the form hands to `props.onSubmit` after that.
abbrev pub handed_on : TransactionForm → ℤ → TransactionData
handed_on form amount = record {
  account_id = form.account_id;
  description = form.description;
  amount = amount;
  currency = codes "USD";
  date = form.date;
  category = form.category;
  transfer_group = none;
  source = codes "manual";
}
