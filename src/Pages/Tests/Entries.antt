-- ===== src/Pages/Tests/Entries.antt =====
-- Runs of the pages of entries, over tables that are lists.
use fincrypt.Crypto.Json.{json_parse}
use fincrypt.Prelude.Json.Quote.{quoted}
use fincrypt.Prelude.Json.Text.{json_stringify}
use fincrypt.Prelude.Json.Text.RoundTrip.{IsKept}
use fincrypt.Domain.Vault.{
  open_row, seal_record, delete_record, Loaded, chat_type, save_record, load_rows,
}
use fincrypt.Prelude.{
  is_well_formed, starts_with, includes, str_eq, Member, inl, ap, negsuc, ℤ, pos, true, false,
  Option, none, some, List, [], ◌∷◌, ◌++◌, Str, codes, ◌≡◌, ◌⊎◌, refl, inr,
}
use fincrypt.Sync.Outbox.{enqueue}
use fincrypt.Crypto.Aead.{build_aad, import_aes_key, chat}
use fincrypt.Crypto.KeyHierarchy.{hkdf_bits, derive_subkey}
use fincrypt.Pages.TransactionForm.{AccountRow, TransactionForm, Save, Draws, own_saves, handed_on}
use fincrypt.Pages.Transactions.{run_save, TxnRow, Page, page_save, run_saves, submit, on_delete}
use fincrypt.Domain.Vault.Saves.{load_rows-save_record}
use fincrypt.Cache.{WireEnvelope, Cache, OutboxRow, clear_all}
use fincrypt.Crypto.Tests.Phrases.{key_of}
use fincrypt.Sync.Merge.{row_of}
use fincrypt.Prelude.Json.{Json, text}
use fincrypt.Crypto.Errors.{Result, ok, err}
use fincrypt.Crypto.Toy.{toy}
use fincrypt.Crypto.Tests.{nonce_1, dek_1}
use fincrypt.Cache.Lists.{list_db}
use fincrypt.Stores.SessionKeys.{SessionKeys, initial}
use fincrypt.Domain.ToyFormats.{toy_formats}
use fincrypt.Pages.Transactions.Saves.{queued_ids, submit-queued_ids}
use fincrypt.Pages.Transactions.Pairs.{IsGone, on_delete-pair}

abbrev unlocked : SessionKeys toy
unlocked = record (initial toy) {
  locked = false;
  user_id = some (codes "anna@x");
  record_user_id = some (codes "anna");
  raw_dek = some dek_1;
}

abbrev empty : Cache list_db
empty = clear_all list_db

abbrev cache_of : Result (Cache list_db) → Cache list_db
cache_of (ok c) = c
cache_of (err e) = empty

abbrev form : TransactionForm
form = record {
  description = codes "Tea";
  amount = codes "-3";
  date = codes "2024-05-01";
  account_id = codes "a1";
  category = codes "food";
  as_transfer = true;
  target_account = codes "a2";
}

abbrev accounts : List AccountRow
accounts = record { record_id = codes "a2"; name = codes "Bank"; currency = codes "EUR" } ∷ []

abbrev draws : Draws
draws = record {
  group = codes "g";
  first_id = codes "i";
  first_nonce = nonce_1;
  second_id = codes "ib";
  second_nonce = nonce_1;
  page_id = codes "ibc";
  page_nonce = nonce_1;
}

abbrev page : Page
page = record { editing = none; creating = true; local_error = none }

abbrev minus_three : Str → Option ℤ
minus_three s = some (negsuc 2)

-- The saves of the form and the page, one after the other.
abbrev all_saves : List Save
all_saves =
    own_saves accounts form (negsuc 2) draws (codes "2024")
    ++ page_save none (handed_on form (negsuc 2)) draws (codes "2025") ∷ []

abbrev saved : Cache list_db
saved = (run_saves toy toy_formats list_db unlocked (codes "2024") all_saves empty).0

submit-queued_ids_example :
    ((submit toy toy_formats list_db unlocked minus_three accounts form draws
        (codes "2024")
        (codes "2025")
        page
        empty).1
      ≡ saved)
    × (queued_ids toy toy_formats list_db unlocked saved
        ≡ queued_ids toy toy_formats list_db unlocked empty
          ++ codes "i" ∷ codes "ib" ∷ codes "ibc" ∷ [])
unfolding run_saves own_saves run_save save_record derive_subkey hkdf_bits import_aes_key toy
    seal_record build_aad includes toy_formats
submit-queued_ids_example =
    submit-queued_ids toy toy_formats list_db unlocked minus_three accounts form (negsuc 2) draws
      (codes "2024") (codes "2025") page empty saved refl refl

abbrev leg : Str → TxnRow
leg id = record {
  record_id = id;
  entry = record (handed_on form (pos 3)) { transfer_group = some (codes "g") };
  ts = codes "2024";
}

abbrev legs : List TxnRow
legs = leg (codes "i") ∷ leg (codes "ib") ∷ []

abbrev deleted : Cache list_db
deleted =
    cache_of
      (on_delete toy toy_formats list_db unlocked (leg (codes "ib")) legs (codes "2026") saved)

legs-only :
    (r : TxnRow)
    → Member r legs
    → r.entry.transfer_group ≡ some (codes "g")
    → (r.record_id ≡ codes "ib") ⊎ (r.record_id ≡ codes "i")
legs-only r (inl here) grouped = inr (ap (λ (x : TxnRow). x.record_id) here)
legs-only r (inr (inl here)) grouped = inl (ap (λ (x : TxnRow). x.record_id) here)
legs-only r (inr (inr there)) grouped = elim there [ ]

on_delete-pair_example :
    IsGone toy toy_formats list_db unlocked (codes "2026") (codes "ib") deleted
    × IsGone toy toy_formats list_db unlocked (codes "2026") (codes "i") deleted
    × (deleted.outbox ≡ saved.outbox)
unfolding on_delete delete_record str_eq
on_delete-pair_example =
    on_delete-pair toy toy_formats list_db unlocked (leg (codes "ib")) (leg (codes "i")) legs
      (codes "g") (codes "2026") saved deleted refl (inl refl) (λ same. cc) refl legs-only refl

abbrev note : Json
note = text (codes "hello")

abbrev held : Cache list_db
held = cache_of (
    save_record toy toy_formats list_db nonce_1 chat_type (codes "r1") note (codes "2024") unlocked
      empty)

abbrev loaded_there : List Loaded
loaded_there = record { record_id = codes "r1"; payload = note; ts = codes "2024" } ∷ []

abbrev empty_envelope : WireEnvelope
empty_envelope = record {
  record_id = [];
  type = [];
  nonce = [];
  ciphertext = [];
  aad = [];
  ts = [];
}

abbrev queued_row : List OutboxRow → OutboxRow
queued_row [] = record {
  seq = 0;
  entry = record { record_id = []; type = []; envelope = empty_envelope; ts = [] };
}
queued_row (r ∷ rows) = r

load_rows-save_record_example :
    Member (record { record_id = codes "r1"; payload = note; ts = codes "2024" }) loaded_there
unfolding save_record derive_subkey hkdf_bits import_aes_key toy seal_record build_aad includes
    toy_formats list_db clear_all enqueue starts_with is_well_formed load_rows open_row str_eq
    IsKept json_stringify quoted json_parse
load_rows-save_record_example =
    load_rows-save_record toy toy_formats list_db nonce_1 chat_type (codes "r1") note (codes "2024")
      unlocked empty held (queued_row (list_db.outbox.rows held.outbox)) dek_1
      (key_of (derive_subkey toy dek_1 chat)) list_db (codes "chat")
      (row_of (queued_row (list_db.outbox.rows held.outbox)).entry.envelope ∷ []) empty loaded_there
      refl refl refl refl tt refl (inl refl) refl
