-- ===== src/Domain/Tests/Vault.antt =====
-- Runs of the data layer on a concrete platform, over tables that are lists.
use fincrypt.Crypto.Json.{json_parse}
use fincrypt.Prelude.{is_low_surrogate}
use fincrypt.Prelude.{is_high_surrogate}
use fincrypt.Prelude.Json.Quote.{quoted}
use fincrypt.Prelude.Json.Text.{json_stringify}
use fincrypt.Prelude.Json.Quote.{quoted}
use fincrypt.Prelude.Json.Text.{json_stringify}
use fincrypt.Prelude.Json.Text.RoundTrip.{IsKept}
use fincrypt.Sync.Outbox.{enqueue, drain, type_key}
use fincrypt.Sync.Engine.{flush, Network}
use fincrypt.Crypto.Aead.{import_aes_key, build_aad, chat}
use fincrypt.Crypto.KeyHierarchy.{hkdf_bits, derive_subkey}
use fincrypt.Prelude.{
  none, false, str_eq, includes, is_well_formed, starts_with, ◌≡◌, refl, List, [], ◌∷◌, codes, inl,
  inr, some,
}
use fincrypt.Prelude.Json.{Json, text}
use fincrypt.Crypto.Errors.{Fault, Result, ok, err}
use fincrypt.Crypto.Toy.{toy}
use fincrypt.Crypto.Tests.{nonce_1, key_1, dek_1}
use fincrypt.Cache.{Cache, WireEnvelope, CachedEnvelope, clear_all}
use fincrypt.Cache.Lists.{list_db}
use fincrypt.Sync.Merge.{row_of, merge_change}
use fincrypt.Domain.ToyFormats.{toy_formats}
use fincrypt.Domain.Vault.{
  Loaded, chat_type, seal_record, open_row, load_rows, loaded, save_record, load_working,
}
use fincrypt.Domain.Vault.RoundTrip.{open_row-seal_record, load_rows_blocked}
use fincrypt.Crypto.Tests.Phrases.{key_of}
use fincrypt.Sync.Merge.Rows.{change_of}
use fincrypt.Stores.SessionKeys.{SessionKeys, initial}
use fincrypt.Domain.Vault.Edits.{working_row, load_working_reverts}

abbrev note : Json
note = text (codes "hello")

abbrev wire_of : Result WireEnvelope → WireEnvelope
wire_of (ok e) = e
wire_of (err e) = record {
  record_id = [];
  type = [];
  nonce = [];
  ciphertext = [];
  aad = [];
  ts = [];
}

abbrev sealed : WireEnvelope
sealed = wire_of (
    seal_record toy toy_formats key_1 nonce_1 (codes "anna") chat_type (codes "r1") note
      (codes "2024"))

open_row-seal_record_example : open_row toy toy_formats key_1 (row_of sealed) ≡ ok note
unfolding toy toy_formats seal_record starts_with is_well_formed build_aad includes IsKept
    json_stringify quoted
open_row-seal_record_example =
    open_row-seal_record toy toy_formats key_1 nonce_1 (codes "anna") chat_type (codes "r1") note
      (codes "2024") sealed tt refl refl

abbrev fresh : Cache list_db
fresh = clear_all list_db

-- A row whose blob is empty.
abbrev broken : CachedEnvelope
broken = record (row_of sealed) { blob = [] }

abbrev fault_of : Result Json → Fault
fault_of (err e) = e
fault_of (ok j) = toy.argon2id_rejects

load_rows_blocked_example :
    (thrown : Fault) × ((load_rows toy toy_formats list_db key_1
        (codes "chat")
        (row_of sealed ∷ broken ∷ [])
        fresh).1
      ≡ err thrown)
unfolding toy toy_formats seal_record open_row str_eq
load_rows_blocked_example =
    load_rows_blocked toy toy_formats list_db key_1 (codes "chat") (row_of sealed ∷ broken ∷ [])
      fresh broken (fault_of (open_row toy toy_formats key_1 broken)) (inr (inl refl)) refl refl

abbrev unlocked : SessionKeys toy
unlocked = record (initial toy) {
  locked = false;
  user_id = some (codes "anna@x");
  record_user_id = some (codes "anna");
  raw_dek = some dek_1;
}

abbrev subkey_1 : toy.CryptoKey
subkey_1 = key_of (derive_subkey toy dek_1 chat)

abbrev synced : WireEnvelope
synced = wire_of (
    seal_record toy toy_formats subkey_1 nonce_1 (codes "anna") chat_type (codes "r1") note
      (codes "2024"))

abbrev held : Cache list_db
held = merge_change list_db fresh (change_of synced)

abbrev cache_of : Result (Cache list_db) → Cache list_db
cache_of (ok c) = c
cache_of (err e) = fresh

-- The record with an edit that waits in the outbox.
abbrev edited : Cache list_db
edited = cache_of (
    save_record toy toy_formats list_db nonce_1 chat_type (codes "r1") (text (codes "newer"))
      (codes "2025") unlocked held)

abbrev offline : Network
offline = record { post_sync = λ q. none; delete_record = λ d. false }

abbrev shown_again : List Loaded
shown_again = loaded toy toy_formats (row_of synced) note ∷ []

load_working_reverts_example :
    list_db.working.get
      (load_working toy toy_formats list_db offline chat_type unlocked edited).0.working
      (type_key (codes "chat") (codes "r1"))
    ≡ some (working_row toy toy_formats list_db (codes "chat") (row_of synced) note)
unfolding toy toy_formats list_db clear_all seal_record save_record open_row load_rows load_working
    derive_subkey hkdf_bits import_aes_key flush drain build_aad includes enqueue merge_change
    str_eq type_key starts_with json_stringify quoted is_high_surrogate is_low_surrogate json_parse
load_working_reverts_example =
    load_working_reverts toy toy_formats list_db offline chat_type unlocked edited subkey_1
      shown_again (row_of synced) note refl refl refl refl refl refl
