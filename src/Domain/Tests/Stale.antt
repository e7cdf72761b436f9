-- ===== src/Domain/Tests/Stale.antt =====
-- A save after another user's session, on a concrete platform.
use fincrypt.Crypto.Aead.{decrypt_bytes, encrypt_bytes, import_aes_key, build_aad, type_name}
use fincrypt.Crypto.KeyHierarchy.{
  wrap_with_recovery, unwrap_with_recovery, hkdf_bits, derive_subkey,
}
use fincrypt.Crypto.Recovery.{
  normalize_phrase, validate_recovery_phrase, derive_recovery_kek, recover_dek,
  wrap_dek_with_recovery,
}
use fincrypt.Prelude.{
  str_eq, trim, words, join, includes, is_well_formed, starts_with, ◌≡◌, refl, some, [], ◌∷◌, ◌++◌,
  Str, codes,
}
use fincrypt.Prelude.Json.{Json, text}
use fincrypt.Prelude.Json.Quote.{quoted}
use fincrypt.Prelude.Json.Text.{json_stringify}
use fincrypt.Crypto.Errors.{Result, ok, err}
use fincrypt.Crypto.Toy.{toy}
use fincrypt.Crypto.Tests.{nonce_1}
use fincrypt.Cache.{Cache, WireEnvelope, OutboxRow, clear_all}
use fincrypt.Cache.Lists.{list_db}
use fincrypt.Sync.Outbox.{enqueue}
use fincrypt.Sync.Interleaving.{entry_of}
use fincrypt.Stores.SessionKeys.{unlock_with_recovery, lock, initial}
use fincrypt.Stores.Tests.{phrase, recovery_wrap, left_behind, unlocked_after}
use fincrypt.Domain.ToyFormats.{toy_formats}
use fincrypt.Domain.Vault.{chat_type, seal_record, save_record, record_type}
use fincrypt.Domain.Vault.Stale.{save_record-stale}

abbrev note : Json
note = text (codes "hello")

abbrev empty : Cache list_db
empty = clear_all list_db

abbrev cache_of : Result (Cache list_db) → Cache list_db
cache_of (ok c) = c
cache_of (err e) = empty

abbrev held : Cache list_db
held = cache_of (
    save_record toy toy_formats list_db nonce_1 chat_type (codes "r1") note (codes "2024")
      unlocked_after empty)

save_record-stale_example :
    (before : Str) × (subkey : toy.CryptoKey) × (e : WireEnvelope) × (row : OutboxRow)
    × (unlocked_after.user_id ≡ some (codes "anna"))
    × (left_behind.record_user_id ≡ some before)
    × (seal_record toy toy_formats subkey nonce_1 before chat_type (codes "r1") note (codes "2024")
        ≡ ok e)
    × (row.entry ≡ entry_of list_db (codes "r1") (type_name (record_type chat_type)) e)
    × (list_db.outbox.rows held.outbox ≡ list_db.outbox.rows empty.outbox ++ row ∷ [])
unfolding toy unlock_with_recovery recover_dek derive_recovery_kek validate_recovery_phrase
    normalize_phrase join words trim hkdf_bits import_aes_key unwrap_with_recovery
    wrap_dek_with_recovery wrap_with_recovery encrypt_bytes decrypt_bytes str_eq save_record
    derive_subkey seal_record build_aad includes toy_formats list_db clear_all enqueue starts_with
    is_well_formed json_stringify quoted initial lock
save_record-stale_example =
    save_record-stale toy toy_formats list_db left_behind unlocked_after phrase (codes "anna")
      recovery_wrap refl nonce_1 chat_type (codes "r1") note (codes "2024") empty held refl
