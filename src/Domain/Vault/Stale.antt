-- ===== src/Domain/Vault/Stale.antt =====
-- web/src/domain/store.ts, `saveRecord`, and web/src/stores/sessionKeys.ts.
-- Whose identity the saves after a lock and an unlock by phrase are sealed under.
use fincrypt.Prelude.{
  refl, ℕ, ◌≡◌, sym, ap, ◌∙◌, Option, none, some, true, false, List, [], ◌∷◌, ◌++◌, Str,
}
use fincrypt.Crypto.Errors.{ok, ok-injective}
use fincrypt.Crypto.Platform.{Platform}
use fincrypt.Crypto.Aead.{type_name}
use fincrypt.Cache.{Db, Cache, WireEnvelope, OutboxRow, outbox_row}
use fincrypt.Stores.SessionKeys.{SessionKeys, unlock_with_recovery, lock}
use fincrypt.Stores.SessionKeys.Identity.{record_user_id_stale}
use fincrypt.Domain.Formats.{Formats}
use fincrypt.Prelude.Json.{Json}
use fincrypt.Domain.Vault.{Bool, SyncableType, key_and_user, seal_record, save_record, record_type}
use fincrypt.Domain.Vault.Saves.{Saved-of_ok, outbox-Saved}
use fincrypt.Sync.Interleaving.{entry_of}

module _ (P : Platform) (F : Formats P) (db : Db) where
  key_and_user-user :
      (locked : Bool) (dek : Option (List ℕ)) (user : Option Str) (its : List ℕ) (name : Str)
      → key_and_user P F locked dek user ≡ ok (its, name)
      → user ≡ some name
  key_and_user-user false (some dek) (some user) its name h =
      ap some (ap (λ (x : List ℕ × Str). x.1) (ok-injective _ _ h))
  key_and_user-user false (some dek) none its name h = absurd (cc)
  key_and_user-user false none user its name h = absurd (cc)
  key_and_user-user true dek user its name h = absurd (cc)

  -- Right after a lock and an unlock by phrase, for whatever user, a save that returns has queued an
  -- envelope that was sealed under the record identity of the session before the lock. So that session had one:
  -- where it had none, no save returns.
  pub save_record-stale :
      (s t : SessionKeys P) (mnemonic user : Str) (w : List ℕ)
      → unlock_with_recovery P mnemonic user w (lock P s) ≡ ok t
      → (nonce : List ℕ) (type : SyncableType) (id : Str) (payload : Json) (ts : Str)
        (c c' : Cache db)
      → save_record P F db nonce type id payload ts t c ≡ ok c'
      → (before : Str) × (subkey : P.CryptoKey) × (e : WireEnvelope) × (row : OutboxRow)
        × (t.user_id ≡ some user)
        × (s.record_user_id ≡ some before)
        × (seal_record P F subkey nonce before type id payload ts ≡ ok e)
        × (row.entry ≡ entry_of db id (type_name (record_type type)) e)
        × (db.outbox.rows c'.outbox ≡ db.outbox.rows c.outbox ++ row ∷ [])
  save_record-stale s t mnemonic user w opened nonce type id payload ts c c' h =
      let saved = Saved-of_ok P F db nonce type id payload ts t c c' h in
      let (named, kept) = record_user_id_stale P s t mnemonic user w opened in
      (
        saved.user,
        saved.subkey,
        saved.envelope,
        outbox_row (db.outbox.next_seq c.outbox)
            (entry_of db id (type_name (record_type type)) saved.envelope),
        named,
        sym kept
            ∙ key_and_user-user t.locked t.raw_dek t.record_user_id saved.dek saved.user
                saved.key_is,
        saved.sealed,
        refl,
        outbox-Saved P F db nonce type id payload ts t c c' saved,
      )
