-- ===== src/Domain/Vault.antt =====
-- web/src/domain/store.ts, with web/src/crypto/b64.ts: from the user's data to queued envelopes, and
-- from cached envelopes back. The drawn nonce and the time are arguments; the flush that `saveRecord`
-- and `deleteRecord` start in the background is `flush` of the sync engine.
pub mod RoundTrip
pub mod Edits
pub mod Saves
pub mod Stale
pub mod Searches
use fincrypt.Crypto.Json.{json_parse}
use fincrypt.Prelude.Json.Text.{json_stringify}
use fincrypt.Prelude.{
  ℕ, Bool, true, false, Option, none, some, List, [], ◌∷◌, ◌++◌, map, Str, codes, take, drop, not,
  str_eq, if◌then◌else◌, keep_if, ◌==◌, ◌||◌, ◌&&◌,
}
use fincrypt.Prelude.Json.{Json}
use fincrypt.Crypto.Errors.{Fault, plain_error, Result, ok, err, ◌>>=◌}
use fincrypt.Crypto.Platform.{Platform}
use fincrypt.Crypto.Aead.{RecordType, type_name, build_aad, transactions, accounts, chat}
use fincrypt.Crypto.KeyHierarchy.{derive_subkey}
use fincrypt.Cache.{Db, Cache, CachedEnvelope, WorkingRow, WireEnvelope, clear_working}
use fincrypt.Sync.Outbox.{type_key, delete_key, enqueue}
use fincrypt.Sync.Scheduler.{Scheduler, start_sync}
use fincrypt.Sync.Engine.{FlushResult, Network, flush}
use fincrypt.Stores.SessionKeys.{SessionKeys}
use fincrypt.Domain.Formats.{Formats}

pub data SyncableType : Type 0 where
  accounts_type transactions_type chat_type : SyncableType

abbrev pub record_type : SyncableType → RecordType
record_type accounts_type = accounts
record_type transactions_type = transactions
record_type chat_type = chat

-- b64.replace(/-/g, '+').replace(/_/g, '/')
abbrev pub standard_code : ℕ → ℕ
standard_code c = if c == b'-' then b'+' else if c == b'_' then b'/' else c

abbrev pub vault_locked : Fault
vault_locked = plain_error (codes "vault is locked")

-- What `loadWorking` lists of a record.
pub record Loaded : Type 0 where
  pub record_id : Str
  pub payload : Json
  pub ts : Str

module _ (P : Platform) (F : Formats P) where
  open P use {CryptoKey, gcm_seal, gcm_open, utf8}
  open F use {utf8_decode, btoa, atob}

  -- `toB64`; a byte is the code of its character.
  abbrev pub to_b64 : List ℕ → Result Str
  to_b64 bytes = btoa bytes

  abbrev pub from_b64 : Str → Result (List ℕ)
  from_b64 b64 = atob (map standard_code b64)

  -- buildAadString
  abbrev pub build_aad_string : Str → RecordType → Str → Result Str
  build_aad_string user type id = build_aad P user type id >>= λ aad. ok (utf8_decode aad)

  abbrev pub encrypt_with_subkey : CryptoKey → List ℕ → List ℕ → Str → List ℕ
  encrypt_with_subkey subkey nonce plaintext aad =
      nonce ++ gcm_seal subkey nonce (utf8 aad) plaintext

  -- The rejection of `crypto.subtle.decrypt`.
  abbrev opened_or_rejected : Option (List ℕ) → Result (List ℕ)
  opened_or_rejected none = err (plain_error (codes "OperationError"))
  opened_or_rejected (some plaintext) = ok plaintext

  abbrev pub decrypt_with_subkey : CryptoKey → List ℕ → List ℕ → Str → Result (List ℕ)
  decrypt_with_subkey subkey nonce ciphertext aad =
      opened_or_rejected (gcm_open subkey nonce (utf8 aad) ciphertext)

  -- The part of `saveRecord` that makes the envelope.
  unfoldable pub seal_record :
      (subkey : CryptoKey) (nonce : List ℕ) (user : Str) (type : SyncableType) (record_id : Str)
      → Json
      → (ts : Str) → Result WireEnvelope
  seal_record subkey nonce user type record_id payload ts = do
    aad ← build_aad_string user (record_type type) record_id
    let packed = encrypt_with_subkey subkey nonce (utf8 (json_stringify payload)) aad
    nonce_text ← to_b64 nonce
    ciphertext ← to_b64 packed
    ok (record {
      record_id = record_id;
      type = type_name (record_type type);
      nonce = nonce_text;
      ciphertext = ciphertext;
      aad = aad;
      ts = ts;
    })

  -- The data key and the identity for the records, if the store is unlocked and has both.
  abbrev pub key_and_user : Bool → Option (List ℕ) → Option Str → Result (List ℕ × Str)
  key_and_user false (some dek) (some user) = ok (dek, user)
  key_and_user _ _ _ = err vault_locked

  -- What `loadWorking` does with the text of a row.
  unfoldable pub open_row : CryptoKey → CachedEnvelope → Result Json
  open_row subkey row = do
    packed ← from_b64 row.blob
    plaintext ← decrypt_with_subkey subkey (take 12 packed) (drop 12 packed) row.aad
    json_parse (utf8_decode plaintext)

  abbrev pub loaded : CachedEnvelope → Json → Loaded
  loaded row payload = record { record_id = row.record_id; payload = payload; ts = row.ts }

  module _ (db : Db) where
    unfoldable pub save_record :
        (nonce : List ℕ) (type : SyncableType) (record_id : Str)
        → Json
        → (ts : Str) → SessionKeys P
        → Cache db
        → Result (Cache db)
    save_record nonce type record_id payload ts s c = do
      let name = type_name (record_type type)
      (dek, user) ← key_and_user s.locked s.raw_dek s.record_user_id
      subkey ← derive_subkey P dek (record_type type)
      envelope ← seal_record subkey nonce user type record_id payload ts
      ok (
          enqueue db record_id name envelope (record c {
            working = db.working.put c.working (record {
              key = type_key name record_id;
              record_id = record_id;
              type = name;
              payload = payload;
              ts = envelope.ts;
            });
          }))

    abbrev pub forgotten : Str → Str → Str → Cache db → Cache db
    forgotten name record_id now c = record c {
      envelopes = db.envelopes.delete c.envelopes (type_key name record_id);
      working = db.working.delete c.working (type_key name record_id);
      meta = db.meta.put c.meta (record { key = delete_key name record_id; value = now });
    }

    unfoldable pub delete_record :
        SyncableType → Str → (now : Str) → SessionKeys P → Cache db → Result (Cache db)
    delete_record type record_id now s c = delete_for s.user_id
      where
        delete_for : Option Str → Result (Cache db)
        delete_for none = err (plain_error (codes "vault locked"))
        delete_for (some user) = ok (forgotten (type_name (record_type type)) record_id now c)

    abbrev pub put_working : CachedEnvelope → Str → Result Json → Cache db → Cache db
    put_working row name (err e) c = c
    put_working row name (ok payload) c = record c {
      working = db.working.put c.working (record {
        key = row.key;
        record_id = row.record_id;
        type = name;
        payload = payload;
        ts = row.ts;
      });
    }

    abbrev pub prepend :
        CachedEnvelope
        → Result Json
        → Cache db
        → Cache db × Result (List Loaded)
        → Cache db × Result (List Loaded)
    prepend row (err e) c rest = (c, err e)
    prepend row (ok payload) c rest = (rest.0, rest.1 >>= λ out. ok (loaded row payload ∷ out))

    -- The loop of `loadWorking`: the cache as the loop leaves it, and the rows or the throw.
    unfoldable pub load_rows :
        CryptoKey → Str → List CachedEnvelope → Cache db → Cache db × Result (List Loaded)
    load_rows subkey name [] c = (c, ok [])
    load_rows subkey name (row ∷ rows) c =
        let opened = open_row subkey row in
        let rest = load_rows subkey name rows (put_working row name opened c) in
        let skipped = load_rows subkey name rows c in
        if row.deleted then skipped else prepend row opened c rest

    abbrev of_type : Str → CachedEnvelope → Bool
    of_type name row = str_eq row.type name

    -- The keys of the rows that the loop covered.
    abbrev covers : List CachedEnvelope → Str → Bool
    covers [] key = false
    covers (row ∷ rows) key = (not row.deleted && str_eq row.key key) || covers rows key

    abbrev unsynced : List CachedEnvelope → Str → WorkingRow → Bool
    unsynced rows name w = str_eq w.type name && not (covers rows w.key)

    abbrev shown : WorkingRow → Loaded
    shown w = record { record_id = w.record_id; payload = w.payload; ts = w.ts }

    -- From the rows on: what the loop loaded, then the working rows that it did not cover.
    abbrev pub with_unsynced :
        List CachedEnvelope
        → Str
        → Cache db × Result (List Loaded)
        → Cache db × Result (List Loaded)
    with_unsynced rows name (c, result) = (
      c,
      result >>= λ out.
          ok (out ++ map shown (keep_if (unsynced rows name) (db.working.to_array c.working))),
    )

    abbrev pub load_with : CryptoKey → Str → Cache db → Cache db × Result (List Loaded)
    load_with subkey name c =
        let rows = keep_if (of_type name) (db.envelopes.to_array c.envelopes) in
        with_unsynced rows name (load_rows subkey name rows c)

    -- With the key, or without: a throw before the flush leaves the cache as it is.
    abbrev pub load_synced :
        Result CryptoKey → Str → Network → Cache db → Cache db × Result (List Loaded)
    load_synced (err e) name net c = (c, err e)
    load_synced (ok subkey) name net c = load_with subkey name (flush db net c).cache

    unfoldable pub load_working :
        Network → SyncableType → SessionKeys P → Cache db → Cache db × Result (List Loaded)
    unfolding load_rows
    load_working net type s c =
        load_synced
          (key_and_user s.locked s.raw_dek s.user_id >>= λ key.
            derive_subkey P key.0 (record_type type))
          (type_name (record_type type)) net c

    -- endSync
    unfoldable pub end_sync : Cache db → Cache db
    end_sync c = clear_working db c

    abbrev sync_for : Option Str → Network → Cache db → Result (Cache db × FlushResult)
    sync_for none net c = err (plain_error (codes "not signed in"))
    sync_for (some user) net c = let done = flush db net c in ok (done.cache, done.result)

    unfoldable pub sync_now : Network → SessionKeys P → Cache db → Result (Cache db × FlushResult)
    sync_now net s c = sync_for s.user_id net c

    abbrev begin_for : Option Str → Network → Cache db → Scheduler → Cache db × Scheduler
    begin_for none net c scheduler = (c, scheduler)
    begin_for (some user) net c scheduler = ((flush db net c).cache, start_sync scheduler)

    -- `beginSync`: a flush, and the loop; the result of this flush is not counted as an attempt.
    unfoldable pub begin_sync :
        Network → SessionKeys P → Cache db → Scheduler → Cache db × Scheduler
    begin_sync net s c scheduler = begin_for s.user_id net c scheduler
