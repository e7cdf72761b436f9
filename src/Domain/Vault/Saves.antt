-- ===== src/Domain/Vault/Saves.antt =====
-- web/src/domain/store.ts, `saveRecord`: what a save leaves in the cache, and who can load it.
use fincrypt.Prelude.Json.Text.RoundTrip.{IsKept}
use fincrypt.Prelude.{
  Bool, true, false, none, Option, subst, length, Member, ℕ, some, List, [], ◌∷◌, ◌++◌, Str, ◌≡◌,
  refl, sym, ap, ◌∙◌, str_eq, if◌then◌else◌,
}
use fincrypt.Prelude.Json.{Json}
use fincrypt.Crypto.Errors.{ok, >>=-eq_ok, ok-injective}
use fincrypt.Crypto.Platform.{Platform}
use fincrypt.Crypto.Aead.{type_name}
use fincrypt.Crypto.KeyHierarchy.{derive_subkey}
use fincrypt.Cache.{CachedEnvelope, OutboxRow, outbox_row, WorkingRow, Db, Cache, WireEnvelope}
use fincrypt.Sync.Merge.{row_of}
use fincrypt.Sync.Interleaving.{entry_of}
use fincrypt.Domain.Vault.RoundTrip.{load_rows-seal_record}
use fincrypt.Sync.Outbox.{enqueue, type_key}
use fincrypt.Stores.SessionKeys.{SessionKeys}
use fincrypt.Domain.Formats.{Formats}
use fincrypt.Domain.Vault.{
  load_rows, Loaded, SyncableType, record_type, key_and_user, seal_record, save_record,
  build_aad_string, to_b64,
}

module _ (P : Platform) (F : Formats P) (db : Db) where
  -- What stands behind a save that returned.
  pub record Saved (nonce : List ℕ) (type : SyncableType) (id : Str) (payload : Json) (ts : Str)
      (s : SessionKeys P) (c c' : Cache db) : Type 0 where
    pub dek : List ℕ
    pub user : Str
    pub subkey : P.CryptoKey
    pub envelope : WireEnvelope
    pub key_is : key_and_user P F s.locked s.raw_dek s.record_user_id ≡ ok (dek, user)
    pub derived : derive_subkey P dek (record_type type) ≡ ok subkey
    pub sealed : seal_record P F subkey nonce user type id payload ts ≡ ok envelope
    pub result :
        enqueue db id (type_name (record_type type)) envelope (record c {
          working = db.working.put c.working (record {
            key = type_key (type_name (record_type type)) id;
            record_id = id;
            type = type_name (record_type type);
            payload = payload;
            ts = envelope.ts;
          });
        })
        ≡ c'

  pub Saved-of_ok :
      (nonce : List ℕ) (type : SyncableType) (id : Str) (payload : Json) (ts : Str)
      (s : SessionKeys P) (c c' : Cache db)
      → save_record P F db nonce type id payload ts s c ≡ ok c'
      → Saved nonce type id payload ts s c c'
  unfolding save_record
  Saved-of_ok nonce type id payload ts s c c' h =
      let (key, known, h₁) = >>=-eq_ok (key_and_user P F s.locked s.raw_dek s.record_user_id) _ h in
      let (subkey, derived, h₂) = >>=-eq_ok (derive_subkey P key.0 (record_type type)) _ h₁ in
      let (e, sealed, h₃) =
        >>=-eq_ok (seal_record P F subkey nonce key.1 type id payload ts) _ h₂ in
      record {
        dek = key.0;
        user = key.1;
        subkey = subkey;
        envelope = e;
        key_is = known;
        derived = derived;
        sealed = sealed;
        result = ok-injective _ c' h₃;
      }

  pub seal_record-ts :
      (subkey : P.CryptoKey) (nonce : List ℕ) (user : Str) (type : SyncableType) (id : Str)
      (payload : Json) (ts : Str) (e : WireEnvelope)
      → seal_record P F subkey nonce user type id payload ts ≡ ok e
      → (e.ts ≡ ts) × (e.record_id ≡ id)
  unfolding seal_record
  seal_record-ts subkey nonce user type id payload ts e h =
      let (aad, _, h₁) = >>=-eq_ok (build_aad_string P F user (record_type type) id) _ h in
      let (nonce_text, _, h₂) = >>=-eq_ok (to_b64 P F nonce) _ h₁ in
      let (blob, _, h₃) = >>=-eq_ok (to_b64 P F _) _ h₂ in
      let made = ok-injective _ e h₃ in
      (
        sym (ap (λ (x : WireEnvelope). x.ts) made),
        sym (ap (λ (x : WireEnvelope). x.record_id) made),
      )

  abbrev pub saved_row : SyncableType → Str → Json → Str → WorkingRow
  saved_row type id payload ts = record {
    key = type_key (type_name (record_type type)) id;
    record_id = id;
    type = type_name (record_type type);
    payload = payload;
    ts = ts;
  }

  pub outbox-Saved :
      (nonce : List ℕ) (type : SyncableType) (id : Str) (payload : Json) (ts : Str)
      (s : SessionKeys P) (c c' : Cache db) (saved : Saved nonce type id payload ts s c c')
      → db.outbox.rows c'.outbox
        ≡ db.outbox.rows c.outbox
          ++ outbox_row
              (db.outbox.next_seq c.outbox)
              (entry_of db id (type_name (record_type type)) saved.envelope)
            ∷ []
  unfolding enqueue
  outbox-Saved nonce type id payload ts s c c' saved =
      ap (λ (x : Cache db). db.outbox.rows x.outbox) (sym saved.result)
      ∙ db.outbox.rows-add c.outbox (entry_of db id (type_name (record_type type)) saved.envelope)

  -- A save that returns puts the payload with its timestamp into the working set under its key and
  -- leaves every other key there as it was; it appends one row for the record to the outbox; and the
  -- cached envelopes and the queued deletes are as they were.
  pub save_record-effects :
      (nonce : List ℕ) (type : SyncableType) (id : Str) (payload : Json) (ts : Str)
      (s : SessionKeys P) (c c' : Cache db) (k : Str)
      → save_record P F db nonce type id payload ts s c ≡ ok c'
      → (db.working.get c'.working k ≡ (
          if str_eq (type_key (type_name (record_type type)) id) k
          then some (saved_row type id payload ts)
          else db.working.get c.working k))
        × ((row : OutboxRow) × (db.outbox.rows c'.outbox ≡ db.outbox.rows c.outbox ++ row ∷ [])
            × (row.entry.record_id ≡ id))
        × (c'.envelopes ≡ c.envelopes)
        × (c'.meta ≡ c.meta)
  unfolding enqueue
  save_record-effects nonce type id payload ts s c c' k h =
      let saved = Saved-of_ok nonce type id payload ts s c c' h in
      let same =
        seal_record-ts saved.subkey nonce saved.user type id payload ts saved.envelope
          saved.sealed in
      (
        ap (λ (x : Cache db). db.working.get x.working k) (sym saved.result)
            ∙ db.working.get-put c.working (saved_row type id payload saved.envelope.ts) k
            ∙ rw same.0 refl,
        (
          outbox_row (db.outbox.next_seq c.outbox)
              (entry_of db id (type_name (record_type type)) saved.envelope),
          outbox-Saved nonce type id payload ts s c c' saved,
          refl,
        ),
        ap (λ (x : Cache db). x.envelopes) (sym saved.result),
        ap (λ (x : Cache db). x.meta) (sym saved.result),
      )

  last-injective : (xs : List OutboxRow) (a b : OutboxRow) → xs ++ a ∷ [] ≡ xs ++ b ∷ [] → a ≡ b
  last-injective [] a b h = cc
  last-injective (x ∷ xs) a b h = last-injective xs a b cc

  key_and_user-dek :
      (locked : Bool) (dek : List ℕ) (user : Option Str) (its : List ℕ) (name : Str)
      → key_and_user P F locked (some dek) user ≡ ok (its, name)
      → its ≡ dek
  key_and_user-dek false dek (some user) its name h =
      sym (ap (λ (x : List ℕ × Str). x.0) (ok-injective _ _ h))
  key_and_user-dek false dek none its name h = absurd (cc)
  key_and_user-dek true dek user its name h = absurd (cc)

  -- What one device saves, another shows: where the row that the save queued is among the envelopes of
  -- a device whose data key gives the same subkey, and its load returns, the record is listed there
  -- with its payload and its timestamp, if JSON text keeps the payload.
  pub load_rows-save_record :
      (nonce : List ℕ) (type : SyncableType) (id : Str) (payload : Json) (ts : Str)
      (s : SessionKeys P) (c c' : Cache db) (row : OutboxRow) (dek : List ℕ) (subkey : P.CryptoKey)
      (other : Db) (name : Str) (rows : List CachedEnvelope) (d : Cache other) (out : List Loaded)
      → save_record P F db nonce type id payload ts s c ≡ ok c'
      → db.outbox.rows c'.outbox ≡ db.outbox.rows c.outbox ++ row ∷ []
      → s.raw_dek ≡ some dek
      → derive_subkey P dek (record_type type) ≡ ok subkey
      → IsKept payload
      → length nonce ≡ 12
      → Member (row_of row.entry.envelope) rows
      → (load_rows P F other subkey name rows d).1 ≡ ok out
      → Member (record { record_id = id; payload = payload; ts = ts }) out
  load_rows-save_record nonce type id payload ts s c c' row dek subkey other name rows d out h
        queued holds derived kept fits there loads =
      let saved = Saved-of_ok nonce type id payload ts s c c' h in
      let is_row =
        last-injective (db.outbox.rows c.outbox) _ row
          (sym (outbox-Saved nonce type id payload ts s c c' saved) ∙ queued) in
      let same_envelope : saved.envelope ≡ row.entry.envelope =
        ap (λ (x : OutboxRow). x.entry.envelope) is_row in
      let same_dek : saved.dek ≡ dek =
        key_and_user-dek s.locked dek s.record_user_id saved.dek saved.user
          (rw holds at saved.key_is) in
      let same_subkey : saved.subkey ≡ subkey =
        ok-injective _ _
          (sym saved.derived ∙ ap (λ k. derive_subkey P k (record_type type)) same_dek ∙ derived) in
      let (same_ts, same_id) =
        seal_record-ts saved.subkey nonce saved.user type id payload ts saved.envelope
          saved.sealed in
      let listed =
        load_rows-seal_record P F other saved.subkey nonce saved.user type id payload ts
          saved.envelope name rows d out kept fits saved.sealed
          (subst (λ e. Member (row_of e) rows) (sym same_envelope) there)
          (subst (λ k. (load_rows P F other k name rows d).1 ≡ ok out) (sym same_subkey) loads) in
      subst (λ (x : Loaded). Member x out) (rw (same_ts, same_id) refl) listed
