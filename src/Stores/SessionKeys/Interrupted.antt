-- ===== src/Stores/SessionKeys/Interrupted.antt =====
-- web/src/stores/sessionKeys.ts.
-- A call of `getSubkey` that a lock and an unlock come into.
use fincrypt.Prelude.{ℕ, ◌≡◌, refl, subst, Bool, true, false, Option, none, some, List, ◌∷◌, arith}
use fincrypt.Crypto.Errors.{ok-injective, ok}
use fincrypt.Crypto.Platform.{Platform}
use fincrypt.Crypto.Aead.{RecordType}
use fincrypt.Crypto.KeyHierarchy.{derive_subkey}
use fincrypt.Stores.SessionKeys.{
  SessionKeys, PendingSubkey, derives, looked_up, look_of, begin_subkey, finish_subkey, get_subkey,
  cached_key, same_type, lock,
}

same_type_refl : (type : RecordType) → same_type type type ≡ true
same_type_refl type = ground arith

module _ (P : Platform) where
  open P use {CryptoKey}

  -- What a waiting call has read: the type that it was asked for and the data key of the store.
  abbrev HasRead : RecordType → Option (List ℕ) → PendingSubkey P → Type 0
  HasRead type dek p = (p.type ≡ type) × (dek ≡ some p.dek)

  looked_up-HasRead :
      (o : Option CryptoKey) (dek : List ℕ) (type : RecordType) (s : SessionKeys P)
      (p : PendingSubkey P)
      → looked_up P o dek type s ≡ derives p
      → HasRead type (some dek) p
  looked_up-HasRead (some key) dek type s p h = absurd (cc)
  looked_up-HasRead none dek type s p h =
      let same : record { type = type; dek = dek; subkeys = s.subkeys } ≡ p = cc in
      subst (HasRead type (some dek)) same (refl, refl)

  look_of-HasRead :
      (b : Bool) (o : Option (List ℕ)) (type : RecordType) (s : SessionKeys P) (p : PendingSubkey P)
      → look_of P b o type s ≡ ok (derives p)
      → HasRead type o p
  look_of-HasRead false (some dek) type s p h =
      looked_up-HasRead (cached_key P type s.subkeys) dek type s p (ok-injective _ _ h)
  look_of-HasRead false none type s p h = absurd (cc)
  look_of-HasRead true o type s p h = absurd (cc)

  begin_subkey-HasRead :
      (s : SessionKeys P) (type : RecordType) (p : PendingSubkey P)
      → begin_subkey P type s ≡ ok (derives p)
      → HasRead type s.raw_dek p
  unfolding begin_subkey
  begin_subkey-HasRead s type p h = look_of-HasRead s.locked s.raw_dek type s p h

  finish_subkey-eq_ok :
      (p : PendingSubkey P) (key : CryptoKey) (s : SessionKeys P)
      → derive_subkey P p.dek p.type ≡ ok key
      → finish_subkey P p s ≡ ok (key, record s { subkeys = (p.type, key) ∷ p.subkeys })
  unfolding finish_subkey
  finish_subkey-eq_ok p key s derived = rw derived refl

  cached_key-first :
      (type : RecordType) (key : CryptoKey) (keys : List (RecordType × CryptoKey))
      → cached_key P type ((type, key) ∷ keys) ≡ some key
  unfolding cached_key
  cached_key-first type key keys = rw (same_type_refl type) refl

  get_subkey-cached :
      (s : SessionKeys P) (type : RecordType) (dek : List ℕ) (key : CryptoKey)
      → s.locked ≡ false
      → s.raw_dek ≡ some dek
      → cached_key P type s.subkeys ≡ some key
      → get_subkey P type s ≡ ok (key, s)
  unfolding get_subkey begin_subkey
  get_subkey-cached s type dek key open_now has cached = rw (open_now, has, cached) refl

  -- A call of `getSubkey` that derives a subkey of the data key of the store writes it whatever has come
  -- of the store meanwhile: ended after a lock, it leaves the subkey in the locked store; ended on an
  -- unlocked store, with whatever data key, it leaves it in the cache of that session, and `getSubkey`
  -- answers with it there.
  pub finish_subkey-late :
      (s u : SessionKeys P) (type : RecordType) (p : PendingSubkey P) (key : CryptoKey)
      (dek : List ℕ)
      → begin_subkey P type s ≡ ok (derives p)
      → derive_subkey P p.dek type ≡ ok key
      → u.locked ≡ false
      → u.raw_dek ≡ some dek
      → (s.raw_dek ≡ some p.dek)
        × ((left : SessionKeys P) × (finish_subkey P p (lock P s) ≡ ok (key, left))
            × (left.locked ≡ true)
            × (cached_key P type left.subkeys ≡ some key))
        × ((stale : SessionKeys P) × (finish_subkey P p u ≡ ok (key, stale))
            × (stale.raw_dek ≡ some dek)
            × (get_subkey P type stale ≡ ok (key, stale)))
  unfolding lock
  finish_subkey-late s u type p key dek asks derived open_now has =
      let (asked, read) = begin_subkey-HasRead s type p asks in
      let derived' : derive_subkey P p.dek p.type ≡ ok key = rw asked derived in
      let cached : cached_key P type ((p.type, key) ∷ p.subkeys) ≡ some key =
        rw asked (cached_key-first type key p.subkeys) in
      let stale : SessionKeys P = record u { subkeys = (p.type, key) ∷ p.subkeys } in
      (
        read,
        (
          record (lock P s) { subkeys = (p.type, key) ∷ p.subkeys },
          finish_subkey-eq_ok p key (lock P s) derived',
          refl,
          cached,
        ),
        (
          stale,
          finish_subkey-eq_ok p key u derived',
          has,
          get_subkey-cached stale type dek key open_now has cached,
        ),
      )
