-- ===== src/Stores/SessionKeys/Calls.antt =====
-- web/src/stores/sessionKeys.ts.
-- Calls of `getSubkey` that overlap, and the other calls between them.
use fincrypt.Prelude.{
  ◌++◌, subst, ◌≡◌, refl, sym, ap, ◌∙◌, inl, inr, Bool, true, false, Option, none, some, List, [],
  ◌∷◌, Str, All, ℕ,
}
use fincrypt.Crypto.Errors.{Fault, ok-injective, Result, ok, err, ◌>>=◌, >>=-eq_ok, Result-cases}
use fincrypt.Crypto.Platform.{Platform}
use fincrypt.Crypto.Aead.{RecordType}
use fincrypt.Crypto.KeyHierarchy.{derive_subkey}
use fincrypt.Stores.SessionKeys.{
  SessionKeys, PassphraseArgs, initial, unlock_with_passphrase, unlock_with_recovery, cached_key,
  locked_error, get_subkey, lock, PendingSubkey, derives, looked_up, look_of, begin_subkey,
  finish_subkey, resume,
}
use fincrypt.Stores.SessionKeys.Subkeys.{
  AreOf, HoldsKeys, IsSound, cached_key-AreOf, initial-IsSound, passphrase-IsSound,
  recovery-IsSound,
}

All-remove {ℓ κ} :
    {A : Type ℓ} (Q : A → Type κ) (x : A) (before after : List A)
    → All Q (before ++ x ∷ after)
    → Q x × All Q (before ++ after)
All-remove Q x [] after (here_now, rest) = (here_now, rest)
All-remove Q x (y ∷ before) after (first, rest) =
    let (its, others) = All-remove Q x before after rest in (its, (first, others))

module _ (P : Platform) where
  open P use {CryptoKey}

  -- The keystore, and the calls of `getSubkey` that wait for `deriveSubkey`.
  pub record Keystore : Type 0 where
    pub store : SessionKeys P
    pub waiting : List (PendingSubkey P)

  abbrev pub at_rest : SessionKeys P → Keystore
  at_rest s = record { store = s; waiting = [] }

  -- The calls, from one store to the next. Those of `getSubkey` overlap in every way, but unlocks set
  -- the store, and locks run, while none of them waits.
  pub data Step : Keystore → Keystore → Type 0 where
    passphrase :
        {s t : SessionKeys P} (worker : Bool) (args : PassphraseArgs P)
        → unlock_with_passphrase P worker args s ≡ ok t
        → Step (at_rest s) (at_rest t)
    recovery :
        {s t : SessionKeys P} (mnemonic user : Str) (w : List ℕ)
        → unlock_with_recovery P mnemonic user w s ≡ ok t
        → Step (at_rest s) (at_rest t)
    locks : (s : SessionKeys P) → Step (at_rest s) (at_rest (lock P s))
    asks :
        (k : Keystore) (type : RecordType) (p : PendingSubkey P)
        → begin_subkey P type k.store ≡ ok (derives p)
        → Step k (record k { waiting = p ∷ k.waiting })
    answers :
        (s t : SessionKeys P) (p : PendingSubkey P) (key : CryptoKey)
        (before after : List (PendingSubkey P))
        → finish_subkey P p s ≡ ok (key, t)
        → Step
            (record { store = s; waiting = before ++ p ∷ after })
            (record { store = t; waiting = before ++ after })
    throws :
        (s : SessionKeys P) (p : PendingSubkey P) (e : Fault)
        (before after : List (PendingSubkey P))
        → finish_subkey P p s ≡ err e
        → Step
            (record { store = s; waiting = before ++ p ∷ after })
            (record { store = s; waiting = before ++ after })

  pub data Reach : Keystore → Type 0 where
    here : Reach (at_rest (initial P))
    next : {k l : Keystore} → Reach k → Step k l → Reach l

  -- What a waiting call has read is of the data key that the store holds.
  abbrev IsOf : Bool → Option (List ℕ) → PendingSubkey P → Type 0
  IsOf locked dek p = (locked ≡ false) × (dek ≡ some p.dek) × AreOf P p.dek p.subkeys

  abbrev WaitsSoundly : Keystore → Type 0
  WaitsSoundly k = IsSound P k.store × All (IsOf k.store.locked k.store.raw_dek) k.waiting

  finish_subkey-inverse :
      (p : PendingSubkey P) (s t : SessionKeys P) (key : CryptoKey)
      → finish_subkey P p s ≡ ok (key, t)
      → (derive_subkey P p.dek p.type ≡ ok key)
        × (record s { subkeys = (p.type, key) ∷ p.subkeys } ≡ t)
  unfolding finish_subkey
  finish_subkey-inverse p s t key h =
      let (k, derived, h₁) = >>=-eq_ok (derive_subkey P p.dek p.type) _ h in
      let both = ok-injective (k, record s { subkeys = (p.type, k) ∷ p.subkeys }) (key, t) h₁ in
      let same : k ≡ key = ap (λ (x : CryptoKey × SessionKeys P). x.0) both in
      (
        derived ∙ ap ok same,
        ap (λ (x : CryptoKey). record s { subkeys = (p.type, x) ∷ p.subkeys }) (sym same)
            ∙ ap (λ (x : CryptoKey × SessionKeys P). x.1) both,
      )

  looked_up-IsOf :
      (o : Option CryptoKey) (dek : List ℕ) (type : RecordType) (s : SessionKeys P)
      (p : PendingSubkey P)
      → AreOf P dek s.subkeys
      → looked_up P o dek type s ≡ derives p
      → IsOf false (some dek) p
  looked_up-IsOf (some key) dek type s p keys h = absurd (cc)
  looked_up-IsOf none dek type s p keys h =
      let same : record { type = type; dek = dek; subkeys = s.subkeys } ≡ p = cc in
      subst (IsOf false (some dek)) same (refl, refl, keys)

  look_of-IsOf :
      (b : Bool) (o : Option (List ℕ)) (type : RecordType) (s : SessionKeys P) (p : PendingSubkey P)
      → HoldsKeys P b o s.subkeys
      → look_of P b o type s ≡ ok (derives p)
      → IsOf b o p
  look_of-IsOf false (some dek) type s p keys h =
      looked_up-IsOf (cached_key P type s.subkeys) dek type s p keys (ok-injective _ _ h)
  look_of-IsOf false none type s p keys h = absurd (cc)
  look_of-IsOf true o type s p keys h = absurd (cc)

  begin_subkey-IsOf :
      (s : SessionKeys P) (type : RecordType) (p : PendingSubkey P)
      → IsSound P s
      → begin_subkey P type s ≡ ok (derives p)
      → IsOf s.locked s.raw_dek p
  unfolding begin_subkey
  begin_subkey-IsOf s type p sound h = look_of-IsOf s.locked s.raw_dek type s p sound.holds h

  finish_subkey-WaitsSoundly :
      (p : PendingSubkey P) (s t : SessionKeys P) (key : CryptoKey) (rest : List (PendingSubkey P))
      → IsOf s.locked s.raw_dek p
      → All (IsOf s.locked s.raw_dek) rest
      → finish_subkey P p s ≡ ok (key, t)
      → WaitsSoundly (record { store = t; waiting = rest })
  finish_subkey-WaitsSoundly p s t key rest (open_now, has, keys) others h =
      let (derived, made) = finish_subkey-inverse p s t key h in
      subst (λ (x : SessionKeys P). WaitsSoundly (record { store = x; waiting = rest })) made
        (record { holds = rw (open_now, has) (derived, keys) }, others)

  lock-IsSound : (s : SessionKeys P) → IsSound P (lock P s)
  unfolding lock
  lock-IsSound s = record { holds = tt }

  Step-WaitsSoundly : {k l : Keystore} → Step k l → WaitsSoundly k → WaitsSoundly l
  Step-WaitsSoundly (passphrase {s} {t} worker args h) sound =
      (passphrase-IsSound P s t worker args h, tt)
  Step-WaitsSoundly (recovery {s} {t} mnemonic user w h) sound =
      (recovery-IsSound P s t mnemonic user w h, tt)
  Step-WaitsSoundly (locks s) sound = (lock-IsSound s, tt)
  Step-WaitsSoundly (asks k type p h) (sound, waits) =
      (sound, (begin_subkey-IsOf k.store type p sound h, waits))
  Step-WaitsSoundly (answers s t p key before after h) (sound, waits) =
      let (its, others) = All-remove _ p before after waits in
      finish_subkey-WaitsSoundly p s t key (before ++ after) its others h
  Step-WaitsSoundly (throws s p e before after h) (sound, waits) =
      (sound, (All-remove _ p before after waits).1)

  Reach-WaitsSoundly : {k : Keystore} → Reach k → WaitsSoundly k
  Reach-WaitsSoundly here = (initial-IsSound P, tt)
  Reach-WaitsSoundly (next r st) = Step-WaitsSoundly st (Reach-WaitsSoundly r)

  -- What `getSubkey` answers if nothing is cached.
  abbrev pub uncached : Bool → Option (List ℕ) → RecordType → Result CryptoKey
  uncached false (some dek) type = derive_subkey P dek type
  uncached _ _ type = err (locked_error P)

  transparent_of_cache :
      (o : Option CryptoKey) (dek : List ℕ) (type : RecordType) (s : SessionKeys P)
      → cached_key P type s.subkeys ≡ o
      → AreOf P dek s.subkeys
      → ((resume P (looked_up P o dek type s) s) >>= λ r. ok r.0) ≡ derive_subkey P dek type
  unfolding finish_subkey
  transparent_of_cache (some key) dek type s found keys =
      sym (cached_key-AreOf P dek type s.subkeys key keys found)
  transparent_of_cache none dek type s found keys = elim (Result-cases (derive_subkey P dek type)) [
    | inl (key, derived) ↦ rw derived refl
    | inr (e, failed) ↦ rw failed refl
  ]

  transparent_of :
      (b : Bool) (o : Option (List ℕ)) (type : RecordType) (s : SessionKeys P)
      → HoldsKeys P b o s.subkeys
      → ((look_of P b o type s >>= λ look. resume P look s) >>= λ r. ok r.0) ≡ uncached b o type
  transparent_of false (some dek) type s keys =
      transparent_of_cache (cached_key P type s.subkeys) dek type s refl keys
  transparent_of false none type s keys = refl
  transparent_of true o type s keys = refl

  -- After any run of unlocks, locks and calls of `getSubkey` in which those calls may overlap each
  -- other, but no lock and no setting of the store by an unlock comes between a call's look into the
  -- store and the end of its `await`: `getSubkey`, run to its end, answers as if nothing were cached.
  -- It throws while the store is locked, and gives the subkey that `deriveSubkey` derives from the
  -- present data key while it is unlocked, never one of an earlier key. A locked store holds no data
  -- key and no subkey.
  pub get_subkey_transparent :
      (k : Keystore) (type : RecordType)
      → Reach k
      → ((get_subkey P type k.store >>= λ r. ok r.0) ≡ uncached k.store.locked k.store.raw_dek type)
        × HoldsKeys P k.store.locked k.store.raw_dek k.store.subkeys
  unfolding get_subkey begin_subkey
  get_subkey_transparent k type run =
      let (sound, _) = Reach-WaitsSoundly run in
      (transparent_of k.store.locked k.store.raw_dek type k.store sound.holds, sound.holds)
