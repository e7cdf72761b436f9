-- ===== src/Stores/Tests.antt =====
-- Runs of the session keystore on a concrete platform.
use fincrypt.Prelude.{
  [], true, false, str_eq, trim, words, join, ℕ, ◌≡◌, refl, some, List, Str, codes,
}
use fincrypt.Crypto.Aead.{decrypt_bytes, encrypt_bytes, import_aes_key, chat}
use fincrypt.Crypto.KeyHierarchy.{wrap_with_recovery, unwrap_with_recovery, hkdf_bits}
use fincrypt.Crypto.Recovery.{
  normalize_phrase, validate_recovery_phrase, derive_recovery_kek, recover_dek,
  wrap_dek_with_recovery,
}
use fincrypt.Crypto.Errors.{Result, ok, err, ◌>>=◌}
use fincrypt.Crypto.Toy.{toy}
use fincrypt.Crypto.Tests.{nonce_1, dek_1, returned}
use fincrypt.Crypto.KeyHierarchy.{derive_subkey}
use fincrypt.Crypto.Tests.Phrases.{key_of}
use fincrypt.Stores.SessionKeys.{
  SessionKeys, initial, unlock_with_recovery, get_subkey, lock, PendingSubkey, begin_subkey,
  finish_subkey, cached_key,
}
use fincrypt.Stores.SessionKeys.Subkeys.{HoldsKeys}
use fincrypt.Stores.SessionKeys.Calls.{
  Reach, at_rest, uncached, get_subkey_transparent, here, next, recovery,
}
use fincrypt.Stores.SessionKeys.Interrupted.{finish_subkey-late}

abbrev pub phrase : Str
phrase = codes "zoo zone"

abbrev pub recovery_wrap : List ℕ
recovery_wrap = returned (wrap_dek_with_recovery toy nonce_1 dek_1 phrase (codes "anna"))

abbrev store_of : Result (SessionKeys toy) → SessionKeys toy
store_of (ok s) = s
store_of (err e) = initial toy

abbrev unlocked : SessionKeys toy
unlocked = store_of (unlock_with_recovery toy phrase (codes "anna") recovery_wrap (initial toy))

unlocked-Reach : Reach toy (at_rest toy unlocked)
unfolding toy unlock_with_recovery recover_dek derive_recovery_kek validate_recovery_phrase
    normalize_phrase join words trim hkdf_bits import_aes_key unwrap_with_recovery
    wrap_dek_with_recovery wrap_with_recovery encrypt_bytes decrypt_bytes str_eq
unlocked-Reach =
    next here (recovery {s = initial toy} {t = unlocked} phrase (codes "anna") recovery_wrap refl)

get_subkey_transparent_example :
    ((get_subkey toy chat unlocked >>= λ r. ok r.0)
      ≡ uncached toy unlocked.locked unlocked.raw_dek chat)
    × HoldsKeys toy unlocked.locked unlocked.raw_dek unlocked.subkeys
get_subkey_transparent_example =
    get_subkey_transparent toy (at_rest toy unlocked) chat unlocked-Reach

-- A session, and one with another data key.
abbrev session : SessionKeys toy
session = record (initial toy) { locked = false; raw_dek = some dek_1 }

abbrev other_session : SessionKeys toy
other_session = record (initial toy) { locked = false; raw_dek = some nonce_1 }

abbrev waiting : PendingSubkey toy
waiting = record { type = chat; dek = dek_1; subkeys = [] }

abbrev chat_key : toy.CryptoKey
chat_key = key_of (derive_subkey toy dek_1 chat)

finish_subkey-late_example :
    (session.raw_dek ≡ some waiting.dek)
    × ((left : SessionKeys toy) × (finish_subkey toy waiting (lock toy session)
          ≡ ok (chat_key, left))
        × (left.locked ≡ true)
        × (cached_key toy chat left.subkeys ≡ some chat_key))
    × ((stale : SessionKeys toy) × (finish_subkey toy waiting other_session ≡ ok (chat_key, stale))
        × (stale.raw_dek ≡ some nonce_1)
        × (get_subkey toy chat stale ≡ ok (chat_key, stale)))
unfolding toy begin_subkey derive_subkey hkdf_bits import_aes_key initial
finish_subkey-late_example =
    finish_subkey-late toy session other_session chat waiting chat_key nonce_1 refl refl refl refl

-- The store that another user's session has left.
abbrev pub left_behind : SessionKeys toy
left_behind = record (initial toy) { record_user_id = some (codes "id-of-ben") }

abbrev pub unlocked_after : SessionKeys toy
unlocked_after =
    store_of (unlock_with_recovery toy phrase (codes "anna") recovery_wrap (lock toy left_behind))
