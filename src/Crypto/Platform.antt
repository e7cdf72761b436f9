-- ===== src/Crypto/Platform.antt =====
-- What the crypto modules call and do not implement: WebCrypto's AES-GCM, `TextEncoder`, Unicode
-- normalisation, and the packages @noble/hashes, hash-wasm and @scure/bip39. They are a parameter
-- of the model, with the documented facts that the code relies on.
use fincrypt.Prelude.{ℕ, ◌+◌, ◌<◌, ◌≡◌, Option, some, List, Bool, true, Str, length, is_well_formed}
use fincrypt.Crypto.Errors.{Fault, Result, ok}

pub record Platform : Type 1 where
  -- crypto.subtle: a key is opaque, its raw bytes do not come back out
  pub CryptoKey : Type 0
  pub import_key : List ℕ → CryptoKey
  -- AES-GCM with a 128-bit tag: key, nonce, additional data and text give ciphertext and tag
  pub gcm_seal : CryptoKey → List ℕ → List ℕ → List ℕ → List ℕ
  -- `none` is the rejection with an OperationError
  pub gcm_open : CryptoKey → List ℕ → List ℕ → List ℕ → Option (List ℕ)
  pub length-gcm_seal : (k : CryptoKey) (n a p : List ℕ) → length (gcm_seal k n a p) ≡ length p + 16
  pub gcm_open-gcm_seal :
      (k : CryptoKey) (n a p : List ℕ) → gcm_open k n a (gcm_seal k n a p) ≡ some p
  -- the tag is checked: what opens is what sealing gives
  pub gcm_open_sound :
      (k : CryptoKey) (n a c p : List ℕ) → gcm_open k n a c ≡ some p → c ≡ gcm_seal k n a p
  -- new TextEncoder().encode(s)
  pub utf8 : Str → List ℕ
  pub utf8_injective :
      (s t : Str) → is_well_formed s ≡ true → is_well_formed t ≡ true → utf8 s ≡ utf8 t → s ≡ t
  pub utf8_nonempty : (s : Str) → 0 < length s → 0 < length (utf8 s)
  -- s.normalize('NFKD') and s.toLowerCase()
  pub nfkd : Str → Str
  pub to_lower : Str → Str
  -- @noble/hashes: hkdf(sha256, ikm, salt, info, length in bytes)
  pub hkdf_sha256 : List ℕ → List ℕ → List ℕ → ℕ → List ℕ
  pub length-hkdf_sha256 :
      (ikm salt info : List ℕ) (n : ℕ) → length (hkdf_sha256 ikm salt info n) ≡ n
  -- hash-wasm: password, salt, iterations, parallelism, memorySize; 32 bytes, or it throws
  pub argon2id : List ℕ → List ℕ → ℕ → ℕ → ℕ → Result (List ℕ)
  pub length-argon2id :
      (pass salt : List ℕ) (t p m : ℕ) (bytes : List ℕ)
      → argon2id pass salt t p m ≡ ok bytes
      → length bytes ≡ 32
  -- what hash-wasm throws where a cost is no natural number
  pub argon2id_rejects : Fault
  -- @scure/bip39 over the English word list; `none` where `validateMnemonic` throws
  pub validate_mnemonic : Str → Option Bool
  pub mnemonic_to_seed : Str → List ℕ

-- The assumption under which an authenticated ciphertext names its key and its additional data:
-- no two keys and no two additional data give one ciphertext.
pub record IsBinding (P : Platform) : Type 0 where
  pub same_key :
      (k k' : P.CryptoKey) (n a a' p p' : List ℕ)
      → P.gcm_seal k n a p ≡ P.gcm_seal k' n a' p'
      → k ≡ k'
  pub same_aad :
      (k k' : P.CryptoKey) (n a a' p p' : List ℕ)
      → P.gcm_seal k n a p ≡ P.gcm_seal k' n a' p'
      → a ≡ a'
