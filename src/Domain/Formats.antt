-- ===== src/Domain/Formats.antt =====
-- What the data layer calls and the repository does not hold, beyond the crypto platform:
-- `TextDecoder`, `btoa` and `atob`.
use fincrypt.Prelude.{false, includes, ◌≡◌, List, ℕ, Str, true, is_well_formed}
use fincrypt.Crypto.Errors.{Result, ok}
use fincrypt.Crypto.Platform.{Platform}

pub record Formats (P : Platform) : Type 1 where
  -- new TextDecoder().decode(bytes)
  pub utf8_decode : List ℕ → Str
  pub utf8_decode-utf8 : (s : Str) → is_well_formed s ≡ true → utf8_decode (P.utf8 s) ≡ s
  -- `btoa` throws at a code above 255
  pub btoa : Str → Result Str
  pub atob : Str → Result Str
  pub atob-btoa : (s b : Str) → btoa s ≡ ok b → atob b ≡ ok s
  pub includes-btoa :
      (s b : Str) → btoa s ≡ ok b → (includes b'-' b ≡ false) × (includes b'_' b ≡ false)
