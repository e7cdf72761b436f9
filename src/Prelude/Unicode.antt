-- ===== src/Prelude/Unicode.antt =====
-- Surrogates: `TextEncoder` writes U+FFFD for a lone one, so only well-formed texts round-trip.
use Prim.Native.Nat.{ℕ}
use mathlib.Core.Path.{◌≡◌}
use mathlib.Core.Bool.{Bool, true, false, ◌&&◌}
use mathlib.Core.List.{[], ◌∷◌, ◌++◌}
use native.Mathlib.Omega.{arith}
use fincrypt.Prelude.Tests.{leb, if◌then◌else◌}
use fincrypt.Prelude.Text.{Str}

unfoldable pub is_high_surrogate : ℕ → Bool
is_high_surrogate c = leb 0xd800 c && leb c 0xdbff

unfoldable pub is_low_surrogate : ℕ → Bool
is_low_surrogate c = leb 0xdc00 c && leb c 0xdfff

-- The flag says that a high surrogate waits for its low one.
unfoldable pub is_well_formed_from : Bool → Str → Bool
is_well_formed_from false [] = true
is_well_formed_from true [] = false
is_well_formed_from false (c ∷ s) =
    if is_low_surrogate c then false else is_well_formed_from (is_high_surrogate c) s
is_well_formed_from true (c ∷ s) = if is_low_surrogate c then is_well_formed_from false s else false

-- `s.isWellFormed()`
unfoldable pub is_well_formed : Str → Bool
unfolding is_well_formed_from is_high_surrogate is_low_surrogate
is_well_formed s = is_well_formed_from false s

is_well_formed_from-append :
    (waits : Bool) (s t : Str)
    → is_well_formed_from waits s ≡ true
    → is_well_formed_from false t ≡ true
    → is_well_formed_from waits (s ++ t) ≡ true
unfolding is_well_formed_from
is_well_formed_from-append false [] t h k = k
is_well_formed_from-append true [] t h k = cc
is_well_formed_from-append false (c ∷ s) t h k =
    ground (arith, is_well_formed_from-append (is_high_surrogate c) s t)
is_well_formed_from-append true (c ∷ s) t h k = ground (arith, is_well_formed_from-append false s t)

pub is_well_formed-append :
    (s t : Str) → is_well_formed s ≡ true → is_well_formed t ≡ true → is_well_formed (s ++ t) ≡ true
unfolding is_well_formed
is_well_formed-append s t h k = is_well_formed_from-append false s t h k
