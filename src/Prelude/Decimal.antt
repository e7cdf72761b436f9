-- ===== src/Prelude/Decimal.antt =====
-- Numbers as texts.
use Prim.Native.Nat.{ℕ, zero, suc, ◌+◌, ◌/◌, ◌%◌}
use mathlib.Core.Path.{◌≡◌, refl}
use native.Mathlib.Omega.{arith}
use mathlib.Core.List.{[], ◌∷◌, ◌++◌}
use fincrypt.Prelude.Tests.{ltb, if◌then◌else◌}
use fincrypt.Prelude.Text.{Str, codes}
use fincrypt.Prelude.Int.{ℤ, pos, negsuc}

-- The digits of a number, as `JSON.stringify` and a template write it; the fuel is more than its digits.
unfoldable pub decimal_from : ℕ → ℕ → Str → Str
decimal_from zero n acc = acc
decimal_from (suc fuel) n acc =
    let rest = decimal_from fuel (n / 10) ((b'0' + n % 10) ∷ acc) in
    if ltb n 10 then (b'0' + n) ∷ acc else rest

unfoldable pub decimal : ℕ → Str
unfolding decimal_from
decimal n = decimal_from (suc n) n []

abbrev pub decimal_ℤ : ℤ → Str
decimal_ℤ (pos n) = decimal n
decimal_ℤ (negsuc n) = codes "-" ++ decimal (suc n)

decimal_from-append :
    (fuel n : ℕ) (s t : Str) → decimal_from fuel n s ++ t ≡ decimal_from fuel n (s ++ t)
unfolding decimal_from
decimal_from-append zero n s t = refl
decimal_from-append (suc fuel) n s t =
    ground (arith, decimal_from-append fuel (n / 10) ((b'0' + n % 10) ∷ s) t)

pub decimal_append : (n : ℕ) (t : Str) → decimal n ++ t ≡ decimal_from (suc n) n t
unfolding decimal
decimal_append n t = decimal_from-append (suc n) n [] t
