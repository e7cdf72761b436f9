-- ===== src/Prelude/Json/Number.antt =====
-- The numbers that `JSON.parse` reads: an integral one is an `int`, however it is spelled, and another
-- keeps its spelling.
pub mod Printed
use Prim.Native.Nat.{ℕ, zero, suc, ◌+◌, ◌-◌, ◌*◌, ◌/◌, ◌%◌, ◌^◌, ◌<◌, ◌≤◌}
use mathlib.Core.Path.{sym, ◌≡◌, refl, ap, ◌∙◌}
use mathlib.Core.Logic.{inl, inr}
use mathlib.Core.Bool.{Bool, true, false, not, ◌&&◌, ◌||◌}
use mathlib.Core.Option.{Option, none, some}
use mathlib.Core.List.{[], ◌∷◌, ◌++◌}
use native.Mathlib.Omega.{arith}
use fincrypt.Prelude.Tests.{ltb, leb, ◌==◌, if◌then◌else◌, Bool-cases, ltb→lt}
use fincrypt.Prelude.Lists.{length, take}
use fincrypt.Prelude.Text.{Str, codes}
use fincrypt.Prelude.Int.{ℤ, pos, negsuc, neg}
use fincrypt.Prelude.Decimal.{decimal, decimal_from, decimal_ℤ, decimal_append}
use fincrypt.Prelude.Json.{Json, int, fraction}

abbrev pub is_digit : ℕ → Bool
is_digit c = leb b'0' c && leb c b'9'

-- The value of digits after those that gave `n`, how many they are, and what follows.
read_digits : (n : ℕ) → Str → ℕ × ℕ × Str
read_digits n [] = (n, 0, [])
read_digits n (c ∷ s) =
    let (value, count, rest) = read_digits (n * 10 + (c - b'0')) s in
    if is_digit c then (value, 1 + count, rest) else (n, 0, c ∷ s)

abbrev leads_zero : Str → Bool
leads_zero [] = false
leads_zero (c ∷ s) = c == b'0'

abbrev signed : (negative : Bool) → ℕ → ℤ
signed true n = neg (pos n)
signed false n = pos n

-- ± value * 10^up / 10^down
abbrev scaled : (negative : Bool) (value up down : ℕ) (spelling : Str) → Json
scaled negative value up down spelling =
    if leb down up
    then int (signed negative (value * 10 ^ (up - down)))
    else if value % 10 ^ (down - up) == 0
    then int (signed negative (value / 10 ^ (down - up)))
    else fraction spelling

abbrev spelled : (start rest : Str) → Str
spelled start rest = take (length start - length rest) start

exponent : (negative up : Bool) (start : Str) (value places : ℕ) → Str → Option (Json × Str)
unfolding read_digits
exponent negative up start value places s =
    let (power, count, rest) = read_digits 0 s in
    if count == 0
    then none
    else if up
    then some (scaled negative value power places (spelled start rest), rest)
    else some (scaled negative value 0 (places + power) (spelled start rest), rest)

signed_exponent : (negative : Bool) (start : Str) (value places : ℕ) → Str → Option (Json × Str)
signed_exponent negative start value places [] = none
signed_exponent negative start value places (c ∷ s) =
    if c == b'-'
    then exponent negative false start value places s
    else if c == b'+'
    then exponent negative true start value places s
    else exponent negative true start value places (c ∷ s)

after_places : (negative : Bool) (start : Str) (value places : ℕ) → Str → Option (Json × Str)
after_places negative start value places [] =
    some (scaled negative value 0 places (spelled start []), [])
after_places negative start value places (c ∷ s) =
    if c == b'e' || c == b'E'
    then signed_exponent negative start value places s
    else some (scaled negative value 0 places (spelled start (c ∷ s)), c ∷ s)

places_of : (negative : Bool) (start : Str) → ℕ × ℕ × Str → Option (Json × Str)
places_of negative start (value, places, rest) =
    if places == 0 then none else after_places negative start value places rest

after_whole : (negative : Bool) (start : Str) (value : ℕ) → Str → Option (Json × Str)
unfolding read_digits
after_whole negative start value [] = after_places negative start value 0 []
after_whole negative start value (c ∷ s) =
    if c == b'.'
    then places_of negative start (read_digits value s)
    else after_places negative start value 0 (c ∷ s)

unsigned_of : (negative leading : Bool) (start : Str) → ℕ × ℕ × Str → Option (Json × Str)
unsigned_of negative leading start (value, count, rest) =
    if count == 0 || leading && ltb 1 count then none else after_whole negative start value rest

-- A number at the start of a text, and what follows it.
unfoldable pub read_number : Str → Option (Json × Str)
unfolding read_digits unsigned_of after_whole places_of after_places signed_exponent exponent
read_number [] = none
read_number (c ∷ s) =
    if c == b'-'
    then unsigned_of true (leads_zero s) (c ∷ s) (read_digits 0 s)
    else unsigned_of false (c == b'0') (c ∷ s) (read_digits 0 (c ∷ s))

-- What may follow a number without being part of it.
abbrev pub is_after_number : Str → Bool
is_after_number [] = true
is_after_number (c ∷ s) = not (is_digit c || c == b'.' || c == b'e' || c == b'E')
