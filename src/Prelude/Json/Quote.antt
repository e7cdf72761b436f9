-- ===== src/Prelude/Json/Quote.antt =====
-- `JSON.stringify` of a text, and the string literals that `JSON.parse` reads.
pub mod RoundTrip
pub mod WellFormed
use Prim.Native.Nat.{ℕ, zero, suc, ◌+◌, ◌-◌, ◌*◌, ◌/◌, ◌%◌, ◌<◌}
use mathlib.Core.Path.{◌∙◌, ◌≡◌, refl, ap}
use mathlib.Core.Logic.{inl, inr}
use mathlib.Core.Bool.{Bool, true, false, not, ◌&&◌, ◌||◌}
use mathlib.Core.Option.{Option, none, some}
use mathlib.Core.List.{[], ◌∷◌, ◌++◌, append_assoc}
use native.Mathlib.Omega.{arith}
use fincrypt.Prelude.Tests.{ltb, leb, ◌==◌, if◌then◌else◌, Bool-cases, ltb→lt}
use fincrypt.Prelude.Text.{Str}
use fincrypt.Prelude.Unicode.{is_high_surrogate, is_low_surrogate}

hex_digit : ℕ → ℕ
hex_digit d = if ltb d 10 then b'0' + d else 87 + d

abbrev unicode_escape : ℕ → Str
unicode_escape c =
    0x5c
    ∷ b'u'
    ∷ hex_digit (c / 4096)
    ∷ hex_digit (c / 256 % 16)
    ∷ hex_digit (c / 16 % 16)
    ∷ hex_digit (c % 16)
    ∷ []

control : ℕ → Str
control c =
    if c == 8
    then 0x5c ∷ b'b' ∷ []
    else if c == 9
    then 0x5c ∷ b't' ∷ []
    else if c == 10
    then 0x5c ∷ b'n' ∷ []
    else if c == 12
    then 0x5c ∷ b'f' ∷ []
    else if c == 13
    then 0x5c ∷ b'r' ∷ []
    else unicode_escape c

-- One code unit; a surrogate without its partner is escaped.
chunk : (after_high before_low : Bool) → ℕ → Str
chunk after_high before_low c =
    if c == 0x22 || c == 0x5c
    then 0x5c ∷ c ∷ []
    else if ltb c 32
    then control c
    else if is_high_surrogate c && not before_low || is_low_surrogate c && not after_high
    then unicode_escape c
    else c ∷ []

abbrev starts_low : Str → Bool
starts_low [] = false
starts_low (c ∷ s) = is_low_surrogate c

quoted_from : Bool → Str → Str
quoted_from after_high [] = []
quoted_from after_high (c ∷ s) =
    chunk after_high (starts_low s) c ++ quoted_from (is_high_surrogate c) s

unfoldable pub quoted : Str → Str
unfolding quoted_from chunk control hex_digit
quoted s = 0x22 ∷ (quoted_from false s ++ 0x22 ∷ [])

-- Inside a literal: at a unit as it is, after a backslash, or before the last hex digits of an escape.
pub data State : Type 0 where
  plain : State
  escaped : State
  hex : (value more : ℕ) → State

pub data Move : Type 0 where
  stop : Move
  fail : Move
  emit : ℕ → Move
  go : State → Move

digit_of : ℕ → Option ℕ
digit_of c =
    if leb b'0' c && leb c b'9'
    then some (c - b'0')
    else if leb b'a' c && leb c b'f'
    then some (c - 87)
    else if leb b'A' c && leb c b'F'
    then some (c - 55)
    else none

unescaped : ℕ → Move
unescaped c =
    if c == 0x22 || c == 0x5c || c == b'/'
    then emit c
    else if c == b'b'
    then emit 8
    else if c == b't'
    then emit 9
    else if c == b'n'
    then emit 10
    else if c == b'f'
    then emit 12
    else if c == b'r'
    then emit 13
    else if c == b'u'
    then go (hex 0 3)
    else fail

abbrev take_digit : (value more : ℕ) → Option ℕ → Move
take_digit value more none = fail
take_digit value zero (some d) = emit (value * 16 + d)
take_digit value (suc more) (some d) = go (hex (value * 16 + d) more)

move_at : State → ℕ → Move
move_at plain c =
    if c == 0x22 then stop else if c == 0x5c then go escaped else if ltb c 32 then fail else emit c
move_at escaped c = unescaped c
move_at (hex value more) c = take_digit value more (digit_of c)

abbrev state_after : Move → State
state_after (go state) = state
state_after _ = plain

abbrev with_unit : ℕ → Option (Str × Str) → Option (Str × Str)
with_unit c none = none
with_unit c (some (s, t)) = some (c ∷ s, t)

abbrev continue : Move → Str → Option (Str × Str) → Option (Str × Str)
continue stop t rest = some ([], t)
continue fail t rest = none
continue (emit c) t rest = with_unit c rest
continue (go _) t rest = rest

-- The text of a literal after its opening quote, and what follows its closing one.
unfoldable pub read_text : State → Str → Option (Str × Str)
unfolding move_at unescaped digit_of
read_text state [] = none
read_text state (c ∷ s) =
    let move = move_at state c in let rest = read_text (state_after move) s in continue move s rest
