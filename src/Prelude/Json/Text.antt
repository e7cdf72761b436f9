-- ===== src/Prelude/Json/Text.antt =====
-- `JSON.stringify` and `JSON.parse`: the text of a value, and the value of a text. Numbers are not rounded
-- to floating point.
pub mod RoundTrip
pub mod WellFormed
use Prim.Native.Nat.{ℕ, zero, suc, ◌+◌}
use mathlib.Core.Bool.{Bool, true, false, ◌||◌}
use mathlib.Core.Option.{Option, none, some}
use mathlib.Core.List.{[], ◌∷◌, ◌++◌}
use fincrypt.Prelude.Tests.{◌==◌, if◌then◌else◌}
use fincrypt.Prelude.Lists.{length, drop}
use fincrypt.Prelude.Text.{Str, codes}
use fincrypt.Prelude.Split.{starts_with}
use fincrypt.Prelude.Decimal.{decimal_ℤ}
use fincrypt.Prelude.Json.{
  Json, null, bool, int, fraction, text, arr, obj, Items, nil, item, Fields, end, field,
}
use fincrypt.Prelude.Json.Quote.{quoted, read_text, plain}
use fincrypt.Prelude.Json.Number.{read_number, is_digit}

-- The elements and fields after the first come with a comma in front.
unfoldable mutual
  pub json_stringify : Json → Str
  json_stringify null = codes "null"
  json_stringify (bool true) = codes "true"
  json_stringify (bool false) = codes "false"
  json_stringify (int z) = decimal_ℤ z
  json_stringify (fraction s) = s
  json_stringify (text s) = quoted s
  json_stringify (arr nil) = codes "[]"
  json_stringify (arr (item v items)) = b'[' ∷ (json_stringify v ++ more_items_text items)
  json_stringify (obj end) = codes "{}"
  json_stringify (obj (field name v fields)) =
      b'{' ∷ (quoted name ++ b':' ∷ (json_stringify v ++ more_fields_text fields))

  more_items_text : Items → Str
  more_items_text nil = codes "]"
  more_items_text (item v items) = b',' ∷ (json_stringify v ++ more_items_text items)

  more_fields_text : Fields → Str
  more_fields_text end = codes "}"
  more_fields_text (field name v fields) =
      b',' ∷ (quoted name ++ b':' ∷ (json_stringify v ++ more_fields_text fields))

is_blank : ℕ → Bool
is_blank c = c == 0x20 || c == 9 || c == 10 || c == 13

skip : Str → Str
skip [] = []
skip (c ∷ s) = if is_blank c then skip s else c ∷ s

pub data Start : Type 0 where
  quote_mark : Start
  open_bracket : Start
  open_brace : Start
  digit : Start
  letter : Start

start_of : ℕ → Start
start_of c =
    if c == 0x22
    then quote_mark
    else if c == b'['
    then open_bracket
    else if c == b'{'
    then open_brace
    else if c == b'-' || is_digit c
    then digit
    else letter

-- true, false and null
literal : Str → Option (Json × Str)
literal s =
    if starts_with (codes "true") s
    then some (bool true, drop 4 s)
    else if starts_with (codes "false") s
    then some (bool false, drop 5 s)
    else if starts_with (codes "null") s
    then some (null, drop 4 s)
    else none

abbrev as_text : Option (Str × Str) → Option (Json × Str)
as_text none = none
as_text (some (s, t)) = some (text s, t)

abbrev as_arr : Option (Items × Str) → Option (Json × Str)
as_arr none = none
as_arr (some (items, t)) = some (arr items, t)

abbrev as_obj : Option (Fields × Str) → Option (Json × Str)
as_obj none = none
as_obj (some (fields, t)) = some (obj fields, t)

-- What reads a part of the text.
abbrev Reader : Type 0 → Type 0
Reader A = Str → Option (A × Str)

value_at : Reader Items → Reader Fields → Start → ℕ → Str → Option (Json × Str)
unfolding read_text
value_at items fields quote_mark c s = as_text (read_text plain s)
value_at items fields open_bracket c s = as_arr (items (skip s))
value_at items fields open_brace c s = as_obj (fields (skip s))
value_at items fields digit c s = read_number (c ∷ s)
value_at items fields letter c s = literal (c ∷ s)

value_of : Reader Items → Reader Fields → Str → Option (Json × Str)
value_of items fields [] = none
value_of items fields (c ∷ s) = value_at items fields (start_of c) c s

abbrev with_item : Json → Option (Items × Str) → Option (Items × Str)
with_item v none = none
with_item v (some (items, t)) = some (item v items, t)

abbrev item_then : Reader Items → Option (Json × Str) → Option (Items × Str)
item_then more none = none
item_then more (some (v, t)) = with_item v (more t)

open_items : Reader Json → Reader Items → Str → Option (Items × Str)
open_items value more [] = none
open_items value more (c ∷ s) =
    let filled = item_then more (value (c ∷ s)) in if c == b']' then some (nil, s) else filled

next_item : Reader Json → Reader Items → Str → Option (Items × Str)
next_item value more [] = none
next_item value more (c ∷ s) =
    let filled = item_then more (value s) in
    if c == b']' then some (nil, s) else if c == b',' then filled else none

abbrev with_field : Str → Json → Option (Fields × Str) → Option (Fields × Str)
with_field name v none = none
with_field name v (some (fields, t)) = some (field name v fields, t)

abbrev value_then : Str → Reader Fields → Option (Json × Str) → Option (Fields × Str)
value_then name more none = none
value_then name more (some (v, t)) = with_field name v (more t)

after_colon : Str → Reader Json → Reader Fields → Str → Option (Fields × Str)
after_colon name value more [] = none
after_colon name value more (c ∷ s) =
    let filled = value_then name more (value s) in if c == b':' then filled else none

abbrev after_name : Reader Json → Reader Fields → Option (Str × Str) → Option (Fields × Str)
after_name value more none = none
after_name value more (some (name, t)) = after_colon name value more (skip t)

member_of : Reader Json → Reader Fields → Str → Option (Fields × Str)
unfolding read_text
member_of value more [] = none
member_of value more (c ∷ s) =
    let filled = after_name value more (read_text plain s) in if c == 0x22 then filled else none

open_fields : Reader Json → Reader Fields → Str → Option (Fields × Str)
open_fields value more [] = none
open_fields value more (c ∷ s) =
    let filled = member_of value more (c ∷ s) in if c == b'}' then some (end, s) else filled

next_field : Reader Json → Reader Fields → Str → Option (Fields × Str)
next_field value more [] = none
next_field value more (c ∷ s) =
    let filled = member_of value more (skip s) in
    if c == b'}' then some (end, s) else if c == b',' then filled else none

-- Each call consumes a code unit, so the length of the text is fuel enough.
mutual
  unfolding value_of value_at start_of skip is_blank literal open_items next_item open_fields
      next_field member_of after_colon read_number

  read_value : ℕ → Str → Option (Json × Str)
  read_value zero s = none
  read_value (suc fuel) s =
      value_of (open_items (read_value fuel) (more_items fuel))
        (open_fields (read_value fuel) (more_fields fuel)) (skip s)

  more_items : ℕ → Str → Option (Items × Str)
  more_items zero s = none
  more_items (suc fuel) s = next_item (read_value fuel) (more_items fuel) (skip s)

  more_fields : ℕ → Str → Option (Fields × Str)
  more_fields zero s = none
  more_fields (suc fuel) s = next_field (read_value fuel) (more_fields fuel) (skip s)

abbrev ended : Option (Json × Str) → Option Json
ended none = none
ended (some (v, t)) = if length (skip t) == 0 then some v else none

-- `JSON.parse(s)`; `none` where it throws.
unfoldable pub json_value : Str → Option Json
unfolding read_value skip
json_value s = ended (read_value (length s + 1) s)
