-- ===== src/Prelude/Json/Text/RoundTrip.antt =====
-- `JSON.parse` after `JSON.stringify`.
use Prim.Native.Nat.{ℕ, zero, suc, ◌+◌, ◌≤◌, ◌<◌}
use mathlib.Core.Path.{◌≡◌, refl, ap, sym, ◌∙◌}
use mathlib.Core.Bool.{true, false, ◌||◌}
use mathlib.Core.Option.{some}
use mathlib.Core.List.{[], ◌∷◌, ◌++◌, append_assoc, append-nil}
use native.Mathlib.Omega.{arith}
use fincrypt.Prelude.Tests.{◌==◌}
use fincrypt.Prelude.Lists.{length, length-append}
use fincrypt.Prelude.Text.{Str}
use fincrypt.Prelude.Int.{ℤ}
use fincrypt.Prelude.Split.{starts_with}
use fincrypt.Prelude.Decimal.{decimal_ℤ}
use fincrypt.Prelude.Json.{
  Json, null, bool, int, fraction, text, arr, obj, Items, nil, item, Fields, end, field,
}
use fincrypt.Prelude.Json.Quote.{quoted}
use fincrypt.Prelude.Json.Quote.RoundTrip.{read_text-quoted}
use fincrypt.Prelude.Json.Number.{is_digit, is_after_number}
use fincrypt.Prelude.Json.Number.Printed.{read_number-decimal_ℤ}
use fincrypt.Prelude.Json.Text.{
  json_stringify, more_items_text, more_fields_text, read_value, more_items, more_fields,
  json_value, skip, value_of, value_at, start_of, open_items, open_fields, next_item, next_field,
  digit, is_blank, literal, Reader, item_then, with_item, member_of, after_colon, ended,
}

-- The values whose text is read as the value: all but numbers that keep a spelling.
unfoldable mutual
  pub IsKept : Json → Type 0
  IsKept null = Unit {0}
  IsKept (bool b) = Unit {0}
  IsKept (int z) = Unit {0}
  IsKept (fraction s) = ⊥
  IsKept (text s) = Unit {0}
  IsKept (arr items) = AreKept items
  IsKept (obj fields) = HoldKept fields

  pub AreKept : Items → Type 0
  AreKept nil = Unit {0}
  AreKept (item v items) = IsKept v × AreKept items

  pub HoldKept : Fields → Type 0
  HoldKept end = Unit {0}
  HoldKept (field name v fields) = IsKept v × HoldKept fields

skip-solid : (c : ℕ) (s : Str) → is_blank c ≡ false → skip (c ∷ s) ≡ c ∷ s
unfolding skip
skip-solid c s h = rw h refl

digit_solid : (c : ℕ) → (c == b'-' || is_digit c) ≡ true → is_blank c ≡ false
unfolding is_blank
digit_solid c h = ground arith

start_of-digit : (c : ℕ) → (c == b'-' || is_digit c) ≡ true → start_of c ≡ digit
unfolding start_of
start_of-digit c h = ground arith

read_int :
    (fuel : ℕ) (z : ℤ) (t : Str)
    → is_after_number t ≡ true
    → read_value (suc fuel) (decimal_ℤ z ++ t) ≡ some (int z, t)
unfolding read_value value_of value_at
read_int fuel z t h =
    let (c, s, leads, digits, reads) = read_number-decimal_ℤ z t h in
    rw (leads, skip-solid c s (digit_solid c digits), start_of-digit c digits) reads

read_quoted : (fuel : ℕ) (s t : Str) → read_value (suc fuel) (quoted s ++ t) ≡ some (text s, t)
unfolding read_value value_of value_at skip is_blank start_of
read_quoted fuel s t = let (r, opens, reads) = read_text-quoted s t in rw (opens, reads) refl

after-items : (items : Items) (t : Str) → is_after_number (more_items_text items ++ t) ≡ true
unfolding more_items_text
after-items nil t = refl
after-items (item v items) t = refl

after-fields : (fields : Fields) (t : Str) → is_after_number (more_fields_text fields ++ t) ≡ true
unfolding more_fields_text
after-fields end t = refl
after-fields (field name v fields) t = refl

item_then-printed :
    (v : Json) (items : Items) (t : Str) (value : Reader Json) (more : Reader Items)
    → value (json_stringify v ++ (more_items_text items ++ t))
      ≡ some (v, more_items_text items ++ t)
    → more (more_items_text items ++ t) ≡ some (items, t)
    → item_then more (value ((json_stringify v ++ more_items_text items) ++ t))
      ≡ some (item v items, t)
item_then-printed v items t value more reads follow =
    ap (λ x. item_then more (value x)) (append_assoc (json_stringify v) (more_items_text items) t)
    ∙ ap (item_then more) reads
    ∙ ap (with_item v) follow

member_of-printed :
    (name : Str) (v : Json) (fields : Fields) (t : Str) (value : Reader Json) (more : Reader Fields)
    → value (json_stringify v ++ (more_fields_text fields ++ t))
      ≡ some (v, more_fields_text fields ++ t)
    → more (more_fields_text fields ++ t) ≡ some (fields, t)
    → member_of value more
        ((quoted name ++ b':' ∷ (json_stringify v ++ more_fields_text fields)) ++ t)
      ≡ some (field name v fields, t)
unfolding member_of after_colon skip is_blank
member_of-printed name v fields t value more reads follow =
    let (r, opens, named) =
      read_text-quoted name (b':' ∷ ((json_stringify v ++ more_fields_text fields) ++ t)) in
    rw
      (
        append_assoc (quoted name) (b':' ∷ (json_stringify v ++ more_fields_text fields)) t,
        opens,
        named,
        append_assoc (json_stringify v) (more_fields_text fields) t,
        reads,
        follow,
      )
      refl

length_member :
    (name : Str) (v : Json) (fields : Fields)
    → length (json_stringify v) + length (more_fields_text fields)
      ≤ length (quoted name ++ b':' ∷ (json_stringify v ++ more_fields_text fields))
length_member name v fields = omega (
  arith,
  length-append (quoted name) (b':' ∷ (json_stringify v ++ more_fields_text fields)),
  length-append (json_stringify v) (more_fields_text fields),
)

skip-quoted : (name x t : Str) → skip ((quoted name ++ x) ++ t) ≡ (quoted name ++ x) ++ t
unfolding skip is_blank quoted
skip-quoted name x t = refl

open_fields-quoted :
    (value : Reader Json) (more : Reader Fields) (name x t : Str)
    → open_fields value more ((quoted name ++ x) ++ t)
      ≡ member_of value more ((quoted name ++ x) ++ t)
unfolding open_fields quoted
open_fields-quoted value more name x t = refl

open_items-solid :
    (value : Reader Json) (more : Reader Items) (c : ℕ) (s : Str)
    → (c == b']') ≡ false
    → open_items value more (c ∷ s) ≡ item_then more (value (c ∷ s))
unfolding open_items
open_items-solid value more c s h = rw h refl

-- What a text begins with: not a blank, and not the end of an array.
abbrev BeginsValue : Str → Type 0
BeginsValue u = (c : ℕ) × (s : Str) × (u ≡ c ∷ s) × (is_blank c ≡ false) × ((c == b']') ≡ false)

int-BeginsValue : (z : ℤ) → BeginsValue (decimal_ℤ z)
int-BeginsValue z =
    let (c, s, leads, digits, _) = read_number-decimal_ℤ z [] refl in
    (c, s, sym (append-nil (decimal_ℤ z)) ∙ leads, digit_solid c digits, ground arith)

json_stringify-BeginsValue : (v : Json) → IsKept v → BeginsValue (json_stringify v)
unfolding json_stringify is_blank quoted IsKept
json_stringify-BeginsValue null kept = (_, _, refl, refl, refl)
json_stringify-BeginsValue (bool true) kept = (_, _, refl, refl, refl)
json_stringify-BeginsValue (bool false) kept = (_, _, refl, refl, refl)
json_stringify-BeginsValue (int z) kept = int-BeginsValue z
json_stringify-BeginsValue (fraction s) kept = absurd kept
json_stringify-BeginsValue (text s) kept = (_, _, refl, refl, refl)
json_stringify-BeginsValue (arr nil) kept = (_, _, refl, refl, refl)
json_stringify-BeginsValue (arr (item v items)) kept = (_, _, refl, refl, refl)
json_stringify-BeginsValue (obj end) kept = (_, _, refl, refl, refl)
json_stringify-BeginsValue (obj (field name v fields)) kept = (_, _, refl, refl, refl)

length_of-BeginsValue : (u : Str) → BeginsValue u → 0 < length u
length_of-BeginsValue u (c, s, is, _, _) = rw is (omega arith)

-- After the bracket of an array that is not empty.
open_items-BeginsValue :
    (value : Reader Json) (more : Reader Items) (u x : Str)
    → BeginsValue u
    → open_items value more (skip (u ++ x)) ≡ item_then more (value (u ++ x))
open_items-BeginsValue value more u x (c, s, is, solid, other) =
    rw (is, skip-solid c (s ++ x) solid, open_items-solid value more c (s ++ x) other) refl

mutual
  unfolding IsKept json_stringify more_items_text more_fields_text read_value more_items more_fields
      value_of value_at start_of skip is_blank literal starts_with next_item next_field

  read_value-json_stringify :
      (v : Json) (fuel : ℕ) (t : Str)
      → length (json_stringify v) ≤ fuel
      → is_after_number t ≡ true
      → IsKept v
      → read_value fuel (json_stringify v ++ t) ≡ some (v, t)
  read_value-json_stringify null zero t h k kept = absurd (omega arith)
  read_value-json_stringify null (suc fuel) t h k kept = refl
  read_value-json_stringify (bool true) zero t h k kept = absurd (omega arith)
  read_value-json_stringify (bool true) (suc fuel) t h k kept = refl
  read_value-json_stringify (bool false) zero t h k kept = absurd (omega arith)
  read_value-json_stringify (bool false) (suc fuel) t h k kept = refl
  read_value-json_stringify (int z) zero t h k kept =
      absurd (omega (arith, length_of-BeginsValue (decimal_ℤ z) (int-BeginsValue z)))
  read_value-json_stringify (int z) (suc fuel) t h k kept = read_int fuel z t k
  read_value-json_stringify (fraction s) fuel t h k kept = absurd kept
  read_value-json_stringify (text s) zero t h k kept =
      absurd
        (omega (arith, length_of-BeginsValue (quoted s) (json_stringify-BeginsValue (text s) tt)))
  read_value-json_stringify (text s) (suc fuel) t h k kept = read_quoted fuel s t
  read_value-json_stringify (arr nil) zero t h k kept = absurd (omega arith)
  read_value-json_stringify (arr nil) (suc fuel) t h k kept = refl
  read_value-json_stringify (arr (item v items)) zero t h k kept = absurd (omega arith)
  read_value-json_stringify (arr (item v items)) (suc fuel) t h k (kept, rest) =
      let fits = length-append (json_stringify v) (more_items_text items) in
      let opens =
        open_items-BeginsValue (read_value fuel) (more_items fuel) (json_stringify v)
          (more_items_text items ++ t) (json_stringify-BeginsValue v kept) in
      let reads =
        read_value-json_stringify v fuel (more_items_text items ++ t) (omega arith)
          (after-items items t) kept in
      let follow = more_items-printed items fuel t (omega arith) rest in
      rw (append_assoc (json_stringify v) (more_items_text items) t, opens, reads, follow) refl
  read_value-json_stringify (obj end) zero t h k kept = absurd (omega arith)
  read_value-json_stringify (obj end) (suc fuel) t h k kept = refl
  read_value-json_stringify (obj (field name v fields)) zero t h k kept = absurd (omega arith)
  read_value-json_stringify (obj (field name v fields)) (suc fuel) t h k (kept, rest) =
      let fits = length_member name v fields in
      let printed = b':' ∷ (json_stringify v ++ more_fields_text fields) in
      let made =
        member_of-printed name v fields t (read_value fuel) (more_fields fuel)
          (read_value-json_stringify v fuel (more_fields_text fields ++ t) (omega arith)
            (after-fields fields t) kept)
          (more_fields-printed fields fuel t (omega arith) rest) in
      rw
        (
          skip-quoted name printed t,
          open_fields-quoted (read_value fuel) (more_fields fuel) name printed t,
          made,
        )
        refl

  more_items-printed :
      (items : Items) (fuel : ℕ) (t : Str)
      → length (more_items_text items) ≤ fuel
      → AreKept items
      → more_items fuel (more_items_text items ++ t) ≡ some (items, t)
  more_items-printed nil zero t h kept = absurd (omega arith)
  more_items-printed nil (suc fuel) t h kept = refl
  more_items-printed (item v items) zero t h kept = absurd (omega arith)
  more_items-printed (item v items) (suc fuel) t h (kept, rest) =
      let fits = length-append (json_stringify v) (more_items_text items) in
      item_then-printed v items t (read_value fuel) (more_items fuel)
        (read_value-json_stringify v fuel (more_items_text items ++ t) (omega arith)
          (after-items items t) kept)
        (more_items-printed items fuel t (omega arith) rest)

  more_fields-printed :
      (fields : Fields) (fuel : ℕ) (t : Str)
      → length (more_fields_text fields) ≤ fuel
      → HoldKept fields
      → more_fields fuel (more_fields_text fields ++ t) ≡ some (fields, t)
  more_fields-printed end zero t h kept = absurd (omega arith)
  more_fields-printed end (suc fuel) t h kept = refl
  more_fields-printed (field name v fields) zero t h kept = absurd (omega arith)
  more_fields-printed (field name v fields) (suc fuel) t h (kept, rest) =
      let fits = length_member name v fields in
      let printed = b':' ∷ (json_stringify v ++ more_fields_text fields) in
      let made =
        member_of-printed name v fields t (read_value fuel) (more_fields fuel)
          (read_value-json_stringify v fuel (more_fields_text fields ++ t) (omega arith)
            (after-fields fields t) kept)
          (more_fields-printed fields fuel t (omega arith) rest) in
      rw (skip-quoted name printed t, made) refl

-- Enough fuel is given: a value that is kept is what its text is parsed to.
pub json_value-json_stringify : (v : Json) → IsKept v → json_value (json_stringify v) ≡ some v
unfolding json_value skip
json_value-json_stringify v kept =
    let whole = append-nil (json_stringify v) in
    let reads =
      read_value-json_stringify v (length (json_stringify v) + 1) [] (omega arith) refl kept in
    ap (λ s. ended (read_value (length (json_stringify v) + 1) s)) (sym whole) ∙ ap ended reads
