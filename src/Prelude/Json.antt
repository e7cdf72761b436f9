-- ===== src/Prelude/Json.antt =====
-- The values of `JSON.parse`. A number is an integer, or keeps the spelling of one that is not.
pub mod Quote
pub mod Number
pub mod Text
use fincrypt.Prelude.Int.{ℤ}
use mathlib.Core.Option.{Option, none, some}
use fincrypt.Prelude.Tests.{if◌then◌else◌}
use fincrypt.Prelude.Text.{Str, str_eq}
use mathlib.Core.Bool.{Bool}

mutual
  pub data Json : Type 0 where
    null : Json
    bool : Bool → Json
    int : ℤ → Json
    fraction : Str → Json
    text : Str → Json
    arr : Items → Json
    obj : Fields → Json

  pub data Items : Type 0 where
    nil : Items
    item : Json → Items → Items

  pub data Fields : Type 0 where
    end : Fields
    field : Str → Json → Fields → Fields

-- `v.name` of an object, for a name that `Object.prototype` lacks: the last field of that name.
unfoldable pub lookup_field : Str → Fields → Option Json
lookup_field name end = none
lookup_field name (field k v fields) = elim (lookup_field name fields) [
  | some w ↦ some w
  | none ↦ if str_eq k name then some v else none
]
