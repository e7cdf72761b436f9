-- ===== src/Prelude/Json/Text/WellFormed.antt =====
-- The text of a value is well formed.
use mathlib.Core.Path.{◌≡◌, refl, ap, sym, ◌∙◌}
use mathlib.Core.Bool.{true, false}
use mathlib.Core.List.{[], ◌∷◌, ◌++◌, append_assoc, append-nil}
use fincrypt.Prelude.Text.{Str}
use fincrypt.Prelude.Unicode.{
  is_well_formed, is_well_formed_from, is_high_surrogate, is_low_surrogate,
}
use fincrypt.Prelude.Json.{
  Json, null, bool, int, fraction, text, arr, obj, Items, nil, item, Fields, end, field,
}
use fincrypt.Prelude.Json.Quote.{quoted}
use fincrypt.Prelude.Json.Quote.WellFormed.{is_well_formed-quoted, is_well_formed-decimal_ℤ}
use fincrypt.Prelude.Json.Text.{json_stringify, more_items_text, more_fields_text}
use fincrypt.Prelude.Json.Text.RoundTrip.{IsKept, AreKept, HoldKept}

mutual
  unfolding IsKept json_stringify more_items_text more_fields_text is_well_formed
      is_well_formed_from is_high_surrogate is_low_surrogate

  json_stringify-append :
      (v : Json) (t : Str) → IsKept v → is_well_formed (json_stringify v ++ t) ≡ is_well_formed t
  json_stringify-append null t kept = refl
  json_stringify-append (bool true) t kept = refl
  json_stringify-append (bool false) t kept = refl
  json_stringify-append (int z) t kept = is_well_formed-decimal_ℤ z t
  json_stringify-append (fraction s) t kept = absurd kept
  json_stringify-append (text s) t kept = is_well_formed-quoted s t
  json_stringify-append (arr nil) t kept = refl
  json_stringify-append (arr (item v items)) t (kept, rest) =
      ap is_well_formed (append_assoc (json_stringify v) (more_items_text items) t)
      ∙ json_stringify-append v (more_items_text items ++ t) kept
      ∙ more_items_text-append items t rest
  json_stringify-append (obj end) t kept = refl
  json_stringify-append (obj (field name v fields)) t (kept, rest) =
      ap is_well_formed
        (append_assoc (quoted name) (b':' ∷ (json_stringify v ++ more_fields_text fields)) t)
      ∙ is_well_formed-quoted name (b':' ∷ ((json_stringify v ++ more_fields_text fields) ++ t))
      ∙ ap is_well_formed (append_assoc (json_stringify v) (more_fields_text fields) t)
      ∙ json_stringify-append v (more_fields_text fields ++ t) kept
      ∙ more_fields_text-append fields t rest

  more_items_text-append :
      (items : Items) (t : Str)
      → AreKept items
      → is_well_formed (more_items_text items ++ t) ≡ is_well_formed t
  more_items_text-append nil t kept = refl
  more_items_text-append (item v items) t (kept, rest) =
      ap is_well_formed (append_assoc (json_stringify v) (more_items_text items) t)
      ∙ json_stringify-append v (more_items_text items ++ t) kept
      ∙ more_items_text-append items t rest

  more_fields_text-append :
      (fields : Fields) (t : Str)
      → HoldKept fields
      → is_well_formed (more_fields_text fields ++ t) ≡ is_well_formed t
  more_fields_text-append end t kept = refl
  more_fields_text-append (field name v fields) t (kept, rest) =
      ap is_well_formed
        (append_assoc (quoted name) (b':' ∷ (json_stringify v ++ more_fields_text fields)) t)
      ∙ is_well_formed-quoted name (b':' ∷ ((json_stringify v ++ more_fields_text fields) ++ t))
      ∙ ap is_well_formed (append_assoc (json_stringify v) (more_fields_text fields) t)
      ∙ json_stringify-append v (more_fields_text fields ++ t) kept
      ∙ more_fields_text-append fields t rest

pub is_well_formed-json_stringify : (v : Json) → IsKept v → is_well_formed (json_stringify v) ≡ true
unfolding is_well_formed is_well_formed_from
is_well_formed-json_stringify v kept =
    ap is_well_formed (sym (append-nil (json_stringify v))) ∙ json_stringify-append v [] kept
