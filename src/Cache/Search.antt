-- ===== src/Cache/Search.antt =====
-- web/src/cache/search.ts, over the MiniSearch package as a parameter.
use fincrypt.Prelude.Json.Text.{json_stringify}
use fincrypt.Prelude.{
  lookup, decimal_ℤ, ℕ, true, false, Option, none, some, List, [], ◌∷◌, map, Str, codes, join, trim,
  length, take, ◌==◌, str_eq, if◌then◌else◌, Member, ◌≡◌,
}
use fincrypt.Prelude.Json.{
  Json, null, bool, int, fraction, text, arr, obj, Items, nil, item, lookup_field,
}
use fincrypt.Api.Client.{is_truthy}
use fincrypt.Cache.{Db, Cache, WorkingRow}

-- `score` is left as the package gives it.
pub record SearchHit (Score : Type 0) : Type 0 where
  pub key : Str
  pub record_id : Str
  pub type : Str
  pub score : Score

-- A hit as the package gives it: the fields that were stored for the row, by name.
pub record RawHit (Score : Type 0) : Type 0 where
  pub stored : List (Str × Json)
  pub score : Score

-- What the package is constructed with.
pub record SearchOptions : Type 0 where
  pub fields : List Str
  pub store_fields : List Str
  pub id_field : Str
  pub extract_field : WorkingRow → Str → Json

abbrev pub stored_fields : (WorkingRow → Str → Json) → List Str → WorkingRow → List (Str × Json)
stored_fields extract [] row = []
stored_fields extract (name ∷ names) row =
    (name, extract row name) ∷ stored_fields extract names row

-- The package: an index over rows, made with options by `addAll`.
pub record MiniSearch : Type 1 where
  pub Index : Type 0
  pub Score : Type 0
  pub index_of : SearchOptions → List WorkingRow → Index
  pub search : Index → Str → List (RawHit Score)
  -- a hit is for one of the rows that were added, and has what was extracted of it for `storeFields`
  pub hit-of_row :
      (options : SearchOptions) (rows : List WorkingRow) (query : Str) (hit : RawHit Score)
      → Member hit (search (index_of options rows) query)
      → (row : WorkingRow) × Member row rows
        × (hit.stored ≡ stored_fields options.extract_field options.store_fields row)

-- String(v), and the elements of an array as `join` takes them.
unfoldable mutual
  pub string_of : Json → Str
  string_of null = codes "null"
  string_of (bool true) = codes "true"
  string_of (bool false) = codes "false"
  string_of (int n) = decimal_ℤ n
  string_of (fraction s) = s
  string_of (text s) = s
  string_of (arr items) = join (codes ",") (strings_of items)
  string_of (obj fields) = codes "[object Object]"

  pub strings_of : Items → List Str
  strings_of nil = []
  strings_of (item null items) = [] ∷ strings_of items
  strings_of (item v items) = string_of v ∷ strings_of items

-- String(v ?? '')
abbrev pub name_text : Option Json → Str
name_text none = []
name_text (some null) = []
name_text (some v) = string_of v

-- [a, …].filter(Boolean), of the values that are there
abbrev pub truthy_texts : List (Option Json) → List Str
truthy_texts [] = []
truthy_texts (none ∷ values) = truthy_texts values
truthy_texts (some v ∷ values) =
    let rest = truthy_texts values in if is_truthy v then string_of v ∷ rest else rest

-- The searchable text of an object.
abbrev pub object_text : (type : Str) → (Str → Option Json) → Json → Str
object_text type at d =
    if str_eq type (codes "accounts")
    then name_text (at (codes "name"))
    else if str_eq type (codes "transactions")
    then join (codes " ")
        (truthy_texts (at (codes "description") ∷ at (codes "category") ∷ at (codes "amount") ∷ []))
    else json_stringify d

abbrev pub no_property : Str → Option Json
no_property name = none

unfoldable pub searchable_text : (type : Str) → Json → Str
unfolding lookup_field string_of
searchable_text type (obj fields) = object_text type (λ name. lookup_field name fields) (obj fields)
searchable_text type (arr items) = object_text type no_property (arr items)
searchable_text type _ = []

-- row[field] ?? ''
abbrev or_empty : Json → Json
or_empty null = text []
or_empty v = v

abbrev row_field : WorkingRow → Str → Json
row_field row field =
    if str_eq field (codes "key")
    then text row.key
    else if str_eq field (codes "recordId")
    then text row.record_id
    else if str_eq field (codes "type")
    then text row.type
    else if str_eq field (codes "data")
    then or_empty row.payload
    else if str_eq field (codes "ts")
    then text row.ts
    else text []

unfoldable pub extract_field : WorkingRow → Str → Json
unfolding searchable_text
extract_field row field =
    if str_eq field (codes "text")
    then text (searchable_text row.type row.payload)
    else row_field row field

unfoldable pub search_options : SearchOptions
search_options = record {
  fields = codes "text" ∷ [];
  store_fields = codes "key" ∷ codes "recordId" ∷ codes "type" ∷ [];
  id_field = codes "key";
  extract_field = extract_field;
}

module _ (M : MiniSearch) (db : Db) where
  unfoldable pub build_search_index : Cache db → M.Index
  build_search_index c = M.index_of search_options (db.working.to_array c.working)

-- String(h[name])
abbrev pub string_or_undefined : Option Json → Str
string_or_undefined none = codes "undefined"
string_or_undefined (some v) = string_of v

unfoldable pub hit_of_raw : {Score : Type 0} → RawHit Score → SearchHit Score
unfolding lookup string_of
hit_of_raw h = record {
  key = string_or_undefined (lookup (codes "key") h.stored);
  record_id = string_or_undefined (lookup (codes "recordId") h.stored);
  type = string_or_undefined (lookup (codes "type") h.stored);
  score = h.score;
}

module _ (M : MiniSearch) where
  -- The default of `limit` is 50.
  unfoldable pub search_index : Option M.Index → Str → ℕ → List (SearchHit M.Score)
  search_index none query limit = []
  search_index (some index) query limit =
      if length (trim query) == 0 then [] else map hit_of_raw (take limit (M.search index query))
