-- ===== src/Domain/Tests/Searches.antt =====
-- Runs of the search over a concrete package, which finds every row.
use fincrypt.Cache.Search.{
  build_search_index, search_index, SearchHit, RawHit, MiniSearch, SearchOptions, stored_fields,
  hit_of_raw, search_options, extract_field,
}
use fincrypt.Prelude.{
  none, str_eq, Member-of-map, trim, ℕ, false, some, List, map, codes, ◌≡◌, ◌≤◌, refl, inl, Member,
  length, ap,
}
use fincrypt.Prelude.Json.{text}
use fincrypt.Crypto.Toy.{toy}
use fincrypt.Cache.{Cache, WorkingRow, clear_all}
use fincrypt.Cache.Lists.{list_db}
use fincrypt.Sync.Outbox.{type_key}
use fincrypt.Domain.ToyFormats.{toy_formats}
use fincrypt.Domain.Vault.Searches.{Session, begin_index, vault_search, vault_search-of_working}

abbrev hit_of : SearchOptions → WorkingRow → RawHit ℕ
hit_of options row = record {
  stored = stored_fields options.extract_field options.store_fields row;
  score = 1;
}

hit_of-Member :
    (options : SearchOptions) (rows : List WorkingRow) (hit : RawHit ℕ)
    → Member hit (map (hit_of options) rows)
    → (row : WorkingRow) × Member row rows
      × (hit.stored ≡ stored_fields options.extract_field options.store_fields row)
hit_of-Member options rows hit there =
    let (row, found, same) = Member-of-map (hit_of options) hit rows there in
    (row, found, ap (λ (h : RawHit ℕ). h.stored) same)

abbrev every_row : MiniSearch
every_row = record {
  Index = SearchOptions × List WorkingRow;
  Score = ℕ;
  index_of = λ options rows. (options, rows);
  search = λ index query. map (hit_of index.0) index.1;
  hit-of_row = λ options rows query hit there. hit_of-Member options rows hit there;
}

abbrev tea : WorkingRow
tea = record {
  key = type_key (codes "chat") (codes "r1");
  record_id = codes "r1";
  type = codes "chat";
  payload = text (codes "tea");
  ts = codes "2024";
}

abbrev loaded : Cache list_db
loaded = record (clear_all list_db) {
  working = list_db.working.put (clear_all list_db).working tea;
}

abbrev session : Session toy toy_formats every_row list_db
session = record { cache = loaded; index = none }

abbrev unlocked : Session toy toy_formats every_row list_db
unlocked = begin_index toy toy_formats every_row list_db (some (codes "anna")) session

abbrev tea_hit : SearchHit ℕ
tea_hit = record {
  key = type_key (codes "chat") (codes "r1");
  record_id = codes "r1";
  type = codes "chat";
  score = 1;
}

vault_search-of_working_example :
    ((w : WorkingRow) × (list_db.working.get loaded.working w.key ≡ some w)
      × (tea_hit.key ≡ w.key)
      × (tea_hit.record_id ≡ w.record_id)
      × (tea_hit.type ≡ w.type))
    × (length (vault_search toy toy_formats every_row list_db false unlocked (codes "tea") 5) ≤ 5)
unfolding vault_search search_index trim build_search_index list_db begin_index hit_of_raw
    search_options extract_field str_eq
vault_search-of_working_example =
    vault_search-of_working toy toy_formats every_row list_db false (codes "anna") session unlocked
      (codes "tea") 5 tea_hit refl (inl refl)
