-- ===== src/Domain/Vault/Searches.antt =====
-- web/src/domain/store.ts: the search index of the session, and `vaultSearch`.
use fincrypt.Prelude.{
  length-map, Member-of-map, lookup, str_eq, length-take, subst, zero, suc, map, take, length, trim,
  ◌==◌, Bool-cases, arith, ℕ, Bool, true, false, Option, none, some, List, [], ◌∷◌, Str, ◌≡◌, ◌≤◌,
  refl, sym, ap, ◌∙◌, Member, inl, inr,
}
use fincrypt.Crypto.Platform.{Platform}
use fincrypt.Domain.Formats.{Formats}
use fincrypt.Cache.{Db, Cache, WorkingRow, clear_working}
use fincrypt.Cache.Search.{
  MiniSearch, SearchHit, RawHit, build_search_index, search_index, hit_of_raw, search_options,
  extract_field, stored_fields, string_of,
}
use fincrypt.Domain.Vault.{end_sync}

-- The fields that are stored of a row come back as they were.
hit_of_raw-stored :
    {Score : Type 0} (raw : RawHit Score) (row : WorkingRow)
    → raw.stored ≡ stored_fields search_options.extract_field search_options.store_fields row
    → ((hit_of_raw raw).key ≡ row.key)
      × ((hit_of_raw raw).record_id ≡ row.record_id)
      × ((hit_of_raw raw).type ≡ row.type)
unfolding hit_of_raw search_options extract_field lookup str_eq string_of
hit_of_raw-stored raw row h = rw h (refl, refl, refl)

module _ (P : Platform) (F : Formats P) (M : MiniSearch) (db : Db) where
  -- The cache, and the module's variable `searchIndexRef`.
  pub record Session : Type 0 where
    pub cache : Cache db
    pub index : Option M.Index

  abbrev rebuilt : Option Str → Session → Session
  rebuilt none s = s
  rebuilt (some user) s = record s { index = some (build_search_index M db s.cache) }

  -- What `beginSync` does to the index, for the user that is signed in, if any: it is built of the
  -- working set as it stands then.
  unfoldable pub begin_index : Option Str → Session → Session
  begin_index user s = rebuilt user s

  -- `endSync`, with the index.
  unfoldable pub end_session : Session → Session
  end_session s = record { cache = end_sync P F db s.cache; index = none }

  -- vaultSearch
  unfoldable pub vault_search :
      (locked : Bool) → Session → (query : Str) (limit : ℕ) → List (SearchHit M.Score)
  vault_search true s query limit = []
  vault_search false s query limit = search_index M s.index query limit

  take-Member :
      (n : ℕ) (hit : RawHit M.Score) (hits : List (RawHit M.Score))
      → Member hit (take n hits)
      → Member hit hits
  take-Member zero hit hits there = absurd there
  take-Member (suc n) hit [] there = absurd there
  take-Member (suc n) hit (h ∷ hits) (inl here) = inl here
  take-Member (suc n) hit (h ∷ hits) (inr there) = inr (take-Member n hit hits there)

  -- A list without members is empty.
  no-Member :
      (hits : List (SearchHit M.Score))
      → ((hit : SearchHit M.Score) → ¬ Member hit hits)
      → hits ≡ []
  no-Member [] h = refl
  no-Member (hit ∷ hits) h = absurd (h hit (inl refl))

  to_array-empty : db.working.to_array db.working.empty ≡ []
  to_array-empty = go (db.working.to_array db.working.empty) refl
    where
      go : (rows : List WorkingRow) → db.working.to_array db.working.empty ≡ rows → rows ≡ []
      go [] e = refl
      go (r ∷ rows) e =
          let found =
            db.working.get-of_to_array db.working.empty r (subst (Member r) (sym e) (inl refl)) in
          absurd (cc (sym (db.working.get-empty r.key) ∙ found))

  -- While the index is the one of the unlock, a search finds rows that stood in the working set then:
  -- every hit has the key, the record id and the type of such a row, and no search has more hits than
  -- the limit.
  pub vault_search-of_working :
      (locked : Bool) (user : Str) (s t : Session) (query : Str) (limit : ℕ)
      (hit : SearchHit M.Score)
      → t.index ≡ (begin_index (some user) s).index
      → Member hit (vault_search locked t query limit)
      → ((w : WorkingRow) × (db.working.get s.cache.working w.key ≡ some w)
          × (hit.key ≡ w.key)
          × (hit.record_id ≡ w.record_id)
          × (hit.type ≡ w.type))
        × (length (vault_search locked t query limit) ≤ limit)
  unfolding vault_search search_index build_search_index begin_index
  vault_search-of_working true user s t query limit hit same there = absurd there
  vault_search-of_working false user s t query limit hit same there =
      elim (Bool-cases (length (trim query) == 0)) [
        | inl blank ↦ let nowhere : Member hit [] = rw (same, blank) at there in absurd nowhere
        | inr asks ↦
            let rows = db.working.to_array s.cache.working in
            let raws = M.search (M.index_of search_options rows) query in
            let found : Member hit (map hit_of_raw (take limit raws)) = rw (same, asks) at there in
            let (raw, taken, is_hit) = Member-of-map hit_of_raw hit (take limit raws) found in
            let (row, is_row, stored) =
              M.hit-of_row search_options rows query raw (take-Member limit raw raws taken) in
            let (key, id, type) = hit_of_raw-stored raw row stored in
            (
              (
                row,
                db.working.get-of_to_array s.cache.working row is_row,
                ap (λ (h : SearchHit M.Score). h.key) is_hit ∙ key,
                ap (λ (h : SearchHit M.Score). h.record_id) is_hit ∙ id,
                ap (λ (h : SearchHit M.Score). h.type) is_hit ∙ type,
              ),
              rw (same, asks)
                  (omega (arith, length-map hit_of_raw (take limit raws), length-take limit raws)),
            )
      ]

  -- The index that an unlock builds right after a lock, before anything was loaded, finds nothing.
  vault_search-end_session :
      (locked : Bool) (user : Str) (s : Session) (query : Str) (limit : ℕ)
      → vault_search locked (begin_index (some user) (end_session s)) query limit ≡ []
  unfolding end_session end_sync clear_working
  vault_search-end_session locked user s query limit = no-Member _ (λ hit there.
      let ((w, found, _, _, _), _) =
        vault_search-of_working locked user (end_session s)
          (begin_index (some user) (end_session s)) query limit hit refl there in
      let gone : none ≡ some w = sym (db.working.get-empty w.key) ∙ found in absurd (cc gone))
