-- ===== src/Cache/Tables.antt =====
-- Dexie's tables, which are not part of the repository: the calls that the code makes, with what
-- Dexie documents of them. `where('type').equals(t)` and `orderBy('seq')` are read off `to_array`
-- and `rows`.
use fincrypt.Prelude.{
  All, ℕ, suc, ◌<◌, ◌≡◌, Bool, not, Option, none, some, List, [], ◌∷◌, ◌++◌, Str, str_eq, ◌==◌,
  ◌||◌, false, if◌then◌else◌, Member, keep_if,
}

-- A table whose primary key is a field of its rows.
pub record KeyTable (Row : Type 0) (key_of : Row → Str) : Type 1 where
  pub Table : Type 0
  pub empty : Table
  pub get : Table → Str → Option Row
  pub put : Table → Row → Table
  pub delete : Table → Str → Table
  pub to_array : Table → List Row
  pub get-empty : (k : Str) → get empty k ≡ none
  pub get-put :
      (t : Table) (r : Row) (k : Str)
      → get (put t r) k ≡ (if str_eq (key_of r) k then some r else get t k)
  pub get-delete :
      (t : Table) (j k : Str) → get (delete t j) k ≡ (if str_eq j k then none else get t k)
  pub key_of_get : (t : Table) (k : Str) (r : Row) → get t k ≡ some r → key_of r ≡ k
  pub to_array-of_get : (t : Table) (k : Str) (r : Row) → get t k ≡ some r → Member r (to_array t)
  pub get-of_to_array : (t : Table) (r : Row) → Member r (to_array t) → get t (key_of r) ≡ some r

abbrev pub is_in : List ℕ → ℕ → Bool
is_in [] n = false
is_in (m ∷ ms) n = m == n || is_in ms n

-- In the order of their keys, each key once.
abbrev pub IsAscending : {Row : Type 0} → (Row → ℕ) → List Row → Type 0
IsAscending seq_of [] = Unit
IsAscending seq_of (r ∷ rs) = All (λ s. seq_of r < seq_of s) rs × IsAscending seq_of rs

-- A table `++seq`: the key of an added row is one more than the largest that was ever given.
pub record SeqTable (Entry Row : Type 0) (row : ℕ → Entry → Row) (seq_of : Row → ℕ) : Type 1 where
  pub Table : Type 0
  pub empty : Table
  pub add : Table → Entry → Table
  pub bulk_delete : Table → List ℕ → Table
  -- the rows in the order of their keys
  pub rows : Table → List Row
  pub next_seq : Table → ℕ
  pub rows-empty : rows empty ≡ []
  pub rows-add : (t : Table) (e : Entry) → rows (add t e) ≡ rows t ++ row (next_seq t) e ∷ []
  pub next_seq-add : (t : Table) (e : Entry) → next_seq (add t e) ≡ suc (next_seq t)
  pub seq-lt-next_seq : (t : Table) (r : Row) → Member r (rows t) → seq_of r < next_seq t
  pub rows-IsAscending : (t : Table) → IsAscending seq_of (rows t)
  pub rows-bulk_delete :
      (t : Table) (seqs : List ℕ)
      → rows (bulk_delete t seqs) ≡ keep_if (λ r. not (is_in seqs (seq_of r))) (rows t)
  pub next_seq-bulk_delete :
      (t : Table) (seqs : List ℕ) → next_seq (bulk_delete t seqs) ≡ next_seq t
