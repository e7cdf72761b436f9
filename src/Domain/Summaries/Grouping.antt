-- ===== src/Domain/Summaries/Grouping.antt =====
-- web/src/domain/summaries.ts: a map whose entries come of adding up the rows, one entry for
-- each key.
use fincrypt.Prelude.{
  Option-cases, sum-upsert, Bool-cases, ap, ◌∙◌, sym, ℕ, ◌+◌, Option, none, some, List, [], ◌∷◌,
  ◌≡◌, inl, inr, Str, str_eq, if◌then◌else◌, upsert, lookup, values, sum_by, lookup-upsert,
  HasUniqueKeys, upsert-HasUniqueKeys, arith, eq_of_str_eq,
}
use fincrypt.Domain.Summaries.{Transaction}

-- `step r` is what a row does to the entry under its key.
module _ {E : Type 0} (key : Transaction → Str) (step : Transaction → Option E → E) where
  abbrev pub grouped : List (Str × E) → List Transaction → List (Str × E)
  grouped m [] = m
  grouped m (r ∷ rows) = grouped (upsert (step r) (key r) m) rows

  pub grouped-HasUniqueKeys :
      (m : List (Str × E)) (rows : List Transaction)
      → HasUniqueKeys m
      → HasUniqueKeys (grouped m rows)
  grouped-HasUniqueKeys m [] h = h
  grouped-HasUniqueKeys m (r ∷ rows) h =
      grouped-HasUniqueKeys (upsert (step r) (key r) m) rows
        (upsert-HasUniqueKeys (step r) (key r) m h)

  -- What holds of each entry that a row makes or changes holds of each entry.
  module _ (Good : Str → E → Type 0) (fresh : (r : Transaction) → Good (key r) (step r none))
      (again : (r : Transaction) (e : E) → Good (key r) e → Good (key r) (step r (some e))) where
    upsert-Good :
        (r : Transaction) (m : List (Str × E))
        → ((k : Str) (e : E) → lookup k m ≡ some e → Good k e)
        → (k : Str) (e : E) → lookup k (upsert (step r) (key r) m) ≡ some e
        → Good k e
    upsert-Good r m h k e found =
        let at : (if str_eq (key r) k then some (step r (lookup (key r) m)) else lookup k m)
            ≡ some e =
          sym (lookup-upsert (step r) (key r) k m) ∙ found in
        elim (Bool-cases (str_eq (key r) k)) [
          | inl same ↦
              let (k_is, made) : (k ≡ key r) × (step r (lookup (key r) m) ≡ e) = (
                sym (eq_of_str_eq (key r) k same),
                (let put : some (step r (lookup (key r) m)) ≡ some e = rw same at at in cc put),
              ) in
              elim (Option-cases (lookup (key r) m)) [
                | inl absent ↦ rw k_is (rw (← made) (rw absent (fresh r)))
                | inr (old, there) ↦
                    rw k_is (rw (← made) (rw there (again r old (h (key r) old there))))
              ]
          | inr other ↦ h k e (rw other at at)
        ]

    pub grouped-Good :
        (m : List (Str × E)) (rows : List Transaction)
        → ((k : Str) (e : E) → lookup k m ≡ some e → Good k e)
        → (k : Str) (e : E) → lookup k (grouped m rows) ≡ some e
        → Good k e
    grouped-Good m [] h = h
    grouped-Good m (r ∷ rows) h = grouped-Good (upsert (step r) (key r) m) rows (upsert-Good r m h)

    pub grouped-Good_new :
        (rows : List Transaction) (k : Str) (e : E) → lookup k (grouped [] rows) ≡ some e → Good k e
    unfolding lookup
    grouped-Good_new rows = grouped-Good [] rows (λ j x nothing. absurd (cc))

  -- A field of the entries that adds up an amount of the rows.
  module _ (part : E → ℕ) (amount : Transaction → ℕ)
      (first : (r : Transaction) → part (step r none) ≡ amount r)
      (next : (r : Transaction) (e : E) → part (step r (some e)) ≡ part e + amount r) where
    pub sum-grouped :
        (m : List (Str × E)) (rows : List Transaction)
        → sum_by part (values (grouped m rows)) ≡ sum_by part (values m) + sum_by amount rows
    sum-grouped m [] = omega arith
    sum-grouped m (r ∷ rows) = omega (
      arith,
      sum-grouped (upsert (step r) (key r) m) rows,
      sum-upsert part (step r) (amount r) (first r) (next r) (key r) m,
    )

    abbrev pub part_of : Option E → ℕ
    part_of none = 0
    part_of (some e) = part e

    part_of-step : (r : Transaction) (o : Option E) → part (step r o) ≡ part_of o + amount r
    part_of-step r none = omega (arith, first r)
    part_of-step r (some e) = next r e

    -- The amounts of the rows under a key.
    abbrev pub amount_at : Str → Transaction → ℕ
    amount_at k r = if str_eq (key r) k then amount r else 0

    pub part_of-grouped :
        (k : Str) (m : List (Str × E)) (rows : List Transaction)
        → part_of (lookup k (grouped m rows)) ≡ part_of (lookup k m) + sum_by (amount_at k) rows
    part_of-grouped k m [] = omega arith
    part_of-grouped k m (r ∷ rows) =
        part_of-grouped k (upsert (step r) (key r) m) rows
        ∙ ap (λ o. part_of o + sum_by (amount_at k) rows) (lookup-upsert (step r) (key r) k m)
        ∙ elim (Bool-cases (str_eq (key r) k)) [
          | inl same ↦
              let here : part_of (lookup (key r) m) ≡ part_of (lookup k m) =
                ap (λ j. part_of (lookup j m)) (eq_of_str_eq (key r) k same) in
              rw same (omega (arith, part_of-step r (lookup (key r) m)))
          | inr other ↦ rw other (omega arith)
        ]

    -- From the empty map.
    pub sum-grouped_new :
        (rows : List Transaction) → sum_by part (values (grouped [] rows)) ≡ sum_by amount rows
    sum-grouped_new rows = omega (arith, sum-grouped [] rows)

    pub part-grouped_new :
        (k : Str) (rows : List Transaction) (e : E)
        → lookup k (grouped [] rows) ≡ some e
        → part e ≡ sum_by (amount_at k) rows
    unfolding lookup
    part-grouped_new k rows e found =
        let all = part_of-grouped k [] rows in
        let here : part_of (some e) ≡ part_of (lookup k (grouped [] rows)) =
          ap part_of (sym found) in
        omega (arith, all, here)
