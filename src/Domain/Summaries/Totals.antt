-- ===== src/Domain/Summaries/Totals.antt =====
-- web/src/domain/summaries.ts, `byCategoryMonth` and `monthlyTotals`: what the entries add up to.
use fincrypt.Prelude.{
  ◌&&◌, take, includes, All, Bool-cases, inl, inr, eq_of_str_eq, str_eq_iff, str_eq_refl, sym,
  false, separator_injective, arith, ℕ, ◌+◌, Bool, Option, none, some, List, [], ◌∷◌, ◌≡◌, refl,
  upsert, ◌∙◌, ap, Str, str_eq, if◌then◌else◌, pos_part, neg_part, lookup, values, sum_by, sum-sort,
  lookup-of_values, Member, Member-of-sort,
}
use fincrypt.Domain.Summaries.{
  Transaction, CategoryMonth, row_key, category_key, or_new, book, group, by_category_month,
  category_later,
}
use fincrypt.Domain.Summaries.Grouping.{
  grouped-Good_new, part-grouped_new, sum-grouped_new, grouped, grouped-HasUniqueKeys,
}

abbrev pub outflow : Transaction → ℕ
outflow r = neg_part r.amount

abbrev pub inflow : Transaction → ℕ
inflow r = pos_part r.amount

abbrev book_category : Transaction → Option CategoryMonth → CategoryMonth
book_category r o = book r (or_new r o)

group-eq_grouped :
    (m : List (Str × CategoryMonth)) (rows : List Transaction)
    → group m rows ≡ grouped row_key book_category m rows
unfolding group
group-eq_grouped m [] = refl
group-eq_grouped m (r ∷ rows) = group-eq_grouped (upsert (book_category r) (row_key r) m) rows

expense_first : (r : Transaction) → (book_category r none).expense ≡ outflow r
expense_first r = ground arith

income_first : (r : Transaction) → (book_category r none).income ≡ inflow r
income_first r = ground arith

expense_next :
    (r : Transaction) (e : CategoryMonth)
    → (book_category r (some e)).expense ≡ e.expense + outflow r
expense_next r e = ground arith

income_next :
    (r : Transaction) (e : CategoryMonth) → (book_category r (some e)).income ≡ e.income + inflow r
income_next r e = ground arith

values-sum :
    (part : CategoryMonth → ℕ) (amount : Transaction → ℕ) (rows : List Transaction)
    → ((r : Transaction) → part (book_category r none) ≡ amount r)
    → ((r : Transaction) (e : CategoryMonth) → part (book_category r (some e)) ≡ part e + amount r)
    → sum_by part (values (group [] rows)) ≡ sum_by amount rows
values-sum part amount rows first next =
    ap (λ m. sum_by part (values m)) (group-eq_grouped [] rows)
    ∙ sum-grouped_new row_key book_category part amount first next rows

-- An entry stands under the key of its month and category.
abbrev IsNamed : Str → CategoryMonth → Type 0
IsNamed k e = category_key e.month e.category ≡ k

first-IsNamed : (r : Transaction) → IsNamed (row_key r) (book_category r none)
first-IsNamed r = ground arith

next-IsNamed :
    (r : Transaction) (e : CategoryMonth)
    → IsNamed (row_key r) e
    → IsNamed (row_key r) (book_category r (some e))
next-IsNamed r e named = ground arith

-- What stands in the map that `byCategoryMonth` makes.
values-entry :
    (rows : List Transaction) (e : CategoryMonth)
    → Member e (values (group [] rows))
    → lookup (category_key e.month e.category) (group [] rows) ≡ some e
values-entry rows e there =
    let same = group-eq_grouped [] rows in
    let (k, found) =
      lookup-of_values e (group [] rows)
        (rw same (grouped-HasUniqueKeys row_key book_category [] rows tt)) there in
    let named : IsNamed k e =
      grouped-Good_new row_key book_category IsNamed first-IsNamed next-IsNamed rows k e
        (rw same at found) in
    rw named found

-- A row of the month and the category of an entry.
abbrev pub books_to : CategoryMonth → Transaction → Bool
books_to e r = str_eq (take 7 r.date) e.month && str_eq r.category e.category

-- The month of the row holds no bar.
abbrev pub HasPlainMonth : Transaction → Type 0
HasPlainMonth r = includes b'|' (take 7 r.date) ≡ false

str_eq-category_key :
    (month month' category category' : Str)
    → includes b'|' month ≡ false
    → includes b'|' month' ≡ false
    → str_eq (category_key month category) (category_key month' category')
      ≡ (str_eq month month' && str_eq category category')
str_eq-category_key month month' category category' h h' =
    elim (Bool-cases (str_eq (category_key month category) (category_key month' category'))) [
      | inl same ↦
          let (months, categories) =
            separator_injective b'|' month month' category category' h h' (eq_of_str_eq _ _ same) in
          ground (arith, str_eq_iff month month', str_eq_iff category category')
      | inr other ↦ elim (Bool-cases (str_eq month month' && str_eq category category')) [
        | inr apart ↦ other ∙ sym apart
        | inl both ↦
            let months : month ≡ month' = ground (arith, eq_of_str_eq month month') in
            let categories : category ≡ category' =
              ground (arith, eq_of_str_eq category category') in
            absurd
              (cc (str_eq_refl (category_key month' category'), rw (months, categories) at other))
      ]
    ]

sum_by-books_to :
    (amount : Transaction → ℕ) (e : CategoryMonth) (rows : List Transaction)
    → includes b'|' e.month ≡ false
    → All HasPlainMonth rows
    → sum_by
        (λ r. if str_eq (row_key r) (category_key e.month e.category) then amount r else 0)
        rows
      ≡ sum_by (λ r. if books_to e r then amount r else 0) rows
sum_by-books_to amount e [] h plain = refl
sum_by-books_to amount e (r ∷ rows) h (first, plain) =
    rw (str_eq-category_key (take 7 r.date) e.month r.category e.category first h)
      (ap (λ n. (if books_to e r then amount r else 0) + n) (sum_by-books_to amount e rows h plain))

values-part :
    (part : CategoryMonth → ℕ) (amount : Transaction → ℕ) (rows : List Transaction)
    → ((r : Transaction) → part (book_category r none) ≡ amount r)
    → ((r : Transaction) (e : CategoryMonth) → part (book_category r (some e)) ≡ part e + amount r)
    → (e : CategoryMonth) → includes b'|' e.month ≡ false
    → All HasPlainMonth rows
    → Member e (values (group [] rows))
    → part e ≡ sum_by (λ r. if books_to e r then amount r else 0) rows
values-part part amount rows first next e h plain there =
    let same = group-eq_grouped [] rows in
    part-grouped_new row_key book_category part amount first next (category_key e.month e.category)
      rows e (rw same at (values-entry rows e there))
    ∙ sum_by-books_to amount e rows h plain

module _ (locale_less : Str → Str → Bool) where
  -- Nothing is lost and nothing is counted twice: over all the entries of `byCategoryMonth` the
  -- expenses add up to the outflows of all the rows, and the incomes to the inflows.
  pub by_category_month_conserves :
      (rows : List Transaction)
      → (sum_by (λ e. e.expense) (by_category_month locale_less rows) ≡ sum_by outflow rows)
        × (sum_by (λ e. e.income) (by_category_month locale_less rows) ≡ sum_by inflow rows)
  unfolding by_category_month
  by_category_month_conserves rows = (
    sum-sort (category_later locale_less) (λ e. e.expense) (values (group [] rows))
        ∙ values-sum (λ e. e.expense) outflow rows expense_first expense_next,
    sum-sort (category_later locale_less) (λ e. e.income) (values (group [] rows))
        ∙ values-sum (λ e. e.income) inflow rows income_first income_next,
  )

  -- Where neither the months of the rows (the first seven code units of their dates) nor the month of
  -- the entry hold a bar, an entry of `byCategoryMonth` holds, as expense, the sum of the outflows of
  -- exactly the rows with its month and its category, and as income the sum of their inflows.
  pub by_category_month_entry :
      (rows : List Transaction) (e : CategoryMonth)
      → includes b'|' e.month ≡ false
      → All HasPlainMonth rows
      → Member e (by_category_month locale_less rows)
      → (e.expense ≡ sum_by (λ r. if books_to e r then outflow r else 0) rows)
        × (e.income ≡ sum_by (λ r. if books_to e r then inflow r else 0) rows)
  unfolding by_category_month
  by_category_month_entry rows e h plain there =
      let inside : Member e (values (group [] rows)) =
        Member-of-sort (category_later locale_less) e (values (group [] rows)) there in
      (
        values-part (λ x. x.expense) outflow rows expense_first expense_next e h plain inside,
        values-part (λ x. x.income) inflow rows income_first income_next e h plain inside,
      )
