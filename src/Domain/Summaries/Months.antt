-- ===== src/Domain/Summaries/Months.antt =====
-- web/src/domain/summaries.ts, `monthlyTotals`: what the entries add up to.
use fincrypt.Prelude.{
  ◌∙◌, ◌+◌, Option, none, some, List, [], ◌∷◌, ◌≡◌, refl, ap, Str, str_eq, if◌then◌else◌, pos, ◌-ℤ◌,
  upsert, values, sum_by, sum-sort, lookup-of_values, Member, Member-of-sort, arith,
}
use fincrypt.Domain.Summaries.{
  Bool, Transaction, MonthTotals, month_of, or_new_month, book_month, with_net, group_months,
  monthly_totals,
}
use fincrypt.Domain.Summaries.Grouping.{
  grouped, grouped-HasUniqueKeys, grouped-Good_new, sum-grouped_new, part-grouped_new,
}
use fincrypt.Domain.Summaries.Totals.{outflow, inflow}

abbrev book_total : Transaction → Option MonthTotals → MonthTotals
book_total r o = with_net (book_month r (or_new_month r o))

group_months-eq_grouped :
    (m : List (Str × MonthTotals)) (rows : List Transaction)
    → group_months m rows ≡ grouped month_of book_total m rows
unfolding group_months
group_months-eq_grouped m [] = refl
group_months-eq_grouped m (r ∷ rows) =
    group_months-eq_grouped (upsert (book_total r) (month_of r) m) rows

expense_first : (r : Transaction) → (book_total r none).expense ≡ outflow r
expense_first r = ground arith

income_first : (r : Transaction) → (book_total r none).income ≡ inflow r
income_first r = ground arith

expense_next :
    (r : Transaction) (e : MonthTotals) → (book_total r (some e)).expense ≡ e.expense + outflow r
expense_next r e = ground arith

income_next :
    (r : Transaction) (e : MonthTotals) → (book_total r (some e)).income ≡ e.income + inflow r
income_next r e = ground arith

-- An entry stands under its month, and its net is right.
abbrev IsSettled : Str → MonthTotals → Type 0
IsSettled k e = (e.month ≡ k) × (e.net ≡ pos e.income -ℤ pos e.expense)

first-IsSettled : (r : Transaction) → IsSettled (month_of r) (book_total r none)
first-IsSettled r = (ground arith, refl)

next-IsSettled :
    (r : Transaction) (e : MonthTotals)
    → IsSettled (month_of r) e
    → IsSettled (month_of r) (book_total r (some e))
next-IsSettled r e (month, net) = (ground arith, refl)

months-entry :
    (rows : List Transaction) (e : MonthTotals)
    → Member e (values (grouped month_of book_total [] rows))
    → (e.net ≡ pos e.income -ℤ pos e.expense)
      × (e.income ≡ sum_by (λ r. if str_eq (month_of r) e.month then inflow r else 0) rows)
      × (e.expense ≡ sum_by (λ r. if str_eq (month_of r) e.month then outflow r else 0) rows)
months-entry rows e there =
    let (k, found) =
      lookup-of_values e (grouped month_of book_total [] rows)
        (grouped-HasUniqueKeys month_of book_total [] rows tt) there in
    let (month, net) : IsSettled k e =
      grouped-Good_new month_of book_total IsSettled first-IsSettled next-IsSettled rows k e
        found in
    (
      net,
      rw month (
          part-grouped_new month_of book_total (λ x. x.income) inflow income_first income_next k
            rows e found),
      rw month (
          part-grouped_new month_of book_total (λ x. x.expense) outflow expense_first expense_next k
            rows e found),
    )

module _ (locale_less : Str → Str → Bool) where
  -- An entry of `monthlyTotals` holds the sums of the inflows and of the outflows of exactly the
  -- rows of its month, and its net is the one less the other.
  pub monthly_totals_entry :
      (rows : List Transaction) (e : MonthTotals)
      → Member e (monthly_totals locale_less rows)
      → (e.net ≡ pos e.income -ℤ pos e.expense)
        × (e.income ≡ sum_by (λ r. if str_eq (month_of r) e.month then inflow r else 0) rows)
        × (e.expense ≡ sum_by (λ r. if str_eq (month_of r) e.month then outflow r else 0) rows)
  unfolding monthly_totals
  monthly_totals_entry rows e there = months-entry rows e (
      rw (group_months-eq_grouped [] rows) at (
        Member-of-sort (λ a b. locale_less b.month a.month) e (values (group_months [] rows))
          there))

  -- Over all the entries of `monthlyTotals` the incomes and the expenses add up to the inflows and
  -- the outflows of all the rows: no row is lost.
  pub monthly_totals_conserves :
      (rows : List Transaction)
      → (sum_by (λ e. e.income) (monthly_totals locale_less rows) ≡ sum_by inflow rows)
        × (sum_by (λ e. e.expense) (monthly_totals locale_less rows) ≡ sum_by outflow rows)
  unfolding monthly_totals
  monthly_totals_conserves rows =
      let later = λ (a b : MonthTotals). locale_less b.month a.month in
      let same = group_months-eq_grouped [] rows in
      (
        sum-sort later (λ e. e.income) (values (group_months [] rows))
            ∙ ap (λ m. sum_by (λ e. e.income) (values m)) same
            ∙ sum-grouped_new month_of book_total (λ e. e.income) inflow income_first income_next
                rows,
        sum-sort later (λ e. e.expense) (values (group_months [] rows))
            ∙ ap (λ m. sum_by (λ e. e.expense) (values m)) same
            ∙ sum-grouped_new month_of book_total (λ e. e.expense) outflow expense_first
                expense_next rows,
      )
