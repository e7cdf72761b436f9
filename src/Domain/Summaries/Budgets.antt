-- ===== src/Domain/Summaries/Budgets.antt =====
-- web/src/domain/summaries.ts, `budgetStatus`: actual spend, ratio and overrun of each budget.
use fincrypt.Prelude.{
  Member-of-map, Bool, take, codes, length, ◌==◌, false, ltb_ℤ, ◌∷◌, ℕ, ◌+◌, ◌*◌, ◌≤◌, ◌&&◌, some,
  List, [], ◌∷◌, ◌≡◌, refl, ap, Str, str_eq, map, if◌then◌else◌, pos, neg_part, ltb_ℤ, upsert,
  lookup, lookup-upsert, sum_by, Member, Member-of-sort, arith, Bool-cases, inl, inr, eq_of_str_eq,
  ℤ,
}
use fincrypt.Domain.Summaries.{
  Transaction, BudgetLine, BudgetStatus, counts_for, spent_category, or_zero, spend, status_of,
  less_spent, budget_status, ratio_of,
}

-- A row without a category belongs to the line "(uncategorized)", and to no other.
abbrev pub in_category : Str → Str → Bool
in_category line [] = str_eq (codes "(uncategorized)") line
in_category line (c ∷ s) = str_eq (c ∷ s) line

-- The outflow of a row that is of the month and belongs to the line.
abbrev pub spent_on : Str → Str → Transaction → ℕ
spent_on month line r =
    if str_eq (take 7 r.date) month && in_category line r.category then neg_part r.amount else 0

-- What the loop adds for a row to the spend of a category in a month.
abbrev booked : Str → Str → Transaction → ℕ
booked month category r =
    if counts_for month r && str_eq (spent_category r) category then neg_part r.amount else 0

named_in_category :
    (line own : Str)
    → str_eq (if length own == 0 then codes "(uncategorized)" else own) line ≡ in_category line own
named_in_category line [] = refl
named_in_category line (c ∷ s) = ground arith

inflow_spends_nothing : (amount : ℤ) → ltb_ℤ amount (pos 0) ≡ false → neg_part amount ≡ 0
inflow_spends_nothing amount h = ground arith

booked-eq_spent_on :
    (month line : Str) (r : Transaction) → booked month line r ≡ spent_on month line r
booked-eq_spent_on month line r =
    ground (arith, named_in_category line r.category, inflow_spends_nothing r.amount)

sum_by-spent_on :
    (month line : Str) (rows : List Transaction)
    → sum_by (booked month line) rows ≡ sum_by (spent_on month line) rows
sum_by-spent_on month line [] = refl
sum_by-spent_on month line (r ∷ rows) =
    rw (booked-eq_spent_on month line r, sum_by-spent_on month line rows) refl

spend-lookup :
    (month category : Str) (m : List (Str × ℕ)) (rows : List Transaction)
    → or_zero (lookup category (spend month m rows))
      ≡ or_zero (lookup category m) + sum_by (booked month category) rows
unfolding spend
spend-lookup month category m [] = omega arith
spend-lookup month category m (r ∷ rows) = elim (Bool-cases (counts_for month r)) [
  | inr skipped ↦ rw skipped (omega (arith, spend-lookup month category m rows))
  | inl counts ↦
      let m' = upsert (λ o. or_zero o + neg_part r.amount) (spent_category r) m in
      let here : or_zero (lookup category m')
          ≡ or_zero (
              if str_eq (spent_category r) category
              then some (or_zero (lookup (spent_category r) m) + neg_part r.amount)
              else lookup category m) =
        ap or_zero
          (lookup-upsert (λ o. or_zero o + neg_part r.amount) (spent_category r) category m) in
      let rest = spend-lookup month category m' rows in
      rw counts (elim (Bool-cases (str_eq (spent_category r) category)) [
        | inl same ↦
            let at =
              ap (λ j. or_zero (lookup j m)) (eq_of_str_eq (spent_category r) category same) in
            rw same (omega (arith, rest, rw same at here, at))
        | inr other ↦ rw other (omega (arith, rest, rw other at here))
      ])
]

ratio-bound :
    (actual : ℕ) (cap : ℤ) → (ratio_of actual cap).num * 100 ≤ 999 * (ratio_of actual cap).den
ratio-bound actual cap = ground arith

-- The line of the budget a status is about, and what `budgetStatus` says of it.
abbrev pub IsStatusOf : List Transaction → Str → BudgetLine → BudgetStatus → Type 0
IsStatusOf rows month b s =
    (s.category ≡ b.category)
    × (s.cap ≡ b.cap)
    × (s.actual ≡ sum_by (spent_on month b.category) rows)
    × (s.over ≡ ltb_ℤ b.cap (pos s.actual))
    × (s.ratio.num * 100 ≤ 999 * s.ratio.den)

status_of-IsStatusOf :
    (rows : List Transaction) (month : Str) (b : BudgetLine)
    → IsStatusOf rows month b (status_of (spend month [] rows) b)
unfolding lookup
status_of-IsStatusOf rows month b = (
  refl,
  refl,
  omega (arith, spend-lookup month b.category [] rows, sum_by-spent_on month b.category rows),
  refl,
  ratio-bound (or_zero (lookup b.category (spend month [] rows))) b.cap,
)

-- Each status of `budgetStatus` belongs to a budget line, and its `actual` is the sum of the outflows
-- of exactly the rows of that month, by the first seven code units of their dates, that belong to the
-- line: those with its category, where rows without one belong to the line "(uncategorized)" and none
-- to a line without a category; `over` says whether that exceeds the cap, and the ratio is at most
-- 9.99.
pub budget_status_entry :
    (rows : List Transaction) (month : Str) (budgets : List BudgetLine) (s : BudgetStatus)
    → Member s (budget_status rows month budgets)
    → (b : BudgetLine) × Member b budgets × IsStatusOf rows month b s
unfolding budget_status
budget_status_entry rows month budgets s there =
    let (b, listed, same) =
      Member-of-map (status_of (spend month [] rows)) s budgets
        (Member-of-sort less_spent s (map (status_of (spend month [] rows)) budgets) there) in
    (b, listed, rw same (status_of-IsStatusOf rows month b))
