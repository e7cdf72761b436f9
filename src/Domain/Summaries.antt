-- ===== src/Domain/Summaries.antt =====
-- web/src/domain/summaries.ts. Amounts, caps and sums are whole numbers of minor units, where the
-- code adds floating-point numbers; `localeCompare`, which goes by the locale, is an argument.
pub mod Totals
pub mod Grouping
pub mod Months
pub mod Budgets
use fincrypt.Prelude.{
  ℕ, ◌+◌, ◌*◌, ◌||◌, ◌&&◌, not, Bool, true, false, Option, none, some, List, [], ◌∷◌, ◌++◌, map,
  Str, codes, take, length, ltb, leb, ◌==◌, str_eq, if◌then◌else◌, ℤ, pos, pos_part, neg_part,
  ltb_ℤ, ◌-ℤ◌, upsert, lookup, values, sort,
}

-- The fields of a `TransactionData` that the summaries read.
pub record Transaction : Type 0 where
  pub amount : ℤ
  pub date : Str
  pub category : Str

pub record CategoryMonth : Type 0 where
  pub month : Str
  pub category : Str
  pub expense : ℕ
  pub income : ℕ

-- r.date.slice(0, 7)
abbrev pub month_of : Transaction → Str
month_of r = take 7 r.date

abbrev pub is_outflow : Transaction → Bool
is_outflow r = ltb_ℤ r.amount (pos 0)

-- month + '|' + category
abbrev pub category_key : Str → Str → Str
category_key month category = month ++ (codes "|" ++ category)

abbrev pub row_key : Transaction → Str
row_key r = category_key (month_of r) r.category

abbrev pub or_new : Transaction → Option CategoryMonth → CategoryMonth
or_new r none = record { month = month_of r; category = r.category; expense = 0; income = 0 }
or_new r (some e) = e

abbrev pub book : Transaction → CategoryMonth → CategoryMonth
book r e =
    if is_outflow r
    then record e { expense = e.expense + neg_part r.amount }
    else record e { income = e.income + pos_part r.amount }

-- The loop of `byCategoryMonth`.
pub group : List (Str × CategoryMonth) → List Transaction → List (Str × CategoryMonth)
group m [] = m
group m (r ∷ rows) = group (upsert (λ o. book r (or_new r o)) (row_key r) m) rows

pub record MonthTotals : Type 0 where
  pub month : Str
  pub income : ℕ
  pub expense : ℕ
  pub net : ℤ

abbrev pub or_new_month : Transaction → Option MonthTotals → MonthTotals
or_new_month r none = record { month = month_of r; income = 0; expense = 0; net = pos 0 }
or_new_month r (some e) = e

abbrev pub book_month : Transaction → MonthTotals → MonthTotals
book_month r e =
    if is_outflow r
    then record e { expense = e.expense + neg_part r.amount }
    else record e { income = e.income + pos_part r.amount }

-- entry.net = entry.income - entry.expense
abbrev pub with_net : MonthTotals → MonthTotals
with_net e = record e { net = pos e.income -ℤ pos e.expense }

-- The loop of `monthlyTotals`.
pub group_months : List (Str × MonthTotals) → List Transaction → List (Str × MonthTotals)
group_months m [] = m
group_months m (r ∷ rows) =
    group_months (upsert (λ o. with_net (book_month r (or_new_month r o))) (month_of r) m) rows

pub record BudgetLine : Type 0 where
  pub category : Str
  pub cap : ℤ

-- A ratio as a fraction.
pub record Ratio : Type 0 where
  pub num : ℕ
  pub den : ℕ

pub record BudgetStatus : Type 0 where
  pub category : Str
  pub cap : ℤ
  pub actual : ℕ
  pub ratio : Ratio
  pub over : Bool

abbrev pub capped : Ratio
capped = record { num = 999; den = 100 }

-- b.cap > 0 ? Math.min(actual / b.cap, 9.99) : actual > 0 ? 9.99 : 0
abbrev pub ratio_of : ℕ → ℤ → Ratio
ratio_of actual cap =
    if ltb_ℤ (pos 0) cap
    then (if leb (actual * 100) (999 * pos_part cap)
        then record { num = actual; den = pos_part cap }
        else capped)
    else if ltb 0 actual
    then capped
    else record { num = 0; den = 1 }

abbrev pub spent_category : Transaction → Str
spent_category r = if length r.category == 0 then codes "(uncategorized)" else r.category

abbrev pub counts_for : Str → Transaction → Bool
counts_for month r = str_eq (month_of r) month && is_outflow r

abbrev pub or_zero : Option ℕ → ℕ
or_zero none = 0
or_zero (some n) = n

-- The loop of `budgetStatus`.
pub spend : Str → List (Str × ℕ) → List Transaction → List (Str × ℕ)
spend month m [] = m
spend month m (r ∷ rows) =
    spend month
      (if counts_for month r
        then upsert (λ o. or_zero o + neg_part r.amount) (spent_category r) m
        else m)
      rows

abbrev pub status_of : List (Str × ℕ) → BudgetLine → BudgetStatus
status_of spent b =
    let actual = or_zero (lookup b.category spent) in
    record {
      category = b.category;
      cap = b.cap;
      actual = actual;
      ratio = ratio_of actual b.cap;
      over = ltb_ℤ b.cap (pos actual);
    }

-- `sort` with (a, b) ↦ b.actual - a.actual
abbrev pub less_spent : BudgetStatus → BudgetStatus → Bool
less_spent a b = ltb a.actual b.actual

unfoldable pub budget_status : List Transaction → Str → List BudgetLine → List BudgetStatus
unfolding spend
budget_status rows month budgets = sort less_spent (map (status_of (spend month [] rows)) budgets)

-- `locale_less a b` is `a.localeCompare(b) < 0`.
module _ (locale_less : Str → Str → Bool) where
  abbrev pub category_later : CategoryMonth → CategoryMonth → Bool
  category_later a b =
      if str_eq a.month b.month
      then locale_less b.category a.category
      else locale_less b.month a.month

  unfoldable pub by_category_month : List Transaction → List CategoryMonth
  unfolding group
  by_category_month rows = sort category_later (values (group [] rows))

  unfoldable pub monthly_totals : List Transaction → List MonthTotals
  unfolding group_months
  monthly_totals rows = sort (λ a b. locale_less b.month a.month) (values (group_months [] rows))
