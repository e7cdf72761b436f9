-- ===== src/Domain/Tests.antt =====
-- Runs of the summaries.
pub mod Vault
pub mod Envelopes
pub mod Searches
pub mod Stale
use fincrypt.Prelude.{
  includes, upsert, lookup, sort, true, ◌≡◌, refl, List, [], ◌∷◌, Str, codes, pos, negsuc, str_lt,
  str_eq, sum_by, Member, inl, if◌then◌else◌, ◌-ℤ◌,
}
use fincrypt.Domain.Summaries.{
  Transaction, CategoryMonth, MonthTotals, BudgetLine, BudgetStatus, by_category_month,
  monthly_totals, budget_status, month_of,
}
use fincrypt.Domain.Summaries.Totals.{
  outflow, inflow, books_to, by_category_month_conserves, by_category_month_entry,
}
use fincrypt.Domain.Summaries.Months.{monthly_totals_entry, monthly_totals_conserves}
use fincrypt.Domain.Summaries.Budgets.{IsStatusOf, budget_status_entry}

abbrev rows : List Transaction
rows =
    record { amount = negsuc 499; date = codes "2024-01-05"; category = codes "food" }
    ∷ record { amount = pos 9000; date = codes "2024-01-31"; category = codes "pay" }
    ∷ record { amount = negsuc 249; date = codes "2024-01-07"; category = codes "food" }
    ∷ []

abbrev january : Str
january = codes "2024-01"

abbrev food : CategoryMonth
food = record { month = january; category = codes "food"; expense = 750; income = 0 }

by_category_month_entry_example :
    (750 ≡ sum_by (λ r. if books_to food r then outflow r else 0) rows)
    × (0 ≡ sum_by (λ r. if books_to food r then inflow r else 0) rows)
unfolding by_category_month sort upsert str_eq str_lt includes
by_category_month_entry_example =
    by_category_month_entry str_lt rows food refl (refl, (refl, (refl, tt))) (inl refl)

abbrev food_budget : BudgetLine
food_budget = record { category = codes "food"; cap = pos 600 }

abbrev food_status : BudgetStatus
food_status = record {
  category = codes "food";
  cap = pos 600;
  actual = 750;
  ratio = record { num = 750; den = 600 };
  over = true;
}

budget_status_example :
    (b : BudgetLine) × Member b (food_budget ∷ []) × IsStatusOf rows january b food_status
unfolding budget_status sort lookup str_eq upsert
budget_status_example = budget_status_entry rows january (food_budget ∷ []) food_status (inl refl)
