-- ===== src/Pages/Budgets.antt =====
-- web/src/pages/BudgetsPage.tsx: the caps of the session and `addBudget`. `Number` of the cap's text is
-- an argument.
use mathlib.Core.List.{append-nil}
use fincrypt.Prelude.{
  ap, sym, ◌∙◌, ℤ, Bool, false, not, Option, none, some, List, [], ◌∷◌, ◌++◌, Str, trim, length,
  ◌==◌, ◌≡◌, refl, inl, inr, str_eq, eq_of_str_eq, if◌then◌else◌, keep_if, Bool-cases, arith,
}
use fincrypt.Domain.Summaries.{Transaction, BudgetLine, BudgetStatus, budget_status}

pub record Page : Type 0 where
  pub rows : List Transaction
  pub budgets : List BudgetLine
  pub month : Str
  pub new_category : Str
  pub new_cap : Str

abbrev pub other_than : Str → BudgetLine → Bool
other_than category b = not (str_eq b.category category)

-- The new line behind the lines of the other categories.
unfoldable pub with_line : BudgetLine → List BudgetLine → List BudgetLine
with_line line budgets = keep_if (other_than line.category) budgets ++ line ∷ []

abbrev pub add_if : Option ℤ → Page → Page
add_if none page = page
add_if (some cap) page = if length (trim page.new_category) == 0 then page else record page {
  budgets = with_line (record { category = trim page.new_category; cap = cap }) page.budgets;
  new_category = [];
  new_cap = [];
}

-- `addBudget`; `none` is `NaN`.
unfoldable pub add_budget : (to_number : Str → Option ℤ) → Page → Page
add_budget to_number page = add_if (to_number page.new_cap) page

abbrev pub status : Page → List BudgetStatus
status page = budget_status page.rows page.month page.budgets

-- The lines of a category.
abbrev pub lines_of : Str → List BudgetLine → List BudgetLine
lines_of category budgets = keep_if (λ b. str_eq b.category category) budgets

lines_of-others :
    (category : Str) (budgets : List BudgetLine)
    → lines_of category (keep_if (other_than category) budgets) ≡ []
lines_of-others category [] = refl
lines_of-others category (b ∷ budgets) = ground (arith, lines_of-others category budgets)

lines_of-kept :
    (category other : Str) (budgets : List BudgetLine)
    → str_eq other category ≡ false
    → lines_of category (keep_if (other_than other) budgets) ≡ lines_of category budgets
lines_of-kept category other [] differs = refl
lines_of-kept category other (b ∷ budgets) differs = elim (Bool-cases (str_eq b.category other)) [
  | inl same ↦
      let apart : str_eq b.category category ≡ false =
        rw (eq_of_str_eq b.category other same) differs in
      rw (same, apart) (lines_of-kept category other budgets differs)
  | inr kept ↦ rw kept (ground (arith, lines_of-kept category other budgets differs))
]

lines_of-append :
    (category : Str) (budgets more : List BudgetLine)
    → lines_of category (budgets ++ more) ≡ lines_of category budgets ++ lines_of category more
lines_of-append category [] more = refl
lines_of-append category (b ∷ budgets) more = ground (arith, lines_of-append category budgets more)

-- With a category that is not empty and a cap that is a number, `addBudget` leaves one line for the
-- category, with that cap, and the lines of every other category as they were.
pub add_budget-lines_of :
    (to_number : Str → Option ℤ) (page : Page) (cap : ℤ) (category : Str)
    → to_number page.new_cap ≡ some cap
    → (length (trim page.new_category) == 0) ≡ false
    → lines_of category (add_budget to_number page).budgets ≡ (
        if str_eq (trim page.new_category) category
        then record { category = trim page.new_category; cap = cap } ∷ []
        else lines_of category page.budgets)
unfolding add_budget with_line
add_budget-lines_of to_number page cap category number named =
    let line : BudgetLine = record { category = trim page.new_category; cap = cap } in
    let others = keep_if (other_than line.category) page.budgets in
    rw (number, named)
      (lines_of-append category others (line ∷ [])
        ∙ elim (Bool-cases (str_eq line.category category)) [
          | inl same ↦ rw same (
              ap (λ c. lines_of c others ++ line ∷ [])
                (sym (eq_of_str_eq line.category category same))
              ∙ ap (λ ls. ls ++ line ∷ []) (lines_of-others line.category page.budgets))
          | inr differs ↦ rw differs (
              append-nil (lines_of category others)
              ∙ lines_of-kept category line.category page.budgets differs)
        ])
