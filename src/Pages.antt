-- ===== src/Pages.antt =====
-- web/src/pages and web/src/components: the handlers of the pages.
pub mod Confirmation
pub mod SignIn
pub mod TransactionForm
pub mod Transactions
pub mod Accounts
pub mod Budgets
pub mod DevCrypto
pub mod Tests
