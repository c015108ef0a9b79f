-- ===== src/Ledger.antt =====
-- internal/repository/postgres/ledger_repository.go: the three methods that post a transaction,
-- each one database transaction. `Tables` has the tables and the statements; `Post`, `Redeem` and
-- `Refund` have the methods; the other children have what is proved of them.
pub mod Tables
pub mod Balances
pub mod Effects
pub mod RefundEffects
pub mod Invariant
pub mod History
pub mod Share
pub mod Conserve
pub mod Post
pub mod Redeem
pub mod Refund
