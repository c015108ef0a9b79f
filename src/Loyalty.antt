-- ===== src/Loyalty.antt =====
-- internal/service/loyalty.go: accrual, redemption and refund. `Queries` has the repositories'
-- reads and the unit in which a use case runs; each use case has a file, and so has what is proved
-- of it.
pub mod Queries
pub mod Fingerprints
pub mod Distinct
pub mod Accrue
pub mod Redeem
pub mod RedeemReplay
pub mod Refund
pub mod RefundReplay
