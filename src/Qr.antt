-- ===== src/Qr.antt =====
-- internal/service/qr_store.go and internal/service/qr.go: one-time QR tokens in Redis, and their
-- exchange for a client of the calling store.
pub mod Store
pub mod Resolve
pub mod OneTime
pub mod Cooldown
pub mod OwnStore
