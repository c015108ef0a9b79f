-- ===== src/Sessions.antt =====
-- The customer's sessions: internal/repository/postgres/customer_session_repository.go (`Table`) and
-- the refresh and logout of internal/service/customerauth.go (`Refresh`).
pub mod Table
pub mod Refresh
pub mod Reuse
