-- ===== src/Staff.antt =====
-- internal/service/staffauth.go: the principal and its permissions.
pub mod Principal
pub mod Scope
