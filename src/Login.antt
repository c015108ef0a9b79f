-- ===== src/Login.antt =====
-- A customer's login: VerifyOTP of internal/service/customerauth.go.
pub mod Account
pub mod Verify
pub mod Laws
