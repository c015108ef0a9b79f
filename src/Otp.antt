-- ===== src/Otp.antt =====
-- internal/service/otp_store.go and the OTP half of internal/service/customerauth.go: one-time
-- codes in Redis. `hash` is SHA-256 (auth.HashOpaqueToken), a parameter.
pub mod Store
pub mod Verify
pub mod Request
