-- ===== src/Domain/Errors.antt =====
-- internal/domain/errors.go: the sentinel errors, and a call's result. `internal` stands for every
-- error that wraps no sentinel (an unreachable database, a query that fails, an unknown mechanic).

pub data Error : Type 0 where
  not_found conflict insufficient_balance idempotency_conflict : Error
  cannot_refund_refund over_refund ambiguous_original daily_redeem_limit_exceeded : Error
  session_reused invalid_loyalty_config internal : Error

pub data Result {ℓ} (A : Type ℓ) : Type ℓ where
  ok : A → Result A
  err : Error → Result A
