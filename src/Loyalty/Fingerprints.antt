-- ===== src/Loyalty/Fingerprints.antt =====
-- The canonical encodings of requests (accrualFingerprint, redeemFingerprint, refundFingerprint)
-- and the outbox's key.
use promo_go.Base.{ℕ, ◌∷◌, ◌++◌, Text, codes}
use promo_go.Base.Int.{ℤ, pos}
use promo_go.Domain.{TransactionType, accrual, redeem, refund}
use promo_go.Domain.Decimals.{Decimals}

module _ (lib : Decimals) where
  open lib use {Decimal, format_int, string_fixed}

  unfoldable pub accrual_fingerprint : ℕ → Decimal → Text
  accrual_fingerprint client_id amount =
      codes "client=" ++ (format_int (pos client_id) ++ (codes ";amount=" ++ string_fixed amount 2))

  unfoldable pub redeem_fingerprint : ℕ → Decimal → ℤ → Text
  redeem_fingerprint client_id amount points =
      codes "client="
      ++ (format_int (pos client_id)
          ++ (codes ";amount="
              ++ (string_fixed amount 2 ++ (codes ";points=" ++ format_int points))))

  unfoldable pub refund_fingerprint : ℕ → Decimal → Text
  refund_fingerprint original_id amount =
      codes "original="
      ++ (format_int (pos original_id) ++ (codes ";amount=" ++ string_fixed amount 2))

  abbrev pub type_name : TransactionType → Text
  type_name accrual = codes "accrual"
  type_name redeem = codes "redeem"
  type_name refund = codes "refund"

  unfoldable pub outbox_dedupe_key : ℕ → TransactionType → Text → Text
  outbox_dedupe_key store_id t external_tx_id =
      format_int (pos store_id) ++ (b':' ∷ (type_name t ++ (b':' ∷ external_tx_id)))
