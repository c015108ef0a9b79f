-- ===== src/Loyalty/Refund.antt =====
-- `LoyaltyService.Refund` with `resolveOriginalTransaction` and `replayedRefund`.
use promo_go.Base.{ℕ, Bool, true, false, Option, none, some, Text, text_eq, if◌then◌else◌, []}
use promo_go.Base.Int.{ℤ, pos}
use promo_go.Domain.{
  Result, ok, err, conflict, not_found, ambiguous_original, idempotency_conflict, Balance,
  Transaction, TransactionType, accrual, redeem, refund, OutboxEntry, unset,
}
use promo_go.Domain.Decimals.{Decimals, equal}
use promo_go.Ledger.Tables.{Db, Call}
use promo_go.Ledger.Refund.{post_refund}
use promo_go.Templates.{refund_adjusted}
use promo_go.Loyalty.Accrue.{entry, zero_time}
use promo_go.Loyalty.Fingerprints.{refund_fingerprint, outbox_dedupe_key}
use promo_go.Loyalty.Queries.{
  Service, pure, fail, ◌>>=◌, ◌>>◌, transact, meanwhile, get_by_external_id,
}

-- `original_type` is `none` for the empty string.
pub record RefundRequest (D : Type 0) : Type 0 where
  pub store_id : ℕ
  pub external_tx_id : Text
  pub original_external_tx_id : Text
  pub original_type : Option TransactionType
  pub amount : D

pub record RefundResult (D : Type 0) : Type 0 where
  pub client_id : ℕ
  pub points_reversed : ℤ
  pub balance : ℤ
  pub refunded_amount_total : D
  pub fully_refunded : Bool
  pub replayed : Bool

module _ (lib : Decimals) (io : Call → Bool) where
  open lib use {Decimal, dec_zero, format_int}

  -- The final `switch`.
  abbrev pub choose :
      Option (Transaction Decimal)
      → Option (Transaction Decimal)
      → Service Decimal (Transaction Decimal)
  choose (some a) (some b) = fail ambiguous_original
  choose (some a) none = pure a
  choose none (some b) = pure b
  choose none none = fail not_found

  unfoldable pub resolve_original_transaction :
      ℕ → Text → Option TransactionType → Service Decimal (Transaction Decimal)
  unfolding get_by_external_id
  resolve_original_transaction store_id x (some t) = do
    found ← get_by_external_id lib io store_id t x
    choose found none
  resolve_original_transaction store_id x none = do
    by_accrual ← get_by_external_id lib io store_id accrual x
    by_redeem ← get_by_external_id lib io store_id redeem x
    choose by_accrual by_redeem

  unfoldable pub replayed_refund :
      ℕ → Text → ℕ → Decimal → Service Decimal (Option (RefundResult Decimal))
  unfolding get_by_external_id
  replayed_refund store_id external_tx_id original_id amount = do
    existing ← get_by_external_id lib io store_id refund external_tx_id
    elim existing [
      | none ↦ pure none
      | some tx ↦
          (if text_eq tx.request_fingerprint (refund_fingerprint lib original_id amount)
            then pure (
                some (record {
                  client_id = tx.client_id;
                  points_reversed = tx.points_delta;
                  balance = tx.balance_after;
                  refunded_amount_total = tx.refund_cumulative_amount;
                  fully_refunded = tx.refund_fully_refunded;
                  replayed = true;
                }))
            else fail idempotency_conflict)
    ]

  abbrev pub refund_draft : RefundRequest Decimal → ℕ → Transaction Decimal
  refund_draft req original_id = record {
    id = 0;
    store_id = req.store_id;
    client_id = 0;
    external_tx_id = req.external_tx_id;
    amount = req.amount;
    currency = [];
    tx_type = refund;
    points_delta = pos 0;
    balance_after = pos 0;
    request_fingerprint = refund_fingerprint lib original_id req.amount;
    created_at = zero_time;
    rule_version = none;
    original_transaction_id = some original_id;
    refunded_amount = dec_zero;
    refunded_points = pos 0;
    refund_cumulative_amount = dec_zero;
    refund_fully_refunded = false;
  }

  abbrev pub build_notify : RefundRequest Decimal → ℕ → Option (ℤ → Option OutboxEntry)
  build_notify req client_id = some (λ delta. some (
      entry client_id unset (refund_adjusted format_int delta)
        (outbox_dedupe_key lib req.store_id refund req.external_tx_id)))

  unfoldable pub refunded :
      RefundRequest Decimal
      → ℕ
      → Result (Transaction Decimal × Transaction Decimal × Balance) × Db Decimal
      → Result (Option (RefundResult Decimal)) × Db Decimal
  refunded req original_id (ok (tx, original, balance), db) = (
    ok (
        some (record {
          client_id = tx.client_id;
          points_reversed = tx.points_delta;
          balance = balance.points;
          refunded_amount_total = original.refunded_amount;
          fully_refunded = equal lib original.refunded_amount original.amount;
          replayed = false;
        })),
    db,
  )
  refunded req original_id (err conflict, db) =
      replayed_refund req.store_id req.external_tx_id original_id req.amount db
  refunded req original_id (err e, db) = (err e, db)

  unfoldable pub refund_transaction :
      (Db Decimal → Db Decimal)
      → RefundRequest Decimal
      → Service Decimal (Option (RefundResult Decimal))
  unfolding refunded
  refund_transaction others req = do
    original ←
        resolve_original_transaction req.store_id req.original_external_tx_id req.original_type
    replay ← replayed_refund req.store_id req.external_tx_id original.id req.amount
    elim replay [
      | some result ↦ pure (some result)
      | none ↦ (do
        meanwhile others
        λ db. refunded req original.id (
            transact
              (post_refund lib io (refund_draft req original.id)
                (build_notify req original.client_id))
              db))
    ]
