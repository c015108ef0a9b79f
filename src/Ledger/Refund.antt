-- ===== src/Ledger/Refund.antt =====
-- `LedgerRepository.PostRefund`.
use promo_go.Base.{Bool, true, false, Option, none, some, if◌then◌else◌, not}
use promo_go.Base.Int.{ℤ, pos, ltb_ℤ, ◌-ℤ◌, wrap64}
use promo_go.Domain.{
  Error, internal, insufficient_balance, not_found, cannot_refund_refund, over_refund, Balance,
  Transaction, TransactionType, accrual, redeem, refund, OutboxEntry,
}
use promo_go.Domain.Decimals.{Decimals, equal, greater_than, is_positive, share}
use promo_go.Ledger.Tables.{
  Call, begin_tx, adjust, commit, lock_original, update_original, Sql, pure, gets, modify, call,
  or_fail, fail_if, ◌>>=◌, ◌>>◌, find_by_id, set_refunded, adjust_balance, insert_transaction,
  insert_outbox_entry,
}
use promo_go.Ledger.Post.{ensure}

-- `-x` on int64.
abbrev pub neg64 : ℤ → ℤ
neg64 x = wrap64 (pos 0 -ℤ x)

-- The magnitude of the original's point effect.
unfoldable pub original_points : ℤ → ℤ
original_points d = if ltb_ℤ d (pos 0) then neg64 d else d

-- What the `switch` on the original's type makes of the points that this refund returns: the
-- delta, and whether the balance may become negative.
unfoldable pub direction : TransactionType → ℤ → Option (ℤ × Bool)
direction accrual points = some (neg64 points, true)
direction redeem points = some (points, false)
direction refund points = none

abbrev pub is_refund : TransactionType → Bool
is_refund refund = true
is_refund accrual = false
is_refund redeem = false

-- The error of an adjustment that returned no row.
abbrev pub no_row : Bool → Error
no_row true = internal
no_row false = insufficient_balance

abbrev pub build : Option (ℤ → Option OutboxEntry) → ℤ → Option OutboxEntry
build none delta = none
build (some f) delta = f delta

module _ (lib : Decimals) (io : Call → Bool) where
  open lib use {Decimal, add, dec_zero, to_numeric}

  -- The points that all refunds so far, this one included, have returned.
  unfoldable pub cumulative_points : Transaction Decimal → Decimal → ℤ
  unfolding original_points
  cumulative_points original refunded =
      if equal lib refunded original.amount
      then original_points original.points_delta
      else if is_positive lib original.amount
      then share lib (original_points original.points_delta) refunded original.amount
      else pos 0

  -- The row that the INSERT of a refund makes.
  abbrev pub refund_row :
      Transaction Decimal → Transaction Decimal → ℤ → ℤ → Decimal → Transaction Decimal
  refund_row r original delta q refunded = record r {
    client_id = original.client_id;
    currency = original.currency;
    tx_type = refund;
    points_delta = delta;
    balance_after = q;
    rule_version = none;
    original_transaction_id = some original.id;
    refunded_amount = dec_zero;
    refunded_points = pos 0;
    refund_cumulative_amount = refunded;
    refund_fully_refunded = equal lib refunded original.amount;
  }

  -- What the caller's struct is after the call.
  abbrev pub posted_refund : Transaction Decimal → Transaction Decimal → Transaction Decimal
  posted_refund r row = record row {
    rule_version = r.rule_version;
    refunded_amount = r.refunded_amount;
    refunded_points = r.refunded_points;
  }

  -- From the update of the original on.
  unfoldable pub apply_refund :
      Transaction Decimal
      → Option (ℤ → Option OutboxEntry)
      → Transaction Decimal
      → Decimal
      → ℤ
      → ℤ
      → Bool
      → Sql Decimal (Transaction Decimal × Transaction Decimal × Balance)
  unfolding adjust_balance insert_transaction
  apply_refund r build_notify original refunded cumulative delta may_be_negative = do
    call io update_original
    modify (λ db. record db {
      transactions = set_refunded original.id (to_numeric refunded) cumulative db.transactions;
    })
    ensure lib io original.client_id
    call io adjust
    found ← adjust_balance (not may_be_negative) original.client_id delta
    q ← or_fail found (no_row may_be_negative)
    row ← insert_transaction lib io (refund_row r original delta q refunded)
    insert_outbox_entry io (build build_notify delta)
    call io commit
    pure (
      posted_refund r row,
      record original { refunded_amount = refunded; refunded_points = cumulative },
      record { client_id = original.client_id; points = q },
    )

  unfoldable pub post_refund :
      Transaction Decimal
      → Option (ℤ → Option OutboxEntry)
      → Sql Decimal (Transaction Decimal × Transaction Decimal × Balance)
  unfolding cumulative_points direction apply_refund
  post_refund r build_notify = do
    call io begin_tx
    original_id ← or_fail r.original_transaction_id internal
    call io lock_original
    found_original ← gets (λ db. find_by_id original_id r.store_id db.transactions)
    original ← or_fail found_original not_found
    fail_if (is_refund original.tx_type) cannot_refund_refund
    let refunded = add original.refunded_amount r.amount
    fail_if (greater_than lib refunded original.amount) over_refund
    let cumulative = cumulative_points original refunded
    let this_refund = wrap64 (cumulative -ℤ original.refunded_points)
    (delta, may_be_negative) ← or_fail (direction original.tx_type this_refund) internal
    apply_refund r build_notify original refunded cumulative delta may_be_negative
