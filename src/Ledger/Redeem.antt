-- ===== src/Ledger/Redeem.antt =====
-- `LedgerRepository.PostRedeemChecked`.
use promo_go.Base.{ℕ, Bool, true, false, Option, not}
use promo_go.Base.Int.{ℤ, pos, ltb_ℤ, ◌-ℤ◌, wrap64, in_int64}
use promo_go.Domain.{
  ok, internal, insufficient_balance, daily_redeem_limit_exceeded, Balance, Transaction,
  OutboxEntry,
}
use promo_go.Domain.Decimals.{Decimals}
use promo_go.Ledger.Tables.{
  Call, begin_tx, adjust, commit, lock_balance, window_sum, Sql, pure, gets, call, or_fail, fail_if,
  ◌>>=◌, ◌>>◌, points_of, adjust_balance, insert_transaction, insert_outbox_entry, redeemed_since,
}
use promo_go.Ledger.Post.{plain_row, posted, ensure}

module _ (lib : Decimals) (io : Call → Bool) where
  open lib use {Decimal}

  -- The anti-fraud check; a limit of zero turns it off.
  unfoldable pub check_window : Transaction Decimal → ℤ → ℕ → Sql Decimal (Unit {0})
  check_window tx daily_limit window db = elim (ltb_ℤ (pos 0) daily_limit) [
    | true ↦
        (do
          call io window_sum
          sum ← gets (λ d. redeemed_since tx.client_id d.now window d.transactions)
          fail_if (not (in_int64 sum)) internal
          fail_if (ltb_ℤ daily_limit (wrap64 (sum -ℤ tx.points_delta))) daily_redeem_limit_exceeded)
          db
    | false ↦ ok (tt, db)
  ]

  unfoldable pub post_redeem_checked :
      Transaction Decimal
      → ℤ
      → ℤ
      → ℕ
      → Option OutboxEntry
      → Sql Decimal (Transaction Decimal × Balance)
  unfolding check_window adjust_balance insert_transaction
  post_redeem_checked tx min_balance daily_limit window notify = do
    call io begin_tx
    ensure lib io tx.client_id
    call io lock_balance
    locked ← gets (λ db. points_of tx.client_id db.balances)
    current ← or_fail locked internal
    fail_if (ltb_ℤ current min_balance) insufficient_balance
    check_window tx daily_limit window
    call io adjust
    found ← adjust_balance true tx.client_id tx.points_delta
    q ← or_fail found insufficient_balance
    row ← insert_transaction lib io (plain_row lib io tx q)
    insert_outbox_entry io notify
    call io commit
    pure (posted lib io tx row, record { client_id = tx.client_id; points = q })
