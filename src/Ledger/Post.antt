-- ===== src/Ledger/Post.antt =====
-- `LedgerRepository.Post`.
use promo_go.Base.{ℕ, Bool, true, false, Option, none, List, [], ◌∷◌, Text, codes}
use promo_go.Base.Int.{ℤ, pos}
use promo_go.Domain.{insufficient_balance, Balance, Transaction, OutboxEntry}
use promo_go.Domain.Decimals.{Decimals}
use promo_go.Ledger.Tables.{
  Call, begin_tx, ensure_row, adjust, commit, Sql, pure, modify, call, or_fail, ◌>>=◌, ◌>>◌,
  ensure_balance_row, adjust_balance, insert_transaction, insert_outbox_entries, with_balances,
}

abbrev pub default_currency : Text
default_currency = codes "RUB"

abbrev pub or_default : Text → Text
or_default [] = default_currency
or_default (c ∷ cs) = c ∷ cs

module _ (lib : Decimals) (io : Call → Bool) where
  open lib use {Decimal, dec_zero}

  -- The row that the INSERT of a transaction which is no refund makes: the columns that it does
  -- not name keep their defaults.
  abbrev pub plain_row : Transaction Decimal → ℤ → Transaction Decimal
  plain_row tx q = record tx {
    currency = or_default tx.currency;
    balance_after = q;
    original_transaction_id = none;
    refunded_amount = dec_zero;
    refunded_points = pos 0;
    refund_cumulative_amount = dec_zero;
    refund_fully_refunded = false;
  }

  -- What the caller's struct is after the call.
  abbrev pub posted : Transaction Decimal → Transaction Decimal → Transaction Decimal
  posted tx row = record tx {
    id = row.id;
    created_at = row.created_at;
    currency = row.currency;
    balance_after = row.balance_after;
  }

  abbrev pub ensure : ℕ → Sql Decimal (Unit {0})
  ensure c = do
    call io ensure_row
    modify (λ db. with_balances (ensure_balance_row c db.balances) db)

  unfoldable pub post :
      Transaction Decimal → List (Option OutboxEntry) → Sql Decimal (Transaction Decimal × Balance)
  unfolding adjust_balance insert_transaction insert_outbox_entries
  post tx notify = do
    call io begin_tx
    ensure tx.client_id
    call io adjust
    found ← adjust_balance true tx.client_id tx.points_delta
    q ← or_fail found insufficient_balance
    row ← insert_transaction lib io (plain_row tx q)
    insert_outbox_entries io notify
    call io commit
    pure (posted tx row, record { client_id = tx.client_id; points = q })
