-- ===== src/Ledger/RefundEffects.antt =====
-- The effects of `PostRefund` on the tables.
use promo_go.Base.{suc, ◌≡◌, Bool, false, Option, none, some, List, ◌∷◌, arith, ◌≢◌, true, ◌⊎◌}
use promo_go.Base.Int.{ℤ, pos, ◌+ℤ◌, ◌-ℤ◌, ◌≤ℤ◌, wrap64}
use promo_go.Domain.{
  ok, Balance, Transaction, OutboxEntry, TransactionType, accrual, redeem, refund,
}
use promo_go.Domain.Decimals.{Decimals, greater_than}
use promo_go.Ledger.Tables.{
  Db, Call, find_by_id, find_tx, ensure_balance_row, set_points, set_refunded, stored, kept_row,
}
use promo_go.Ledger.Balances.{value_of, points_of-ensure_balance_row}
use promo_go.Ledger.Effects.{OnlyOutbox, insert_outbox_entry_frame}
use promo_go.Ledger.Refund.{
  neg64, cumulative_points, refund_row, posted_refund, post_refund, is_refund, build, apply_refund,
}

-- The point effect of a refund that returns `points`.
abbrev pub delta_of : TransactionType → ℤ → ℤ
delta_of accrual points = neg64 points
delta_of redeem points = points
delta_of refund points = pos 0

module _ (lib : Decimals) (io : Call → Bool) where
  open lib use {Decimal, add, to_numeric}

  -- The row that the refund names, in the caller's store.
  abbrev pub original_of : Transaction Decimal → Db Decimal → Option (Transaction Decimal)
  original_of r db = elim r.original_transaction_id [
    | none ↦ none
    | some id ↦ find_by_id id r.store_id db.transactions
  ]

  -- What the part from the update of the original on leaves behind, for given cumulative values.
  module _ (r original : Transaction Decimal) (refunded : Decimal) (cumulative delta : ℤ)
      (db : Db Decimal) where
    abbrev pub points_after : ℤ
    points_after = value_of original.client_id db.balances +ℤ delta

    abbrev pub marked_with : List (Transaction Decimal)
    marked_with = set_refunded original.id (to_numeric refunded) cumulative db.transactions

    abbrev pub row_after : Transaction Decimal
    row_after = refund_row lib io r original delta points_after refunded

    -- The tables after the refund, up to the outbox.
    abbrev pub after_apply : Db Decimal
    after_apply = record db {
      balances =
          set_points original.client_id points_after
            (ensure_balance_row original.client_id db.balances);
      transactions = stored lib io (kept_row lib io row_after) db ∷ marked_with;
      next_id = suc db.next_id;
    }

    pub record Applied (may_be_negative : Bool) (r' original' : Transaction Decimal) (b : Balance)
        (db' : Db Decimal) : Type 0 where
      pub fresh : find_tx r.store_id refund r.external_tx_id marked_with ≡ none
      pub balance : b ≡ record { client_id = original.client_id; points = points_after }
      pub covered : (may_be_negative ≡ true) ⊎ (pos 0 ≤ℤ b.points)
      pub updated :
          original' ≡ record original { refunded_amount = refunded; refunded_points = cumulative }
      pub returned : r' ≡ posted_refund lib io r (stored lib io row_after db)
      pub tables : OnlyOutbox after_apply db'

  pub apply_refund-Applied :
      (r : Transaction Decimal) (bn : Option (ℤ → Option OutboxEntry))
      (original : Transaction Decimal) (refunded : Decimal) (cumulative delta : ℤ)
      (may_be_negative : Bool) (db : Db Decimal) {r' original' : Transaction Decimal} {b : Balance}
      {db' : Db Decimal}
      → apply_refund lib io r bn original refunded cumulative delta may_be_negative db
        ≡ ok ((r', original', b), db')
      → Applied r original refunded cumulative delta db may_be_negative r' original' b db'
  unfolding apply_refund
  apply_refund-Applied r bn original refunded cumulative delta may_be_negative db h = ground (
    arith,
    points_of-ensure_balance_row original.client_id db.balances,
    insert_outbox_entry_frame io (build bn delta)
        (after_apply r original refunded cumulative delta db),
  )

  module _ (r original : Transaction Decimal) (db : Db Decimal) where
    abbrev pub refunded_now : Decimal
    refunded_now = add original.refunded_amount r.amount

    abbrev pub returned_now : ℤ
    returned_now = cumulative_points lib io original refunded_now

    abbrev pub delta_now : ℤ
    delta_now = delta_of original.tx_type (wrap64 (returned_now -ℤ original.refunded_points))

    abbrev pub points_now : ℤ
    points_now = points_after r original refunded_now returned_now delta_now db

    abbrev pub marked : List (Transaction Decimal)
    marked = marked_with r original refunded_now returned_now delta_now db

    abbrev pub row_now : Transaction Decimal
    row_now = row_after r original refunded_now returned_now delta_now db

    abbrev pub after_refund : Db Decimal
    after_refund = after_apply r original refunded_now returned_now delta_now db

    pub record Refunded (r' original' : Transaction Decimal) (b : Balance) (db' : Db Decimal)
        : Type 0 where
      pub reversible : is_refund original.tx_type ≡ false
      pub within : greater_than lib refunded_now original.amount ≡ false
      pub fresh : find_tx r.store_id refund r.external_tx_id marked ≡ none
      pub balance : b ≡ record { client_id = original.client_id; points = points_now }
      pub covered : (original.tx_type ≡ accrual) ⊎ (pos 0 ≤ℤ b.points)
      pub updated :
          original'
          ≡ record original { refunded_amount = refunded_now; refunded_points = returned_now }
      pub returned : r' ≡ posted_refund lib io r (stored lib io row_now db)
      pub tables : OnlyOutbox after_refund db'

  -- With no original to be found there is no refund.
  pub post_refund_no_original :
      (r : Transaction Decimal) (bn : Option (ℤ → Option OutboxEntry)) (db : Db Decimal)
      {a : Transaction Decimal × Transaction Decimal × Balance} {db' : Db Decimal}
      → original_of r db ≡ none
      → post_refund lib io r bn db ≢ ok (a, db')
  unfolding post_refund
  post_refund_no_original r bn db missing h = ground arith

  -- A successful `PostRefund` found an original that is an accrual or a redemption, an amount
  -- refunded so far within the original's, and the key free; it recorded both cumulative values on
  -- the original, the amount as the column's two decimals keep it, moved the balance by the signed share (a redemption's to a value that is not
  -- negative), and changed nothing else but the outbox.
  pub post_refund-Refunded :
      (r : Transaction Decimal) (bn : Option (ℤ → Option OutboxEntry)) (db : Db Decimal)
      {r' original' : Transaction Decimal} {b : Balance} {db' : Db Decimal}
      (original : Transaction Decimal)
      → original_of r db ≡ some original
      → post_refund lib io r bn db ≡ ok ((r', original', b), db')
      → Refunded r original db r' original' b db'
  unfolding post_refund
  post_refund-Refunded r bn db {r'} {original'} {b} {db'} original found h = ground (
    arith,
    apply_refund-Applied r bn original (refunded_now r original db) (returned_now r original db)
        (delta_now r original db) true db {r' = r'} {original' = original'} {b = b} {db' = db'},
    apply_refund-Applied r bn original (refunded_now r original db) (returned_now r original db)
        (delta_now r original db) false db {r' = r'} {original' = original'} {b = b} {db' = db'},
  )
