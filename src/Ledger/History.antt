-- ===== src/Ledger/History.antt =====
-- Histories of postings, in any order and with any interleaving of the requests that make them:
-- each posting is one step, since the row locks make a database transaction atomic.
use promo_go.Base.{ℕ, ◌≡◌, Option, List, Bool}
use promo_go.Base.Int.{ℤ}
use promo_go.Domain.{ok, Balance, Transaction, OutboxEntry}
use promo_go.Domain.Decimals.{Decimals}
use promo_go.Ledger.Tables.{Db, Call}
use promo_go.Ledger.Invariant.{Sound, post-Sound, post_redeem_checked-Sound, post_refund-Sound}
use promo_go.Ledger.Post.{post}
use promo_go.Ledger.Redeem.{post_redeem_checked}
use promo_go.Ledger.Refund.{post_refund}

module _ (lib : Decimals) where
  open lib use {Decimal}

  -- A committed database transaction of one of the three methods, whichever calls succeed; `other`
  -- is any change of the tables that the ledger does not own.
  pub data Step (db : Db Decimal) : Db Decimal → Type 0 where
    by_post :
        (io : Call → Bool) (tx : Transaction Decimal) (es : List (Option OutboxEntry))
        (a : Transaction Decimal × Balance) (db' : Db Decimal)
        → post lib io tx es db ≡ ok (a, db')
        → Step db db'
    by_redeem :
        (io : Call → Bool) (tx : Transaction Decimal) (min_balance daily_limit : ℤ) (window : ℕ)
        (e : Option OutboxEntry) (a : Transaction Decimal × Balance) (db' : Db Decimal)
        → post_redeem_checked lib io tx min_balance daily_limit window e db ≡ ok (a, db')
        → Step db db'
    by_refund :
        (io : Call → Bool) (r : Transaction Decimal) (bn : Option (ℤ → Option OutboxEntry))
        (a : Transaction Decimal × Transaction Decimal × Balance) (db' : Db Decimal)
        → post_refund lib io r bn db ≡ ok (a, db')
        → Step db db'
    other :
        (db' : Db Decimal)
        → db'.balances ≡ db.balances
        → db'.transactions ≡ db.transactions
        → Step db db'

  pub data Reach (db : Db Decimal) : Db Decimal → Type 0 where
    here : Reach db db
    next : {mid db' : Db Decimal} → Reach db mid → Step mid db' → Reach db db'

  Step-Sound : {db db' : Db Decimal} → Step db db' → Sound db → Sound db'
  Step-Sound (by_post io tx es a _ h) s = post-Sound lib io tx es _ s h
  Step-Sound (by_redeem io tx min_balance daily_limit window e a _ h) s =
      post_redeem_checked-Sound lib io tx min_balance daily_limit window e _ s h
  Step-Sound (by_refund io r bn a _ h) s = post_refund-Sound lib io r bn _ s h
  Step-Sound {db} (other db' b t) s = record {
    reconciles = λ c. rw (b, t) (s.reconciles c);
    unique = rw t s.unique;
  }

  -- After any history of accruals, redemptions and refunds, in any order, each of them with any
  -- database failures, every balance is the sum of its client's point effects and no two
  -- transactions share (store, type, external id), if this held at the start.
  pub Reach-Sound : {db db' : Db Decimal} → Reach db db' → Sound db → Sound db'
  Reach-Sound here s = s
  Reach-Sound (next r st) s = Step-Sound st (Reach-Sound r s)
