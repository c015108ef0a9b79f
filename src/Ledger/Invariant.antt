-- ===== src/Ledger/Invariant.antt =====
-- The invariant of the tables under `Post`, `PostRedeemChecked` and `PostRefund`.
use promo_go.Base.{
  ℕ, ◌≡◌, refl, Bool, Option, none, List, [], ◌∷◌, arith, Text, Option-cases, inl, inr,
}
use promo_go.Base.Int.{ℤ, ◌+ℤ◌}
use promo_go.Domain.{ok, Balance, Transaction, OutboxEntry, TransactionType}
use promo_go.Domain.Decimals.{Decimals}
use promo_go.Ledger.Tables.{Db, Call, find_tx, set_refunded}
use promo_go.Ledger.Balances.{
  value_of, value_of_adjusted, sum_deltas, sum_deltas-set_refunded, Reconciles,
}
use promo_go.Ledger.Post.{post}
use promo_go.Ledger.Redeem.{post_redeem_checked}
use promo_go.Ledger.Refund.{post_refund}
use promo_go.Ledger.Effects.{Posted, post-Posted, post_redeem_checked-Posted}
use promo_go.Ledger.RefundEffects.{
  Refunded, original_of, points_now, post_refund-Refunded, refunded_now, returned_now,
  post_refund_no_original,
}

module _ {D : Type 0} where
  -- No two transactions share (store_id, type, external_tx_id).
  abbrev pub UniqueKeys : List (Transaction D) → Type 0
  UniqueKeys [] = Unit
  UniqueKeys (r ∷ rs) = (find_tx r.store_id r.tx_type r.external_tx_id rs ≡ none) × UniqueKeys rs

  pub find_tx-set_refunded-none :
      (s : ℕ) (t : TransactionType) (x : Text) (id : ℕ) (a : D) (p : ℤ) (rs : List (Transaction D))
      → find_tx s t x rs ≡ none
      → find_tx s t x (set_refunded id a p rs) ≡ none
  unfolding find_tx set_refunded
  find_tx-set_refunded-none s t x id a p [] h = refl
  find_tx-set_refunded-none s t x id a p (r ∷ rs) h =
      ground (arith, find_tx-set_refunded-none s t x id a p rs)

  pub set_refunded-UniqueKeys :
      (id : ℕ) (a : D) (p : ℤ) (rs : List (Transaction D))
      → UniqueKeys rs
      → UniqueKeys (set_refunded id a p rs)
  unfolding set_refunded
  set_refunded-UniqueKeys id a p [] h = tt
  set_refunded-UniqueKeys id a p (r ∷ rs) h = ground (
    arith,
    find_tx-set_refunded-none r.store_id r.tx_type r.external_tx_id id a p rs,
    set_refunded-UniqueKeys id a p rs,
  )

  -- The two facts together.
  pub record Sound (db : Db D) : Type 0 where
    pub reconciles : Reconciles db
    pub unique : UniqueKeys db.transactions

module _ (lib : Decimals) (io : Call → Bool) where
  open lib use {Decimal}

  pub Posted-Sound :
      {tx : Transaction Decimal} {db : Db Decimal} {tx' : Transaction Decimal} {b : Balance}
      {db' : Db Decimal}
      → Posted lib io tx db tx' b db'
      → Sound db
      → Sound db'
  unfolding sum_deltas
  Posted-Sound {tx} {db} {db' = db'} p s = record {
    reconciles = λ c. ground (
      arith,
      p.tables.balances,
      p.tables.transactions,
      p.balance,
      s.reconciles c,
      s.reconciles tx.client_id,
      value_of_adjusted tx.client_id c (value_of tx.client_id db.balances +ℤ tx.points_delta)
          db.balances,
    );
    unique = rw p.tables.transactions (p.fresh, s.unique);
  }

  pub Refunded-Sound :
      (r original : Transaction Decimal) (db : Db Decimal) {r' original' : Transaction Decimal}
      {b : Balance} {db' : Db Decimal}
      → Refunded lib io r original db r' original' b db'
      → Sound db
      → Sound db'
  unfolding sum_deltas
  Refunded-Sound r original db p s = record {
    reconciles = λ c. ground (
      arith,
      p.tables.balances,
      p.tables.transactions,
      p.balance,
      s.reconciles c,
      s.reconciles original.client_id,
      sum_deltas-set_refunded c original.id (lib.to_numeric (refunded_now lib io r original db))
          (returned_now lib io r original db) db.transactions,
      value_of_adjusted original.client_id c (points_now lib io r original db) db.balances,
    );
    unique =
        rw p.tables.transactions
          (p.fresh, set_refunded-UniqueKeys original.id _ _ db.transactions s.unique);
  }

  -- Each of the three methods keeps every balance equal to the sum of its client's transactions,
  -- and no two transactions with one key.
  pub post-Sound :
      (tx : Transaction Decimal) (es : List (Option OutboxEntry)) (db : Db Decimal)
      {tx' : Transaction Decimal} {b : Balance} {db' : Db Decimal}
      → Sound db
      → post lib io tx es db ≡ ok ((tx', b), db')
      → Sound db'
  post-Sound tx es db s h = Posted-Sound (post-Posted lib io tx es db h) s

  pub post_redeem_checked-Sound :
      (tx : Transaction Decimal) (min_balance daily_limit : ℤ) (window : ℕ) (e : Option OutboxEntry)
      (db : Db Decimal) {tx' : Transaction Decimal} {b : Balance} {db' : Db Decimal}
      → Sound db
      → post_redeem_checked lib io tx min_balance daily_limit window e db ≡ ok ((tx', b), db')
      → Sound db'
  post_redeem_checked-Sound tx min_balance daily_limit window e db s h =
      Posted-Sound (post_redeem_checked-Posted lib io tx min_balance daily_limit window e db h).0 s

  pub post_refund-Sound :
      (r : Transaction Decimal) (bn : Option (ℤ → Option OutboxEntry)) (db : Db Decimal)
      {r' original' : Transaction Decimal} {b : Balance} {db' : Db Decimal}
      → Sound db
      → post_refund lib io r bn db ≡ ok ((r', original', b), db')
      → Sound db'
  post_refund-Sound r bn db s h = elim (Option-cases (original_of lib io r db)) [
    | inl e ↦ absurd (post_refund_no_original lib io r bn db e h)
    | inr (original, e) ↦
        Refunded-Sound r original db (post_refund-Refunded lib io r bn db original e h) s
  ]
