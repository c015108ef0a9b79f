-- ===== src/Ledger/Balances.antt =====
-- The balance table under the statements of the ledger, and the sum of the point effects of the
-- transactions, which it should agree with.
use promo_go.Base.{ℕ, ◌≡◌, refl, none, some, List, [], ◌∷◌, ◌==◌, if◌then◌else◌, arith}
use promo_go.Base.Int.{ℤ, pos, ◌+ℤ◌}
use promo_go.Domain.{Balance, Transaction}
use promo_go.Ledger.Tables.{Db, points_of, ensure_balance_row, set_points, set_refunded}

-- `BalanceRepository.Get`: a client with no row has no points.
unfoldable pub value_of : ℕ → List Balance → ℤ
value_of c bs = elim (points_of c bs) [ none ↦ pos 0 | some p ↦ p ]

pub points_of-ensure_balance_row :
    (c : ℕ) (bs : List Balance) → points_of c (ensure_balance_row c bs) ≡ some (value_of c bs)
unfolding ensure_balance_row value_of points_of
points_of-ensure_balance_row c [] = ground arith
points_of-ensure_balance_row c (b ∷ bs) = ground (arith, points_of-ensure_balance_row c bs)

pub value_of-ensure_balance_row :
    (c d : ℕ) (bs : List Balance) → value_of d (ensure_balance_row c bs) ≡ value_of d bs
unfolding ensure_balance_row value_of points_of
value_of-ensure_balance_row c d bs = ground arith

pub value_of-set_points :
    (c d : ℕ) (p q : ℤ) (bs : List Balance)
    → points_of c bs ≡ some p
    → value_of d (set_points c q bs) ≡ (if c == d then q else value_of d bs)
unfolding set_points value_of points_of
value_of-set_points c d p q [] h = cc
value_of-set_points c d p q (b ∷ bs) h = ground (arith, value_of-set_points c d p q bs)

-- A posting's effect on the whole table.
pub value_of_adjusted :
    (c d : ℕ) (q : ℤ) (bs : List Balance)
    → value_of d (set_points c q (ensure_balance_row c bs)) ≡ (if c == d then q else value_of d bs)
value_of_adjusted c d q bs = ground (
  arith,
  value_of-set_points c d (value_of c bs) q (ensure_balance_row c bs),
  points_of-ensure_balance_row c bs,
  value_of-ensure_balance_row c d bs,
)

module _ {D : Type 0} where
  -- The sum of the point effects of a client's transactions.
  unfoldable pub sum_deltas : ℕ → List (Transaction D) → ℤ
  sum_deltas c [] = pos 0
  sum_deltas c (r ∷ rs) =
      if r.client_id == c then sum_deltas c rs +ℤ r.points_delta else sum_deltas c rs

  pub sum_deltas-set_refunded :
      (c id : ℕ) (a : D) (p : ℤ) (rs : List (Transaction D))
      → sum_deltas c (set_refunded id a p rs) ≡ sum_deltas c rs
  unfolding sum_deltas set_refunded
  sum_deltas-set_refunded c id a p [] = refl
  sum_deltas-set_refunded c id a p (r ∷ rs) = ground (arith, sum_deltas-set_refunded c id a p rs)

  -- Every client's balance is the sum of the point effects of its transactions.
  abbrev pub Reconciles : Db D → Type 0
  Reconciles db = (c : ℕ) → value_of c db.balances ≡ sum_deltas c db.transactions
