-- ===== src/Ledger/Conserve.antt =====
-- Successive refunds of one original by `PostRefund`: the state that its row is kept in.
use promo_go.Base.{
  ℕ, ◌≡◌, refl, none, List, [], ◌∷◌, ◌&&◌, ◌==◌, Option-cases, Bool, true, arith, ◌⊎◌, inr, ◌<◌,
  Option, some, Bool-cases, false, inl, List, Option-cases, ◌∷◌, ◌==◌, ◌&&◌,
}
use promo_go.Base.Int.{ℤ, pos, ◌≤ℤ◌, ◌-ℤ◌, wrap64, wrap64_id, int_laws, int64_bound}
use promo_go.Domain.{
  Transaction, Balance, TransactionType, accrual, redeem, refund, OutboxEntry, ok,
}
use promo_go.Domain.Decimals.{Decimals, DecimalLaws, AtMost, equal}
use promo_go.Ledger.Refund.{cumulative_points, post_refund}
use promo_go.Ledger.RefundEffects.{
  Refunded, refunded_now, returned_now, delta_of, original_of, post_refund-Refunded,
}
use promo_go.Ledger.Share.{
  magnitude, cumulative_points_bounds, cumulative_points_mono, original_points-magnitude,
}
use promo_go.Ledger.Tables.{Call, Db, find_by_id, mark, set_refunded}

-- The sign with which returned points enter the balance: a refund of a sale takes them back, a
-- refund of a redemption gives them back.
abbrev pub signed : TransactionType → ℤ → ℤ
signed accrual z = pos 0 -ℤ z
signed redeem z = z
signed refund z = pos 0

-- Between bounds of one sign nothing wraps.
wrap64_difference :
    (a b : ℤ) (m : ℕ)
    → m < int64_bound
    → pos 0 ≤ℤ a
    → a ≤ℤ b
    → b ≤ℤ pos m
    → wrap64 (b -ℤ a) ≡ b -ℤ a
wrap64_difference a b m h lo mid hi = wrap64_id (b -ℤ a) (omega int_laws)

delta_of_difference :
    (t : TransactionType) (a b : ℤ) (m : ℕ)
    → m < int64_bound
    → pos 0 ≤ℤ a
    → a ≤ℤ b
    → b ≤ℤ pos m
    → delta_of t (wrap64 (b -ℤ a)) ≡ signed t (b -ℤ a)
delta_of_difference accrual a b m h lo mid hi =
    rw (wrap64_difference a b m h lo mid hi) (wrap64_id (pos 0 -ℤ (b -ℤ a)) (omega int_laws))
delta_of_difference redeem a b m h lo mid hi = wrap64_difference a b m h lo mid hi
delta_of_difference refund a b m h lo mid hi = refl

find_by_id-id :
    {D : Type 0} (id s : ℕ) (o : Transaction D) (rs : List (Transaction D))
    → find_by_id id s rs ≡ some o
    → (o.id ≡ id) × (o.store_id ≡ s)
unfolding find_by_id
find_by_id-id id s o [] h = absurd (ground arith)
find_by_id-id id s o (r ∷ rs) h = elim (Bool-cases ((r.id == id) && (r.store_id == s))) [
  | inl here ↦ ground arith
  | inr later ↦ find_by_id-id id s o rs (ground arith)
]

abbrev mark_found : {D : Type 0} → ℕ → D → ℤ → Option (Transaction D) → Option (Transaction D)
mark_found id a p none = none
mark_found id a p (some r) = some (mark id a p r)

find_by_id-set_refunded :
    {D : Type 0} (id s i : ℕ) (a : D) (p : ℤ) (rs : List (Transaction D))
    → find_by_id id s (set_refunded i a p rs) ≡ mark_found i a p (find_by_id id s rs)
unfolding find_by_id set_refunded
find_by_id-set_refunded id s i a p [] = refl
find_by_id-set_refunded id s i a p (r ∷ rs) = ground (arith, find_by_id-set_refunded id s i a p rs)

module _ (lib : Decimals) (laws : DecimalLaws lib) (io : Call → Bool) where
  open lib use {Decimal, dec_zero}

  -- The state of an accrual's or a redemption's row between two refunds.
  pub record Consistent (o : Transaction Decimal) : Type 0 where
    pub in_range : magnitude o.points_delta < int64_bound
    pub amount_low : AtMost lib dec_zero o.refunded_amount
    pub amount_high : AtMost lib o.refunded_amount o.amount
    pub amount_exact : lib.to_numeric o.refunded_amount ≡ o.refunded_amount
    pub points_kept :
        (o.refunded_points ≡ pos 0)
        ⊎ (o.refunded_points ≡ cumulative_points lib io o o.refunded_amount)

  -- What a refund of `r` against `o` returns, in terms of the row before and after.
  pub record Returns (r o r' o' : Transaction Decimal) : Type 0 where
    pub consistent : Consistent o'
    pub grows : o.refunded_points ≤ℤ o'.refunded_points
    pub capped : o'.refunded_points ≤ℤ pos (magnitude o.points_delta)
    pub delta : r'.points_delta ≡ signed o.tx_type (o'.refunded_points -ℤ o.refunded_points)
    pub complete :
        (r'.refund_fully_refunded ≡ false) ⊎ (o'.refunded_points ≡ pos (magnitude o.points_delta))

  module _ (r o : Transaction Decimal) (db : Db Decimal) (c : Consistent o)
      (positive : AtMost lib dec_zero r.amount) (exact : lib.to_numeric r.amount ≡ r.amount)
      {r' o' : Transaction Decimal} {b : Balance} {db' : Db Decimal}
      (p : Refunded lib io r o db r' o' b db') where
    abbrev now : Decimal
    now = refunded_now lib io r o db

    low : AtMost lib dec_zero now
    low =
        laws.cmp_trans dec_zero o.refunded_amount now c.amount_low
          (laws.add_mono o.refunded_amount r.amount positive)

    high : AtMost lib now o.amount
    high = ground (arith, p.within)

    now_exact : lib.to_numeric now ≡ now
    now_exact = laws.numeric_add o.refunded_amount r.amount c.amount_exact exact

    cumulative :
        (pos 0 ≤ℤ returned_now lib io r o db)
        × (returned_now lib io r o db ≤ℤ pos (magnitude o.points_delta))
    cumulative = cumulative_points_bounds lib laws io o now c.in_range low high

    old_low : pos 0 ≤ℤ o.refunded_points
    old_low = ground (
      arith,
      c.points_kept,
      cumulative_points_bounds lib laws io o o.refunded_amount c.in_range c.amount_low
          c.amount_high,
    )

    old_high : o.refunded_points ≤ℤ returned_now lib io r o db
    old_high = ground (
      arith,
      c.points_kept,
      cumulative,
      cumulative_points_mono lib laws io o o.refunded_amount now c.in_range c.amount_low
          (laws.add_mono o.refunded_amount r.amount positive) high,
    )

    -- The updated row is in the same state again.
    updated-Consistent : Consistent o'
    unfolding cumulative_points
    updated-Consistent = rw p.updated (record {
      in_range = c.in_range;
      amount_low = low;
      amount_high = high;
      amount_exact = now_exact;
      points_kept = inr refl;
    })

    -- A completed refund returns everything.
    all_returned :
        equal lib now o.amount ≡ true → returned_now lib io r o db ≡ pos (magnitude o.points_delta)
    unfolding cumulative_points
    all_returned e = ground (arith, original_points-magnitude o.points_delta c.in_range)

    -- A successful refund of a row in that state, of an amount that is not negative, keeps the
    -- state; the points returned so far grow, and never pass the original's; the refund's own
    -- effect is exactly their growth, taken from the client for a sale and given back for a
    -- redemption; and the refund that completes the amount has returned all of the points.
    pub refund-Returns : Returns r o r' o'
    refund-Returns = record {
      consistent = updated-Consistent;
      grows = ground (arith, p.updated, old_high);
      capped = ground (arith, p.updated, cumulative);
      delta = ground (
        arith,
        p.updated,
        p.returned,
        delta_of_difference o.tx_type o.refunded_points (returned_now lib io r o db)
            (magnitude o.points_delta) c.in_range old_low old_high (cumulative.1),
      );
      complete = elim (Bool-cases (equal lib now o.amount)) [
        | inl whole ↦ inr (ground (arith, p.updated, p.returned, all_returned))
        | inr part ↦ inl (ground (arith, p.updated, p.returned))
      ];
    }

    -- The original is found with its new totals.
    pub original_of-refunded :
        original_of lib io r db ≡ some o → o.id < db.next_id → original_of lib io r db' ≡ some o'
    unfolding find_by_id
    original_of-refunded found before = elim (Option-cases r.original_transaction_id) [
      | inl none' ↦ absurd (ground arith)
      | inr (id, e) ↦
          let row : find_by_id id r.store_id db.transactions ≡ some o = ground (arith, e) in
          let (same, named) = find_by_id-id id r.store_id o db.transactions row in
          let kept =
            find_by_id-set_refunded id r.store_id o.id now (returned_now lib io r o db)
              db.transactions in
          ground (arith, p.tables.transactions, p.updated, e, row, same, kept, now_exact)
    ]

module _ (lib : Decimals) (laws : DecimalLaws lib) where
  open lib use {Decimal, dec_zero}

  -- `PostRefund`, when it succeeds for an amount that is not negative on an original whose row is
  -- consistent (the refunded amount between none and the amount, the refunded points none or its
  -- share, the points within int64) and was made before: the refund's amount has no more than two
  -- decimals, which is what the columns keep of it. The next refund finds the original as returned,
  -- which is consistent again; the points returned so far grow
  -- and never pass the original's, the refund's own effect is their growth (taken back for an
  -- accrual, given back for a redemption), and a completing refund has returned them all.
  pub post_refund-Returns :
      (io : Call → Bool) (r : Transaction Decimal) (bn : Option (ℤ → Option OutboxEntry))
      (db : Db Decimal) (o : Transaction Decimal) {r' o' : Transaction Decimal} {b : Balance}
      {db' : Db Decimal}
      → original_of lib io r db ≡ some o
      → Consistent lib laws io o
      → AtMost lib dec_zero r.amount
      → lib.to_numeric r.amount ≡ r.amount
      → o.id < db.next_id
      → post_refund lib io r bn db ≡ ok ((r', o', b), db')
      → Returns lib laws io r o r' o' × (original_of lib io r db' ≡ some o')
  post_refund-Returns io r bn db o found c positive exact before h =
      let p = post_refund-Refunded lib io r bn db o found h in
      (
        refund-Returns lib laws io r o db c positive exact p,
        original_of-refunded lib laws io r o db c positive exact p found before,
      )
