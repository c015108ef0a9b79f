-- ===== src/Ledger/Share.antt =====
-- The arithmetic of partial refunds in `PostRefund`.
use promo_go.Base.{ℕ, ◌≡◌, Bool, true, arith, subst, suc, ◌<◌, ap, ◌∙◌}
use promo_go.Base.Int.{ℤ, pos, ◌≤ℤ◌, negsuc, wrap64, ◌-ℤ◌, int64_bound}
use promo_go.Domain.{Transaction}
use promo_go.Domain.Decimals.{Decimals, DecimalLaws, AtMost, equal, is_positive, share}
use promo_go.Ledger.Refund.{original_points, cumulative_points}
use promo_go.Ledger.Tables.{Call}

-- The magnitude of a point effect that is in range, as a natural number.
abbrev pub magnitude : ℤ → ℕ
magnitude (pos n) = n
magnitude (negsuc n) = suc n

pub original_points-magnitude :
    (d : ℤ) → magnitude d < int64_bound → original_points d ≡ pos (magnitude d)
unfolding original_points wrap64 ◌-ℤ◌
original_points-magnitude (pos n) h = ground arith
original_points-magnitude (negsuc n) h = ground arith

module _ (lib : Decimals) (laws : DecimalLaws lib) where
  open lib use {Decimal, dec_zero, cmp}

  -- A share of a non-negative number of points lies between none and all of them.
  share_bounds :
      (n : ℕ) (part whole : Decimal)
      → is_positive lib whole ≡ true
      → AtMost lib dec_zero part
      → AtMost lib part whole
      → (pos 0 ≤ℤ share lib (pos n) part whole) × (share lib (pos n) part whole ≤ℤ pos n)
  share_bounds n part whole p lo hi = (
    subst (λ z. z ≤ℤ share lib (pos n) part whole) from_zero
        (laws.floor_mono _ _ (laws.div_mono _ _ whole p (laws.mul_mono n _ _ lo))),
    subst (λ z. share lib (pos n) part whole ≤ℤ z) to_all
        (laws.floor_mono _ _ (laws.div_mono _ _ whole p (laws.mul_mono n _ _ hi))),
  )
    where
      from_zero : share lib (pos n) dec_zero whole ≡ pos 0
      from_zero =
          ap (λ z. lib.int_part (lib.floor (lib.div z whole))) (laws.mul_zero n)
          ∙ ap (λ z. lib.int_part (lib.floor z)) (laws.zero_div whole p)
          ∙ laws.floor_zero

      to_all : share lib (pos n) whole whole ≡ pos n
      to_all = ap (λ z. lib.int_part (lib.floor z)) (laws.mul-div n whole p) ∙ laws.floor_int n

  share_mono :
      (n : ℕ) (a b whole : Decimal)
      → is_positive lib whole ≡ true
      → AtMost lib a b
      → share lib (pos n) a whole ≤ℤ share lib (pos n) b whole
  share_mono n a b whole p h =
      laws.floor_mono _ _ (laws.div_mono _ _ whole p (laws.mul_mono n _ _ h))

  -- Amounts that compare equal bound one another.
  AtMost-of_equal : (a b : Decimal) → equal lib a b ≡ true → AtMost lib a b
  AtMost-of_equal a b h = ground arith

  -- An amount between another and a whole that the other equals is equal to the whole as well.
  equal_between :
      (a b whole : Decimal)
      → equal lib a whole ≡ true
      → AtMost lib a b
      → AtMost lib b whole
      → equal lib b whole ≡ true
  equal_between a b whole e lo hi =
      ground (arith, laws.cmp_swap a whole, laws.cmp_swap b whole, laws.cmp_trans whole a b)

  -- The points returned by refunds of `x` in all are at least none and at most the original's,
  -- for an `x` between nothing and the original's amount.
  pub cumulative_points_bounds :
      (io : Call → Bool) (o : Transaction Decimal) (x : Decimal)
      → magnitude o.points_delta < int64_bound
      → AtMost lib dec_zero x
      → AtMost lib x o.amount
      → (pos 0 ≤ℤ cumulative_points lib io o x)
        × (cumulative_points lib io o x ≤ℤ pos (magnitude o.points_delta))
  unfolding cumulative_points
  cumulative_points_bounds io o x m lo hi = ground (
    arith,
    original_points-magnitude o.points_delta m,
    share_bounds (magnitude o.points_delta) x o.amount,
  )

  -- A larger refunded amount never returns fewer points.
  pub cumulative_points_mono :
      (io : Call → Bool) (o : Transaction Decimal) (x y : Decimal)
      → magnitude o.points_delta < int64_bound
      → AtMost lib dec_zero x
      → AtMost lib x y
      → AtMost lib y o.amount
      → cumulative_points lib io o x ≤ℤ cumulative_points lib io o y
  unfolding cumulative_points
  cumulative_points_mono io o x y m z lo hi = ground (
    arith,
    original_points-magnitude o.points_delta m,
    share_bounds (magnitude o.points_delta) x o.amount,
    laws.cmp_trans x y o.amount,
    share_mono (magnitude o.points_delta) x y o.amount,
    equal_between x y o.amount,
  )
