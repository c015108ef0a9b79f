-- ===== src/Domain/Config.antt =====
-- LoyaltyConfig.Validate of internal/domain/loyalty_config.go.
use promo_go.Base.{not, ◌||◌, [], text_eq, if◌then◌else◌}
use promo_go.Base.Int.{pos, ltb_ℤ}
use promo_go.Domain.Errors.{Result, ok, err, invalid_loyalty_config}
use promo_go.Domain.Records.{LoyaltyConfig}
use promo_go.Domain.Decimals.{Decimals, is_negative, is_positive, greater_than}

module _ (lib : Decimals) where
  open lib use {Decimal, new_from_int}

  unfoldable pub validate : LoyaltyConfig Decimal → Result (Unit {0})
  unfolding text_eq
  validate c =
      if text_eq c.mechanic []
      then err invalid_loyalty_config
      else if is_negative lib c.accrual_percent
          || greater_than lib c.accrual_percent (new_from_int (pos 100))
      then err invalid_loyalty_config
      else if is_negative lib c.min_purchase_amount
      then err invalid_loyalty_config
      else if ltb_ℤ c.min_balance_to_redeem (pos 0)
      then err invalid_loyalty_config
      else if is_negative lib c.max_redeem_percent
          || greater_than lib c.max_redeem_percent (new_from_int (pos 100))
      then err invalid_loyalty_config
      else if not (is_positive lib c.points_exchange_rate)
      then err invalid_loyalty_config
      else ok tt
