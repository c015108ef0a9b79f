-- ===== src/Loyalty/Redeem.antt =====
-- `LoyaltyService.Redeem` with `replayedRedeem`.
use promo_go.Base.{
  ℕ, Bool, true, false, Option, none, some, Text, text_eq, ◌==◌, ◌&&◌, ◌||◌, not, if◌then◌else◌, [],
}
use promo_go.Base.Int.{ℤ, pos, ltb_ℤ, leb_ℤ}
use promo_go.Domain.{
  Result, ok, err, conflict, not_found, insufficient_balance, idempotency_conflict, Balance,
  Transaction, redeem, OutboxEntry, unset, LoyaltyConfig,
}
use promo_go.Domain.Decimals.{Decimals, is_positive}
use promo_go.Ledger.Tables.{Db, Call}
use promo_go.Ledger.Redeem.{post_redeem_checked}
use promo_go.Ledger.Refund.{neg64}
use promo_go.Templates.{redeem_debited}
use promo_go.Loyalty.Accrue.{entry, zero_time}
use promo_go.Loyalty.Fingerprints.{redeem_fingerprint, outbox_dedupe_key}
use promo_go.Loyalty.Queries.{
  Service, pure, fail, ◌>>=◌, ◌>>◌, transact, meanwhile, get_by_external_id, get_by_id,
  get_balance_points, get_by_store,
}

pub record AntiFraudConfig : Type 0 where
  pub daily_redeem_points_limit : ℤ
  pub daily_redeem_window : ℕ

pub record RedeemRequest (D : Type 0) : Type 0 where
  pub store_id : ℕ
  pub external_tx_id : Text
  pub client_id : ℕ
  pub points : ℤ
  pub amount : D

pub record RedeemResult : Type 0 where
  pub points_redeemed : ℤ
  pub balance : ℤ
  pub replayed : Bool

module _ (lib : Decimals) (io : Call → Bool) where
  open lib use {Decimal, dec_zero, mul, div, floor, int_part, new_from_int, format_int}

  unfoldable pub replayed_redeem :
      ℕ → Text → ℕ → Decimal → ℤ → Service Decimal (Option RedeemResult)
  unfolding get_by_external_id
  replayed_redeem store_id external_tx_id client_id amount points = do
    existing ← get_by_external_id lib io store_id redeem external_tx_id
    elim existing [
      | none ↦ pure none
      | some tx ↦
          (if text_eq tx.request_fingerprint (redeem_fingerprint lib client_id amount points)
            then pure (
                some (record {
                  points_redeemed = neg64 tx.points_delta;
                  balance = tx.balance_after;
                  replayed = true;
                }))
            else fail idempotency_conflict)
    ]

  -- The most points that may pay for this purchase, and the request capped by it.
  abbrev pub max_points : LoyaltyConfig Decimal → Decimal → ℤ
  max_points cfg amount = int_part (
      floor (
        div (div (mul amount cfg.max_redeem_percent) (new_from_int (pos 100)))
          cfg.points_exchange_rate))

  unfoldable pub capped : LoyaltyConfig Decimal → Decimal → ℤ → ℤ
  capped cfg amount points =
      if is_positive lib cfg.max_redeem_percent && is_positive lib cfg.points_exchange_rate
      then (if ltb_ℤ (max_points cfg amount) points then max_points cfg amount else points)
      else points

  abbrev pub redemption : RedeemRequest Decimal → LoyaltyConfig Decimal → ℤ → Transaction Decimal
  redemption req cfg points = record {
    id = 0;
    store_id = req.store_id;
    client_id = req.client_id;
    external_tx_id = req.external_tx_id;
    amount = req.amount;
    currency = [];
    tx_type = redeem;
    points_delta = neg64 points;
    balance_after = pos 0;
    request_fingerprint = redeem_fingerprint lib req.client_id req.amount req.points;
    created_at = zero_time;
    rule_version = some cfg.version;
    original_transaction_id = none;
    refunded_amount = dec_zero;
    refunded_points = pos 0;
    refund_cumulative_amount = dec_zero;
    refund_fully_refunded = false;
  }

  abbrev pub redeem_notice : RedeemRequest Decimal → ℤ → OutboxEntry
  redeem_notice req points =
      entry req.client_id unset (redeem_debited format_int points)
        (outbox_dedupe_key lib req.store_id redeem req.external_tx_id)

  unfoldable pub redeemed :
      RedeemRequest Decimal
      → Result (Transaction Decimal × Balance) × Db Decimal
      → Result (Option RedeemResult) × Db Decimal
  redeemed req (ok (tx, balance), db) = (
    ok (
        some (record {
          points_redeemed = neg64 tx.points_delta;
          balance = balance.points;
          replayed = false;
        })),
    db,
  )
  redeemed req (err conflict, db) =
      replayed_redeem req.store_id req.external_tx_id req.client_id req.amount req.points db
  redeemed req (err e, db) = (err e, db)

  -- From the replay check on.
  unfoldable pub redeem_under :
      AntiFraudConfig
      → (Db Decimal → Db Decimal)
      → RedeemRequest Decimal
      → LoyaltyConfig Decimal
      → ℤ
      → Service Decimal (Option RedeemResult)
  unfolding redeemed
  redeem_under anti_fraud others req cfg balance =
      let points = capped cfg req.amount req.points in
      if ltb_ℤ balance cfg.min_balance_to_redeem
      then fail insufficient_balance
      else if leb_ℤ points (pos 0) || ltb_ℤ balance points
      then fail insufficient_balance
      else (do
        meanwhile others
        λ db. redeemed req (
            transact
              (post_redeem_checked lib io (redemption req cfg points) cfg.min_balance_to_redeem
                anti_fraud.daily_redeem_points_limit anti_fraud.daily_redeem_window
                (some (redeem_notice req points)))
              db))

  unfoldable pub redeem_points :
      AntiFraudConfig
      → (Db Decimal → Db Decimal)
      → RedeemRequest Decimal
      → Service Decimal (Option RedeemResult)
  unfolding get_by_id get_by_store get_balance_points
  redeem_points anti_fraud others req = do
    found ← get_by_id lib io req.client_id
    elim found [
      | none ↦ fail not_found
      | some client ↦
          (if not (client.store_id == req.store_id) then fail not_found else (do
            replay ←
                replayed_redeem req.store_id req.external_tx_id req.client_id req.amount req.points
            elim replay [
              | some result ↦ pure (some result)
              | none ↦ (do
                rules ← get_by_store lib io req.store_id
                elim rules [
                  | none ↦ fail insufficient_balance
                  | some cfg ↦ (do
                    balance ← get_balance_points lib io req.client_id
                    redeem_under anti_fraud others req cfg balance)
                ])
            ]))
    ]
