-- ===== src/Examples/Points.antt =====
-- A sale of 100 that earns 10 points, a redemption of 4 and a refund of half the sale.
use promo_go.Base.{
  ℕ, ◌≡◌, refl, Bool, true, false, Option, none, some, [], ◌∷◌, Text, codes, inl, arith, text_eq,
}
use promo_go.Base.Int.{ℤ, pos, negsuc, ◌≤ℤ◌, ◌+ℤ◌, ◌-ℤ◌, wrap64}
use promo_go.Domain.{
  Client, Balance, Transaction, TransactionType, accrual, redeem, refund, LoyaltyConfig, Result, ok,
  err,
}
use promo_go.Ledger.Tables.{
  Db, Call, points_of, ensure_balance_row, find_tx, set_points, redeemed_since, set_refunded,
  find_by_id,
}
use promo_go.Ledger.Invariant.{Sound}
use promo_go.Ledger.Effects.{Posted, post-Posted, Checked, post_redeem_checked-Posted}
use promo_go.Examples.Whole.{whole, whole_laws, whole_formats}
use promo_go.Ledger.Post.{post}
use promo_go.Ledger.Redeem.{post_redeem_checked}
use promo_go.Ledger.Refund.{post_refund, cumulative_points}
use promo_go.Ledger.Balances.{sum_deltas, value_of}
use promo_go.Ledger.RefundEffects.{Refunded, original_of, post_refund-Refunded}
use promo_go.Ledger.History.{Reach-Sound, next, here, by_post, by_redeem, by_refund}
use promo_go.Ledger.Conserve.{Consistent, Returns, post_refund-Returns}
use promo_go.Loyalty.Redeem.{
  AntiFraudConfig, RedeemRequest, RedeemResult, redeem_points, capped, replayed_redeem,
  redeem_under,
}
use promo_go.Loyalty.Refund.{
  RefundRequest, RefundResult, refund_transaction, replayed_refund, resolve_original_transaction,
}
use promo_go.Loyalty.Distinct.{redeem_fingerprint_injective}
use promo_go.Ledger.Share.{cumulative_points_bounds}
use promo_go.Loyalty.RedeemReplay.{as_replay, redeem_points_replay}
use promo_go.Loyalty.RefundReplay.{as_replayed_refund, refund_transaction_replay}
use promo_go.Loyalty.Queries.{find_client_by_id, find_config}

abbrev always : Call → Bool
always c = true

abbrev ann : Client
ann = record { id = 7; store_id = 1; phone = codes "+79000000001"; customer_account_id = none }

abbrev rules : LoyaltyConfig ℕ
rules = record {
  store_id = 1;
  mechanic = codes "percent";
  accrual_percent = 10;
  min_purchase_amount = 1;
  min_balance_to_redeem = pos 1;
  max_redeem_percent = 50;
  points_exchange_rate = 1;
  version = 1;
}

abbrev start : Db ℕ
start = record {
  clients = ann ∷ [];
  balances = [];
  transactions = [];
  outbox = [];
  configs = rules ∷ [];
  stores = [];
  accounts = [];
  next_id = 20;
  now = 1000;
}

abbrev sample : TransactionType → Text → ℕ → ℤ → Transaction ℕ
sample t x amount delta = record {
  id = 0;
  store_id = 1;
  client_id = 7;
  external_tx_id = x;
  amount = amount;
  currency = [];
  tx_type = t;
  points_delta = delta;
  balance_after = pos 0;
  request_fingerprint = x;
  created_at = 0;
  rule_version = none;
  original_transaction_id = none;
  refunded_amount = 0;
  refunded_points = pos 0;
  refund_cumulative_amount = 0;
  refund_fully_refunded = false;
}

abbrev sale : Transaction ℕ
sale = sample accrual (codes "s1") 100 (pos 10)

abbrev payment : Transaction ℕ
payment = sample redeem (codes "p1") 30 (negsuc 3)

abbrev return_half : Transaction ℕ
return_half = record (sample refund (codes "r1") 50 (pos 0)) { original_transaction_id = some 20 }

abbrev or_else : {A : Type 0} → A → Result A → A
or_else a (ok b) = b
or_else a (err e) = a

abbrev or_else_some : {A : Type 0} → A → Option A → A
or_else_some a (some b) = b
or_else_some a none = a

abbrev nothing : Balance
nothing = record { client_id = 0; points = pos 0 }

abbrev sold : (Transaction ℕ × Balance) × Db ℕ
sold = or_else ((sale, nothing), start) (post whole always sale [] start)

abbrev paid : (Transaction ℕ × Balance) × Db ℕ
paid =
    or_else ((payment, nothing), start)
      (post_redeem_checked whole always payment (pos 1) (pos 100) 10 none sold.1)

abbrev returned : (Transaction ℕ × Transaction ℕ × Balance) × Db ℕ
returned = or_else ((sale, sale, nothing), start) (post_refund whole always return_half none paid.1)

start-Sound : Sound start
unfolding sum_deltas value_of points_of
start-Sound = record { reconciles = λ c. refl; unique = tt }

post-Posted_example : Posted whole always sale start sold.0.0 sold.0.1 sold.1
unfolding post points_of ensure_balance_row ◌+ℤ◌ find_tx
post-Posted_example = post-Posted whole always sale [] start refl

post_redeem_checked-Posted_example :
    Posted whole always payment sold.1 paid.0.0 paid.0.1 paid.1
    × Checked whole always payment (pos 1) (pos 100) 10 sold.1
unfolding post post_redeem_checked points_of ensure_balance_row ◌+ℤ◌ find_tx set_points
    redeemed_since wrap64 ◌-ℤ◌
post_redeem_checked-Posted_example =
    post_redeem_checked-Posted whole always payment (pos 1) (pos 100) 10 none sold.1 refl

-- The row that the refund finds.
abbrev sold_row : Transaction ℕ
sold_row = or_else_some sale (original_of whole always return_half paid.1)

post_refund-Refunded_example :
    Refunded whole always return_half sold_row paid.1 returned.0.0 returned.0.1 returned.0.2
      returned.1
unfolding post post_redeem_checked post_refund find_by_id points_of ensure_balance_row ◌+ℤ◌ find_tx
    set_points redeemed_since wrap64 ◌-ℤ◌ set_refunded
post_refund-Refunded_example =
    post_refund-Refunded whole always return_half none paid.1 sold_row refl refl

Reach-Sound_example : Sound returned.1
unfolding post post_redeem_checked post_refund points_of ensure_balance_row ◌+ℤ◌ find_tx set_points
    redeemed_since wrap64 ◌-ℤ◌ find_by_id set_refunded
Reach-Sound_example =
    Reach-Sound whole {db = start} {db' = returned.1}
      (next
        (next (next here (by_post always sale [] sold.0 sold.1 refl))
          (by_redeem always payment (pos 1) (pos 100) 10 none paid.0 paid.1 refl))
        (by_refund always return_half none returned.0 returned.1 refl))
      start-Sound

sold_row-Consistent : Consistent whole whole_laws always sold_row
unfolding post post_redeem_checked post_refund find_by_id points_of ensure_balance_row ◌+ℤ◌ find_tx
    set_points redeemed_since wrap64 ◌-ℤ◌
sold_row-Consistent = record {
  in_range = omega arith;
  amount_low = λ e. ground arith;
  amount_high = λ e. ground arith;
  amount_exact = refl;
  points_kept = inl refl;
}

post_refund-Returns_example :
    Returns whole whole_laws always return_half sold_row returned.0.0 returned.0.1
    × (original_of whole always return_half returned.1 ≡ some returned.0.1)
unfolding post post_redeem_checked post_refund find_by_id points_of ensure_balance_row ◌+ℤ◌ find_tx
    set_points redeemed_since wrap64 ◌-ℤ◌ set_refunded
post_refund-Returns_example =
    post_refund-Returns whole whole_laws always return_half none paid.1 sold_row refl
      sold_row-Consistent (ground arith) refl (omega arith) refl

cumulative_points_bounds_example :
    (pos 0 ≤ℤ cumulative_points whole always sale 33)
    × (cumulative_points whole always sale 33 ≤ℤ pos 10)
cumulative_points_bounds_example =
    cumulative_points_bounds whole whole_laws always sale 33 (omega arith) (ground arith)
      (ground arith)

-- The same through the service.
abbrev limits : AntiFraudConfig
limits = record { daily_redeem_points_limit = pos 100; daily_redeem_window = 10 }

abbrev pay_request : RedeemRequest ℕ
pay_request = record {
  store_id = 1;
  external_tx_id = codes "p2";
  client_id = 7;
  points = pos 4;
  amount = 30;
}

abbrev alone : Db ℕ → Db ℕ
alone d = d

abbrev served : Result (Option RedeemResult) × Db ℕ
served = redeem_points whole always limits alone pay_request sold.1

abbrev first_answer : RedeemResult
first_answer = record { points_redeemed = pos 4; balance = pos 6; replayed = false }

redeem_points_replay_example :
    redeem_points whole always limits alone pay_request served.1
    ≡ (ok (some (as_replay first_answer)), served.1)
unfolding post redeem_points find_client_by_id points_of ensure_balance_row ◌+ℤ◌ find_tx
    replayed_redeem find_config redeem_under value_of set_points capped post_redeem_checked
    redeemed_since wrap64 ◌-ℤ◌
redeem_points_replay_example =
    redeem_points_replay whole always limits limits alone alone pay_request sold.1 (λ d h. h) refl

abbrev refund_request : RefundRequest ℕ
refund_request = record {
  store_id = 1;
  external_tx_id = codes "r2";
  original_external_tx_id = codes "s1";
  original_type = none;
  amount = 100;
}

abbrev refund_served : Result (Option (RefundResult ℕ)) × Db ℕ
refund_served = refund_transaction whole always alone refund_request sold.1

abbrev first_refund : RefundResult ℕ
first_refund = record {
  client_id = 7;
  points_reversed = negsuc 9;
  balance = pos 0;
  refunded_amount_total = 100;
  fully_refunded = true;
  replayed = false;
}

-- The first answer says that the sale is fully refunded; the second one does not.
refund_transaction_replay_example :
    refund_transaction whole always alone refund_request refund_served.1
    ≡ (ok (some (as_replayed_refund whole always first_refund)), refund_served.1)
unfolding post refund_transaction resolve_original_transaction find_tx points_of ensure_balance_row
    ◌+ℤ◌ text_eq replayed_refund post_refund find_by_id set_points wrap64 ◌-ℤ◌ set_refunded
refund_transaction_replay_example =
    refund_transaction_replay whole always refund_request sold.1 tt refl

redeem_fingerprint_injective_example :
    (ann.id ≡ ann.id) × (whole.string_fixed 5 2 ≡ whole.string_fixed 5 2) × (pos 4 ≡ pos 4)
redeem_fingerprint_injective_example =
    redeem_fingerprint_injective whole whole_formats ann.id ann.id 5 5 (pos 4) (pos 4) refl
