-- ===== src/Loyalty/RedeemReplay.antt =====
-- `Redeem` sent again with the same parameters.
use promo_go.Base.{
  ℕ, ◌≡◌, refl, Bool, true, Option, none, some, arith, inl, inr, Option-cases, text_eq_refl,
  ==_refl, ap,
}
use promo_go.Base.Int.{ℤ}
use promo_go.Domain.{Result, ok, err, conflict, Balance, Transaction, LoyaltyConfig, OutboxEntry}
use promo_go.Domain.Decimals.{Decimals}
use promo_go.Ledger.Tables.{Db, Call, get_tx, get_client, find_tx}
use promo_go.Ledger.Redeem.{post_redeem_checked}
use promo_go.Ledger.Effects.{Posted, post_redeem_checked-Posted}
use promo_go.Loyalty.Queries.{find_client_by_id, find_config, in_store}
use promo_go.Loyalty.Redeem.{
  AntiFraudConfig, RedeemRequest, RedeemResult, replayed_redeem, redemption, redeemed, redeem_under,
  redeem_points, capped, redeem_notice,
}
use promo_go.Ledger.Refund.{neg64}
use promo_go.Loyalty.Fingerprints.{redeem_fingerprint}
use promo_go.Ledger.Balances.{value_of}

abbrev pub as_replay : RedeemResult → RedeemResult
as_replay r = record r { replayed = true }

module _ (lib : Decimals) (io : Call → Bool) where
  open lib use {Decimal}

  -- The replay check of a request.
  abbrev check : RedeemRequest Decimal → Db Decimal → Result (Option RedeemResult) × Db Decimal
  check req =
      replayed_redeem lib io req.store_id req.external_tx_id req.client_id req.amount req.points

  -- The check writes nothing, and what it finds is marked as a replay.
  check_reads :
      (req : RedeemRequest Decimal) (db : Db Decimal) {r : RedeemResult} {db' : Db Decimal}
      → check req db ≡ (ok (some r), db')
      → (db' ≡ db) × (as_replay r ≡ r)
  unfolding replayed_redeem
  check_reads req db h = ground arith

  check_state : (req : RedeemRequest Decimal) (db : Db Decimal) → (check req db).1 ≡ db
  unfolding replayed_redeem
  check_state req db = ground arith

  check_needs_tx :
      (req : RedeemRequest Decimal) (db : Db Decimal) {o : Option RedeemResult}
      → (check req db).0 ≡ ok o
      → io get_tx ≡ true
  unfolding replayed_redeem
  check_needs_tx req db h = ground arith

  Posted-found :
      (req : RedeemRequest Decimal) (cfg : LoyaltyConfig Decimal) (p : ℤ) (db : Db Decimal)
      {tx : Transaction Decimal} {b : Balance} {db' : Db Decimal}
      → io get_tx ≡ true
      → Posted lib io (redemption lib io req cfg p) db tx b db'
      → check req db' ≡ (
        ok (
            some (record {
              points_redeemed = neg64 tx.points_delta;
              balance = b.points;
              replayed = true;
            })),
        db',
      )
  unfolding replayed_redeem find_tx
  Posted-found req cfg p db e h = ground (
    arith,
    h.tables.transactions,
    h.returned,
    ==_refl req.store_id,
    text_eq_refl req.external_tx_id,
    text_eq_refl (redeem_fingerprint lib req.client_id req.amount req.points),
  )

  -- Whatever the ledger answered: if the request ends in a result, the check finds it again.
  answered :
      (req : RedeemRequest Decimal) (cfg : LoyaltyConfig Decimal) (p min_balance daily_limit : ℤ)
      (window : ℕ) (e : Option OutboxEntry) (db : Db Decimal)
      (m : Result ((Transaction Decimal × Balance) × Db Decimal)) {r : RedeemResult}
      {db' : Db Decimal}
      → io get_tx ≡ true
      → post_redeem_checked lib io (redemption lib io req cfg p) min_balance daily_limit window e db
        ≡ m
      → redeemed lib io req (elim m [ ok a ↦ (ok a.0, a.1) | err x ↦ (err x, db) ])
        ≡ (ok (some r), db')
      → check req db' ≡ (ok (some (as_replay r)), db')
  unfolding redeemed
  answered req cfg p min_balance daily_limit window e db (ok ((tx, b), db')) io_tx posted h =
      ground (
        arith,
        Posted-found req cfg p db io_tx
            (post_redeem_checked-Posted lib io (redemption lib io req cfg p) min_balance daily_limit
              window e db posted).0,
      )
  answered req cfg p min_balance daily_limit window e db (err conflict) io_tx posted h =
      cc (h, (check_reads req db h).0, (check_reads req db h).1)
  answered req cfg p min_balance daily_limit window e db (err x) io_tx posted h = ground arith

  under_answered :
      (af : AntiFraudConfig) (others : Db Decimal → Db Decimal) (req : RedeemRequest Decimal)
      (cfg : LoyaltyConfig Decimal) (balance : ℤ) (db : Db Decimal) {r : RedeemResult}
      {db' : Db Decimal}
      → io get_tx ≡ true
      → redeem_under lib io af others req cfg balance db ≡ (ok (some r), db')
      → check req db' ≡ (ok (some (as_replay r)), db')
  unfolding redeem_under
  under_answered af others req cfg balance db {r} {db'} e h =
      let p = capped lib io cfg req.amount req.points in
      ground (
        arith,
        answered req cfg p cfg.min_balance_to_redeem af.daily_redeem_points_limit
            af.daily_redeem_window (some (redeem_notice lib io req p)) (others db)
            (post_redeem_checked lib io (redemption lib io req cfg p) cfg.min_balance_to_redeem
              af.daily_redeem_points_limit af.daily_redeem_window
              (some (redeem_notice lib io req p)) (others db))
            {r = r} {db' = db'} e refl,
      )

  -- The first answer of a request, and the state it is left in: the check finds it again, and the
  -- client is still there.
  found_again :
      (af : AntiFraudConfig) (others : Db Decimal → Db Decimal) (req : RedeemRequest Decimal)
      (db : Db Decimal) {r : RedeemResult} {db' : Db Decimal}
      → redeem_points lib io af others req db ≡ (ok (some r), db')
      → (io get_tx ≡ true)
        × (io get_client ≡ true)
        × (check req db' ≡ (ok (some (as_replay r)), db'))
  unfolding redeem_points
  found_again af others req db {r} {db'} h =
      elim (Option-cases (find_config req.store_id db.configs)) [
        | inl no_rules ↦ ground (
          arith,
          check_reads req db {r = r} {db' = db'},
          check_state req db,
          check_needs_tx req db {o = none},
          check_needs_tx req db {o = some r},
        )
        | inr (cfg, rules) ↦ ground (
          arith,
          check_reads req db {r = r} {db' = db'},
          check_state req db,
          check_needs_tx req db {o = none},
          check_needs_tx req db {o = some r},
          under_answered af others req cfg (value_of req.client_id db.balances) db {r = r}
              {db' = db'},
        )
      ]

  -- The client table is as the other requests left it.
  answered_clients :
      (req : RedeemRequest Decimal) (cfg : LoyaltyConfig Decimal) (p min_balance daily_limit : ℤ)
      (window : ℕ) (e : Option OutboxEntry) (db : Db Decimal)
      (m : Result ((Transaction Decimal × Balance) × Db Decimal)) {r : RedeemResult}
      {db' : Db Decimal}
      → post_redeem_checked lib io (redemption lib io req cfg p) min_balance daily_limit window e db
        ≡ m
      → redeemed lib io req (elim m [ ok a ↦ (ok a.0, a.1) | err x ↦ (err x, db) ])
        ≡ (ok (some r), db')
      → db'.clients ≡ db.clients
  unfolding redeemed
  answered_clients req cfg p min_balance daily_limit window e db (ok ((tx, b), db')) posted h =
      ground (
        arith,
        (post_redeem_checked-Posted lib io (redemption lib io req cfg p) min_balance daily_limit
            window e db posted).0,
      )
  answered_clients req cfg p min_balance daily_limit window e db (err conflict) posted h =
      ap (λ (d : Db Decimal). d.clients) (check_reads req db h).0
  answered_clients req cfg p min_balance daily_limit window e db (err x) posted h = ground arith

  -- What the other requests do keeps a client of the store where it is.
  abbrev pub KeepsClient : RedeemRequest Decimal → (Db Decimal → Db Decimal) → Type 0
  KeepsClient req others =
      (d : Db Decimal)
      → in_store req.store_id (find_client_by_id req.client_id d.clients) ≡ true
      → in_store req.store_id (find_client_by_id req.client_id (others d).clients) ≡ true

  client_kept :
      (af : AntiFraudConfig) (others : Db Decimal → Db Decimal) (req : RedeemRequest Decimal)
      (db : Db Decimal) {r : RedeemResult} {db' : Db Decimal}
      → KeepsClient req others
      → redeem_points lib io af others req db ≡ (ok (some r), db')
      → in_store req.store_id (find_client_by_id req.client_id db'.clients) ≡ true
  unfolding redeem_points redeem_under
  client_kept af others req db {r} {db'} keeps h =
      elim (Option-cases (find_config req.store_id db.configs)) [
        | inl no_rules ↦ ground (arith, check_reads req db {r = r} {db' = db'}, check_state req db)
        | inr (cfg, rules) ↦
            let p = capped lib io cfg req.amount req.points in
            ground (
              arith,
              check_reads req db {r = r} {db' = db'},
              check_state req db,
              keeps db,
              answered_clients req cfg p cfg.min_balance_to_redeem af.daily_redeem_points_limit
                  af.daily_redeem_window (some (redeem_notice lib io req p)) (others db)
                  (post_redeem_checked lib io (redemption lib io req cfg p)
                    cfg.min_balance_to_redeem af.daily_redeem_points_limit af.daily_redeem_window
                    (some (redeem_notice lib io req p)) (others db))
                  {r = r} {db' = db'} refl,
            )
      ]

  -- A redemption that succeeded and is sent again, with the same parameters and under any limits
  -- and any further interference, returns the same points and balance, marked as a replay, and
  -- changes nothing, if the other requests leave the client in its store.
  pub redeem_points_replay :
      (af af' : AntiFraudConfig) (others others' : Db Decimal → Db Decimal)
      (req : RedeemRequest Decimal) (db : Db Decimal) {r : RedeemResult} {db' : Db Decimal}
      → KeepsClient req others
      → redeem_points lib io af others req db ≡ (ok (some r), db')
      → redeem_points lib io af' others' req db' ≡ (ok (some (as_replay r)), db')
  unfolding redeem_points
  redeem_points_replay af af' others others' req db {r} {db'} keeps h =
      ground (arith, found_again af others req db h, client_kept af others req db keeps h)
