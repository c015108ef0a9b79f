-- ===== src/Loyalty/Accrue.antt =====
-- `LoyaltyService.Accrue` with `replayedAccrue`, `resolveOrCreateClient`, `appInvite`,
-- `mechanicbuild.Build` and the points mechanic.
use promo_go.Base.{
  ℕ, Bool, true, false, Option, none, some, [], ◌∷◌, ◌++◌, Text, text_eq, codes, ◌&&◌, not,
  if◌then◌else◌,
}
use promo_go.Base.Int.{ℤ, pos, ltb_ℤ}
use promo_go.Domain.{
  Result, ok, err, internal, conflict, idempotency_conflict, Client, Balance, Transaction, accrual,
  OutboxEntry, OutboxChannel, unset, sms, pending, LoyaltyConfig, not_found,
}
use promo_go.Domain.Decimals.{Decimals, less_than}
use promo_go.Ledger.Tables.{Db, Call, get_store, get_account, count_invites}
use promo_go.Ledger.Post.{post}
use promo_go.Phone.{normalize_phone}
use promo_go.Templates.{Rendered, accrual_credited, app_invite, app_invite_id}
use promo_go.Loyalty.Fingerprints.{accrual_fingerprint, outbox_dedupe_key}
use promo_go.Loyalty.Queries.{
  Service, pure, fail, ◌>>=◌, ◌>>◌, transact, meanwhile, get_by_external_id, get_by_phone,
  get_balance_points, get_by_store, create, find_store, find_account, count_since,
}

pub record AccrueRequest (D : Type 0) : Type 0 where
  pub store_id : ℕ
  pub external_tx_id : Text
  pub phone : Text
  pub amount : D

pub record AccrueResult : Type 0 where
  pub client_id : ℕ
  pub points_earned : ℤ
  pub balance : ℤ
  pub replayed : Bool

-- `repositories` is whether all three repositories are set.
pub record Invites : Type 0 where
  pub app_url : Text
  pub daily_store_limit : ℤ
  pub repositories : Bool

-- 24 hours, in seconds
abbrev pub invite_limit_window : ℕ
invite_limit_window = 86400

abbrev pub invites_enabled : Invites → Bool
invites_enabled i =
    not (text_eq i.app_url []) && (ltb_ℤ (pos 0) i.daily_store_limit && i.repositories)

-- An entry for the ledger to queue: what the caller leaves out is the zero value.
abbrev pub entry : ℕ → OutboxChannel → Rendered → Text → OutboxEntry
entry client_id channel r key = record {
  id = 0;
  client_id = client_id;
  channel = channel;
  template_id = r.template_id;
  template_version = r.version;
  message = r.message;
  dedupe_key = key;
  status = pending;
  attempts = 0;
  next_attempt_at = 0;
  last_error = [];
  created_at = 0;
  delivered_at = none;
}

abbrev pub zero_time : ℕ
zero_time = 0

-- `mechanicbuild.Build`: the points mechanic is the only one.
unfoldable pub build_mechanic : Text → Result (Unit {0})
build_mechanic name = if text_eq name (codes "points") then ok tt else err internal

module _ (lib : Decimals) (io : Call → Bool) where
  open lib use {Decimal, dec_zero, mul, div, floor, int_part, new_from_int, format_int}

  -- `points.Mechanic.Accrue`
  unfoldable pub points_accrue : Decimal → LoyaltyConfig Decimal → ℤ
  points_accrue amount cfg =
      if less_than lib amount cfg.min_purchase_amount
      then pos 0
      else int_part (floor (div (mul amount cfg.accrual_percent) (new_from_int (pos 100))))

  -- `none` is a nil result with a nil error.
  unfoldable pub replayed_accrue : ℕ → Text → Text → Decimal → Service Decimal (Option AccrueResult)
  unfolding get_by_external_id get_by_phone
  replayed_accrue store_id external_tx_id phone amount = do
    existing ← get_by_external_id lib io store_id accrual external_tx_id
    elim existing [
      | none ↦ pure none
      | some tx ↦ (do
        found ← get_by_phone lib io store_id phone
        elim found [
          | none ↦ fail idempotency_conflict
          | some client ↦
              (if text_eq tx.request_fingerprint (accrual_fingerprint lib client.id amount)
                then pure (
                    some (record {
                      client_id = tx.client_id;
                      points_earned = tx.points_delta;
                      balance = tx.balance_after;
                      replayed = true;
                    }))
                else fail idempotency_conflict)
        ])
    ]

  -- A re-read after a lost race: the client is there, or the read's error is returned.
  abbrev pub or_not_found : {A : Type 0} → Option A → Service Decimal A
  or_not_found none = fail not_found
  or_not_found (some a) = pure a

  -- `ClientRepository.Create`'s conflict is a lost race with another registration.
  abbrev pub created_or_found :
      ℕ → Text → Result Client × Db Decimal → Result (Client × Bool) × Db Decimal
  created_or_found store_id phone (ok client, db) = (ok (client, true), db)
  created_or_found store_id phone (err conflict, db) =
      (do
        found ← get_by_phone lib io store_id phone
        client ← or_not_found found
        pure (client, false))
        db
  created_or_found store_id phone (err e, db) = (err e, db)

  unfoldable pub resolve_or_create_client : ℕ → Text → Service Decimal (Client × Bool)
  unfolding get_by_phone create
  resolve_or_create_client store_id phone = do
    found ← get_by_phone lib io store_id phone
    elim found [
      | some client ↦ pure (client, false)
      | none ↦ λ db. created_or_found store_id phone (create lib io store_id phone db)
    ]

  -- Never fails and writes nothing: a check that fails skips the invite.
  unfoldable pub find_invite : Invites → Client → Db Decimal → Option OutboxEntry
  find_invite i client db =
      if not (invites_enabled i)
      then none
      else if not (io get_store)
      then none
      else elim (find_store client.store_id db.stores) [
        | none ↦ none
        | some store ↦
            (if not store.sms_invite_enabled
              then none
              else if not (io get_account)
              then none
              else elim (find_account client.phone db.accounts) [
                | some _ ↦ none
                | none ↦
                    (if not (io count_invites)
                      then none
                      else if not (
                          ltb_ℤ
                            (pos (
                              count_since client.store_id app_invite_id db.now invite_limit_window
                                db.clients db.outbox))
                            i.daily_store_limit)
                      then none
                      else some (
                          entry client.id sms (app_invite store.name i.app_url)
                            (codes "invite:" ++ client.phone)))
              ])
      ]

  -- The transaction before the ledger has seen it.
  abbrev pub draft : AccrueRequest Decimal → Client → Option ℕ → ℤ → Transaction Decimal
  draft req client version points = record {
    id = 0;
    store_id = req.store_id;
    client_id = client.id;
    external_tx_id = req.external_tx_id;
    amount = req.amount;
    currency = [];
    tx_type = accrual;
    points_delta = points;
    balance_after = pos 0;
    request_fingerprint = accrual_fingerprint lib client.id req.amount;
    created_at = zero_time;
    rule_version = version;
    original_transaction_id = none;
    refunded_amount = dec_zero;
    refunded_points = pos 0;
    refund_cumulative_amount = dec_zero;
    refund_fully_refunded = false;
  }

  abbrev pub lift : {A : Type 0} → Result A → Service Decimal A
  lift (ok a) = pure a
  lift (err e) = fail e

  -- The rules of the store, if it has any: the version and the points.
  unfoldable pub earn : AccrueRequest Decimal → Client → Service Decimal (Option ℕ × ℤ)
  unfolding get_by_store get_balance_points build_mechanic points_accrue
  earn req client = do
    found ← get_by_store lib io req.store_id
    elim found [
      | none ↦ pure (none, pos 0)
      | some cfg ↦ (do
        lift (build_mechanic cfg.mechanic)
        balance_before ← get_balance_points lib io client.id
        pure (some cfg.version, points_accrue req.amount cfg))
    ]

  abbrev pub accrual_notice : AccrueRequest Decimal → Client → ℤ → Option OutboxEntry
  accrual_notice req client points =
      if ltb_ℤ (pos 0) points
      then some (
          entry client.id unset (accrual_credited format_int points)
            (outbox_dedupe_key lib req.store_id accrual req.external_tx_id))
      else none

  -- What the ledger's answer is turned into; a conflict is a lost race with the same webhook.
  unfoldable pub accrued :
      AccrueRequest Decimal
      → Client
      → Result (Transaction Decimal × Balance) × Db Decimal
      → Result (Option AccrueResult) × Db Decimal
  accrued req client (ok (tx, balance), db) = (
    ok (
        some (record {
          client_id = client.id;
          points_earned = tx.points_delta;
          balance = balance.points;
          replayed = false;
        })),
    db,
  )
  accrued req client (err conflict, db) =
      replayed_accrue req.store_id req.external_tx_id req.phone req.amount db
  accrued req client (err e, db) = (err e, db)

  abbrev pub canonical_phone : Text → Text
  canonical_phone raw = elim (normalize_phone raw) [ none ↦ raw | some p ↦ p ]

  abbrev pub is_normalized : Text → Bool
  is_normalized raw = elim (normalize_phone raw) [ none ↦ false | some p ↦ true ]

  -- From the client on: earn, and post.
  unfoldable pub accrue_for :
      Invites
      → (Db Decimal → Db Decimal)
      → AccrueRequest Decimal
      → Bool
      → Client
      → Bool
      → Service Decimal (Option AccrueResult)
  unfolding accrued
  accrue_for invites others req phone_normalized client created = do
    invite ← (λ db.
        (ok (if created && phone_normalized then find_invite invites client db else none), db))
    (version, points) ← earn req client
    meanwhile others
    λ db. accrued req client (
        transact
          (post lib io (draft req client version points)
            (accrual_notice req client points ∷ (invite ∷ [])))
          db)

  -- `others` is what other requests commit between this request's reads and its posting.
  unfoldable pub accrue :
      Invites
      → (Db Decimal → Db Decimal)
      → AccrueRequest Decimal
      → Service Decimal (Option AccrueResult)
  accrue invites others raw = do
    let req = record raw { phone = canonical_phone raw.phone }
    replay ← replayed_accrue req.store_id req.external_tx_id req.phone req.amount
    elim replay [
      | some result ↦ pure (some result)
      | none ↦ (do
        (client, created) ← resolve_or_create_client req.store_id req.phone
        accrue_for invites others req (is_normalized raw.phone) client created)
    ]
