-- ===== src/Qr/Resolve.antt =====
-- `QRService.ResolveQR` and `resolveOrCreateClientForAccount`. The audit event, which is written
-- after the answer is settled and whose failure is only logged, is left out.
use promo_go.Base.{
  ℕ, Bool, true, false, Option, none, some, List, [], ◌∷◌, Text, ◌==◌, if◌then◌else◌,
}
use promo_go.Base.Int.{ℤ}
use promo_go.Domain.{
  Result, ok, err, internal, conflict, not_found, Client, CustomerAccount, AccountStatus, active,
  blocked, deleted,
}
use promo_go.Domain.Decimals.{Decimals}
use promo_go.Ledger.Tables.{Db, Call, get_account}
use promo_go.Loyalty.Queries.{
  Service, pure, fail, ◌>>=◌, ◌>>◌, get_by_phone, get_balance_points, create,
}
use promo_go.Qr.Store.{
  QrConfig, QrState, QrCall, Outcome, done, refused, gone, check_consume_cooldown, claim, finalize,
  release, redis_failed,
}

-- SELECT ... FROM customer_accounts WHERE id = $1
unfoldable pub find_account_by_id : ℕ → List CustomerAccount → Option CustomerAccount
find_account_by_id id [] = none
find_account_by_id id (a ∷ rest) = if a.id == id then some a else find_account_by_id id rest

abbrev pub linked_to : ℕ → Option ℕ → Bool
linked_to account none = false
linked_to account (some a) = a == account

-- The first of the account's clients that is the store's.
unfoldable pub linked_client : ℕ → ℕ → List Client → Option Client
linked_client account s [] = none
linked_client account s (c ∷ cs) =
    if linked_to account c.customer_account_id
    then (if c.store_id == s then some c else linked_client account s cs)
    else linked_client account s cs

-- UPDATE clients SET customer_account_id = $2 WHERE id = $1
unfoldable pub link_client : ℕ → ℕ → List Client → List Client
link_client id account [] = []
link_client id account (c ∷ cs) =
    (if c.id == id then record c { customer_account_id = some account } else c)
    ∷ link_client id account cs

-- The writes and reads of clients that can fail apart from those of the loyalty service.
pub data LinkCall : Type 0 where
  list_linked link : LinkCall

abbrev pub is_active : AccountStatus → Bool
is_active active = true
is_active blocked = false
is_active deleted = false

pub record Resolved : Type 0 where
  pub client : Client
  pub points : ℤ

module _ (lib : Decimals) (io : Call → Bool) (lio : LinkCall → Bool) where
  open lib use {Decimal}

  unfoldable pub link_customer_account : ℕ → ℕ → Service Decimal (Unit {0})
  link_customer_account id account db = elim (lio link) [
    | true ↦ (ok tt, record db { clients = link_client id account db.clients })
    | false ↦ (err internal, db)
  ]

  -- `ListByCustomerAccount`, and the loop that picks the store's client.
  abbrev pub list_client : ℕ → ℕ → Service Decimal (Option Client)
  list_client account s db = elim (lio list_linked) [
    | true ↦ (ok (linked_client account s db.clients), db)
    | false ↦ (err internal, db)
  ]

  -- The client that `Create` made, or the winner of a lost race.
  abbrev pub made_or_found :
      ℕ → CustomerAccount → Result Client × Db Decimal → Result Client × Db Decimal
  made_or_found s account (ok client, db) = (ok client, db)
  made_or_found s account (err conflict, db) =
      (do
        found ← get_by_phone lib io s account.phone
        elim found [ none ↦ fail not_found | some client ↦ pure client ])
        db
  made_or_found s account (err e, db) = (err e, db)

  unfoldable pub register_client : ℕ → CustomerAccount → Service Decimal Client
  unfolding link_customer_account
  register_client s account = do
    client ← λ db. made_or_found s account (create lib io s account.phone db)
    link_customer_account client.id account.id
    pure client

  unfoldable pub resolve_or_create_client_for_account : ℕ → CustomerAccount → Service Decimal Client
  unfolding register_client link_customer_account
  resolve_or_create_client_for_account s account = do
    existing ← list_client account.id s
    elim existing [
      | some client ↦ pure client
      | none ↦ (do
        found ← get_by_phone lib io s account.phone
        elim found [
          | some client ↦ (do link_customer_account client.id account.id; pure client)
          | none ↦ register_client s account
        ])
    ]

  -- The client and balance of an active account.
  unfoldable pub resolve_account : ℕ → CustomerAccount → Service Decimal Resolved
  resolve_account s account = do
    client ← resolve_or_create_client_for_account s account
    points ← get_balance_points lib io client.id
    pure (record { client = client; points = points })

  module _ (hash : Text → Text) (cfg : QrConfig) (qio : QrCall → Bool) where
    -- A success is final; a failure of the database gives the token back.
    abbrev pub settle :
        ℕ → Text → QrState → Result Resolved × Db Decimal → Outcome Resolved × QrState × Db Decimal
    settle now h q (ok r, db) = (done r, finalize hash cfg qio h q, db)
    settle now h q (err e, db) = (refused redis_failed, release hash cfg qio now h q, db)

    -- From the claim on.
    unfoldable pub resolve_claimed :
        ℕ → ℕ → ℕ → Text → QrState → Db Decimal → Outcome Resolved × QrState × Db Decimal
    unfolding resolve_account
    resolve_claimed now s account h q db = elim (io get_account) [
      | false ↦ (refused redis_failed, release hash cfg qio now h q, db)
      | true ↦ elim (find_account_by_id account db.accounts) [
        | none ↦ (refused gone, finalize hash cfg qio h q, db)
        | some a ↦
            (if is_active a.status
              then settle now h q (resolve_account s a db)
              else (refused gone, finalize hash cfg qio h q, db))
      ]
    ]

    abbrev pub after_claim :
        ℕ → ℕ → Db Decimal → Outcome (ℕ × Text) × QrState → Outcome Resolved × QrState × Db Decimal
    after_claim now s db (done (account, h), q) = resolve_claimed now s account h q db
    after_claim now s db (refused e, q) = (refused e, q, db)

    abbrev pub after_cooldown :
        ℕ
        → ℕ
        → Text
        → Db Decimal
        → Outcome (Unit {0}) × QrState
        → Outcome Resolved × QrState × Db Decimal
    after_cooldown now s payload db (done tt, q) =
        after_claim now s db (claim hash cfg qio now payload q)
    after_cooldown now s payload db (refused e, q) = (refused e, q, db)

    unfoldable pub resolve_qr :
        ℕ → ℕ → Text → Text → QrState → Db Decimal → Outcome Resolved × QrState × Db Decimal
    unfolding resolve_claimed
    resolve_qr now s payload principal q db =
        after_cooldown now s payload db (check_consume_cooldown hash cfg qio now principal q)
