-- ===== src/Loyalty/Queries.antt =====
-- The repositories' reads and writes that the loyalty service makes outside the ledger
-- (internal/repository/postgres: client, transaction, balance, loyalty_config and store
-- repositories), and the unit in which a use case runs: unlike a database transaction, it keeps
-- what it has written when it fails.
use promo_go.Base.{
  ℕ, suc, ◌+◌, Bool, true, false, Option, none, some, List, [], ◌∷◌, Text, text_eq, ◌==◌, ◌&&◌, leb,
  if◌then◌else◌,
}
use promo_go.Base.Int.{ℤ}
use promo_go.Domain.{
  Error, Result, ok, err, internal, conflict, Client, Transaction, TransactionType, OutboxEntry,
  LoyaltyConfig, Store, CustomerAccount,
}
use promo_go.Domain.Decimals.{Decimals}
use promo_go.Ledger.Tables.{
  Db, Call, Sql, find_tx, create_client, get_balance, get_client, get_config, get_tx,
}
use promo_go.Ledger.Balances.{value_of}

abbrev pub Service : Type 0 → Type 0 → Type 0
Service D A = Db D → Result A × Db D

module _ {D : Type 0} where
  abbrev pub pure : {A : Type 0} → A → Service D A
  pure a db = (ok a, db)

  abbrev pub fail : {A : Type 0} → Error → Service D A
  fail e db = (err e, db)

  infixl 5 ◌>>=◌ ◌>>◌
  abbrev pub ◌>>=◌ : {A B : Type 0} → Service D A → (A → Service D B) → Service D B
  ◌>>=◌ m f db = elim ((m db).0) [ ok a ↦ f a (m db).1 | err e ↦ (err e, (m db).1) ]

  abbrev pub ◌>>◌ : {B : Type 0} → Service D (Unit {0}) → Service D B → Service D B
  m >> k = m >>= λ _. k

  -- A method of the ledger: its database transaction commits, or nothing is written.
  abbrev pub transact : {A : Type 0} → Sql D A → Service D A
  transact m db = elim (m db) [ ok r ↦ (ok r.0, r.1) | err e ↦ (err e, db) ]

  -- What other requests commit meanwhile.
  abbrev pub meanwhile : (Db D → Db D) → Service D (Unit {0})
  meanwhile others db = (ok tt, others db)

-- SELECT ... FROM clients WHERE store_id = $1 AND phone = $2
unfoldable pub find_client : ℕ → Text → List Client → Option Client
find_client s p [] = none
find_client s p (c ∷ cs) =
    if (c.store_id == s) && text_eq c.phone p then some c else find_client s p cs

-- SELECT ... FROM clients WHERE id = $1
unfoldable pub find_client_by_id : ℕ → List Client → Option Client
find_client_by_id id [] = none
find_client_by_id id (c ∷ cs) = if c.id == id then some c else find_client_by_id id cs

unfoldable pub find_config : {D : Type 0} → ℕ → List (LoyaltyConfig D) → Option (LoyaltyConfig D)
find_config s [] = none
find_config s (c ∷ cs) = if c.store_id == s then some c else find_config s cs

unfoldable pub find_store : ℕ → List Store → Option Store
find_store s [] = none
find_store s (c ∷ cs) = if c.id == s then some c else find_store s cs

unfoldable pub find_account : Text → List CustomerAccount → Option CustomerAccount
find_account p [] = none
find_account p (a ∷ as') = if text_eq a.phone p then some a else find_account p as'

abbrev pub in_store : ℕ → Option Client → Bool
in_store s none = false
in_store s (some c) = c.store_id == s

-- SELECT count(*) FROM notification_outbox o JOIN clients c ON c.id = o.client_id
-- WHERE o.template_id = $2 AND o.created_at >= $3 AND c.store_id = $1, for $3 = now - window
unfoldable pub count_since : ℕ → Text → ℕ → ℕ → List Client → List OutboxEntry → ℕ
count_since s t now window cs [] = 0
count_since s t now window cs (e ∷ es) =
    if text_eq e.template_id t
      && (leb now (e.created_at + window) && in_store s (find_client_by_id e.client_id cs))
    then suc (count_since s t now window cs es)
    else count_since s t now window cs es

abbrev pub new_client : {D : Type 0} → ℕ → Text → Db D → Client
new_client s p db = record { id = db.next_id; store_id = s; phone = p; customer_account_id = none }

module _ (lib : Decimals) (io : Call → Bool) where
  open lib use {Decimal, dec_zero}

  -- One read: the answer, or an error of the database.
  abbrev pub ask : {A : Type 0} → Call → (Db Decimal → A) → Service Decimal A
  ask c f db = elim (io c) [ true ↦ (ok (f db), db) | false ↦ (err internal, db) ]

  -- `TransactionRepository.GetByExternalID`. Its column list leaves out currency, rule_version,
  -- refund_cumulative_amount and refund_fully_refunded, so these keep their zero values.
  abbrev pub scanned : Transaction Decimal → Transaction Decimal
  scanned row = record row {
    currency = [];
    rule_version = none;
    refund_cumulative_amount = dec_zero;
    refund_fully_refunded = false;
  }

  abbrev pub scanned_row : Option (Transaction Decimal) → Option (Transaction Decimal)
  scanned_row none = none
  scanned_row (some row) = some (scanned row)

  unfoldable pub get_by_external_id :
      ℕ → TransactionType → Text → Service Decimal (Option (Transaction Decimal))
  get_by_external_id s t x = ask get_tx (λ db. scanned_row (find_tx s t x db.transactions))

  unfoldable pub get_by_phone : ℕ → Text → Service Decimal (Option Client)
  get_by_phone s p = ask get_client (λ db. find_client s p db.clients)

  unfoldable pub get_by_id : ℕ → Service Decimal (Option Client)
  get_by_id id = ask get_client (λ db. find_client_by_id id db.clients)

  unfoldable pub get_balance_points : ℕ → Service Decimal ℤ
  get_balance_points c = ask get_balance (λ db. value_of c db.balances)

  unfoldable pub get_by_store : ℕ → Service Decimal (Option (LoyaltyConfig Decimal))
  get_by_store s = ask get_config (λ db. find_config s db.configs)

  -- `ClientRepository.Create`, under the unique index on (store_id, phone).
  unfoldable pub create : ℕ → Text → Service Decimal Client
  create s p db = elim (io create_client) [
    | false ↦ (err internal, db)
    | true ↦ elim (find_client s p db.clients) [
      | some _ ↦ (err conflict, db)
      | none ↦ (
        ok (new_client s p db),
        record db { clients = new_client s p db ∷ db.clients; next_id = suc db.next_id },
      )
    ]
  ]
