-- ===== src/Ledger/Tables.antt =====
-- The tables that the repositories read and write, with one function for each SQL statement of
-- internal/repository/postgres/ledger_repository.go, and the unit in which they run: a database
-- transaction (`Sql`), whose changes are lost when it ends in an error, as `defer dbTx.Rollback`
-- and a final `dbTx.Commit` make it. Table rows stand newest first.
use promo_go.Base.{
  ℕ, suc, ◌+◌, Bool, true, false, Option, none, some, List, [], ◌∷◌, Text, text_eq, ◌==◌, ltb, ◌&&◌,
  ◌||◌, if◌then◌else◌, not,
}
use promo_go.Base.Int.{ℤ, pos, ◌+ℤ◌, ◌-ℤ◌, ltb_ℤ, leb_ℤ, in_int64}
use promo_go.Domain.{
  Error, Result, ok, err, internal, conflict, Client, Balance, Transaction, TransactionType,
  accrual, redeem, refund, type_eq, OutboxEntry, OutboxChannel, unset, push, sms, pending,
  LoyaltyConfig, Store, CustomerAccount,
}
use promo_go.Domain.Decimals.{Decimals, is_negative}

pub record Db (D : Type 0) : Type 0 where
  pub clients : List Client
  pub balances : List Balance
  pub transactions : List (Transaction D)
  pub outbox : List OutboxEntry
  pub configs : List (LoyaltyConfig D)
  pub stores : List Store
  pub accounts : List CustomerAccount
  pub next_id : ℕ  -- above every id that a sequence has given out
  pub now : ℕ

-- The calls of the database that can fail for a reason outside the model (the connection, a
-- timeout, a foreign key).
pub data Call : Type 0 where
  begin_tx ensure_row adjust insert_row enqueue commit lock_balance window_sum lock_original : Call
  update_original get_client get_tx get_config get_balance create_client : Call
  get_store get_account count_invites : Call

abbrev pub Sql : Type 0 → Type 0 → Type 0
Sql D A = Db D → Result (A × Db D)

module _ {D : Type 0} where
  abbrev pub pure : {A : Type 0} → A → Sql D A
  pure a db = ok (a, db)

  abbrev pub fail : {A : Type 0} → Error → Sql D A
  fail e db = err e

  infixl 5 ◌>>=◌ ◌>>◌
  abbrev pub ◌>>=◌ : {A B : Type 0} → Sql D A → (A → Sql D B) → Sql D B
  ◌>>=◌ m f db = elim (m db) [ ok r ↦ f r.0 r.1 | err e ↦ err e ]

  abbrev pub ◌>>◌ : {B : Type 0} → Sql D (Unit {0}) → Sql D B → Sql D B
  m >> k = m >>= λ _. k

  abbrev pub gets : {A : Type 0} → (Db D → A) → Sql D A
  gets f db = ok (f db, db)

  abbrev pub modify : (Db D → Db D) → Sql D (Unit {0})
  modify f db = ok (tt, f db)

  abbrev pub call : (Call → Bool) → Call → Sql D (Unit {0})
  call io c db = elim (io c) [ true ↦ ok (tt, db) | false ↦ err internal ]

  abbrev pub or_fail : {A : Type 0} → Option A → Error → Sql D A
  or_fail none e = fail e
  or_fail (some a) e = pure a

  abbrev pub fail_if : Bool → Error → Sql D (Unit {0})
  fail_if b e db = elim b [ true ↦ err e | false ↦ ok (tt, db) ]

-- SELECT points FROM balances WHERE client_id = $1
unfoldable pub points_of : ℕ → List Balance → Option ℤ
points_of c [] = none
points_of c (b ∷ bs) = if b.client_id == c then some b.points else points_of c bs

-- INSERT INTO balances (client_id, points) VALUES ($1, 0) ON CONFLICT (client_id) DO NOTHING
unfoldable pub ensure_balance_row : ℕ → List Balance → List Balance
ensure_balance_row c bs = elim (points_of c bs) [
  | none ↦ record { client_id = c; points = pos 0 } ∷ bs
  | some _ ↦ bs
]

-- UPDATE balances SET points = $2 WHERE client_id = $1
unfoldable pub set_points : ℕ → ℤ → List Balance → List Balance
set_points c p [] = []
set_points c p (b ∷ bs) =
    if b.client_id == c then record b { points = p } ∷ bs else b ∷ set_points c p bs

-- The constraint transactions_points_delta_sign_check.
abbrev pub sign_ok : TransactionType → ℤ → Bool
sign_ok accrual d = leb_ℤ (pos 0) d
sign_ok redeem d = leb_ℤ d (pos 0)
sign_ok refund d = true

module _ {D : Type 0} where
  abbrev pub with_balances : List Balance → Db D → Db D
  with_balances bs db = record db { balances = bs }

  -- UPDATE balances SET points = points + $2 WHERE client_id = $1 [AND points + $2 >= 0]
  -- RETURNING points. A sum outside BIGINT is an error of the statement; `none` is no row.
  unfoldable pub adjust_balance : Bool → ℕ → ℤ → Sql D (Option ℤ)
  adjust_balance guarded c delta db = elim (points_of c db.balances) [
    | none ↦ ok (none, db)
    | some p ↦
        (if in_int64 (p +ℤ delta)
          then (if guarded && ltb_ℤ (p +ℤ delta) (pos 0)
              then ok (none, db)
              else ok (some (p +ℤ delta), with_balances (set_points c (p +ℤ delta) db.balances) db))
          else err internal)
  ]

  -- The row that the index (store_id, type, external_tx_id) finds.
  unfoldable pub find_tx :
      ℕ → TransactionType → Text → List (Transaction D) → Option (Transaction D)
  find_tx s t x [] = none
  find_tx s t x (r ∷ rs) =
      if (r.store_id == s) && (type_eq r.tx_type t && text_eq r.external_tx_id x)
      then some r
      else find_tx s t x rs

  -- SELECT ... FROM transactions WHERE id = $1 AND store_id = $2
  unfoldable pub find_by_id : ℕ → ℕ → List (Transaction D) → Option (Transaction D)
  find_by_id id s [] = none
  find_by_id id s (r ∷ rs) =
      if (r.id == id) && (r.store_id == s) then some r else find_by_id id s rs

  abbrev pub mark : ℕ → D → ℤ → Transaction D → Transaction D
  mark id a p r = if r.id == id then record r { refunded_amount = a; refunded_points = p } else r

  -- UPDATE transactions SET refunded_amount = $2, refunded_points = $3 WHERE id = $1, for an amount
  -- as the NUMERIC(20,2) column keeps it
  unfoldable pub set_refunded : ℕ → D → ℤ → List (Transaction D) → List (Transaction D)
  set_refunded id a p [] = []
  set_refunded id a p (r ∷ rs) = mark id a p r ∷ set_refunded id a p rs

  -- SELECT COALESCE(SUM(-points_delta), 0) FROM transactions
  -- WHERE client_id = $1 AND type = 'redeem' AND created_at > now() - $2::interval
  unfoldable pub redeemed_since : ℕ → ℕ → ℕ → List (Transaction D) → ℤ
  redeemed_since c now window [] = pos 0
  redeemed_since c now window (r ∷ rs) =
      if (r.client_id == c) && (type_eq r.tx_type redeem && ltb now (r.created_at + window))
      then (pos 0 -ℤ r.points_delta) +ℤ redeemed_since c now window rs
      else redeemed_since c now window rs

-- INSERT INTO notification_outbox (...) ON CONFLICT (dedupe_key) DO NOTHING
unfoldable pub has_dedupe_key : Text → List OutboxEntry → Bool
has_dedupe_key k [] = false
has_dedupe_key k (e ∷ es) = text_eq e.dedupe_key k || has_dedupe_key k es

-- An entry with no channel is a push.
abbrev pub default_channel : OutboxChannel → OutboxChannel
default_channel unset = push
default_channel push = push
default_channel sms = sms

abbrev pub outbox_row : ℕ → ℕ → OutboxEntry → OutboxEntry
outbox_row id now e = record {
  id = id;
  client_id = e.client_id;
  channel = default_channel e.channel;
  template_id = e.template_id;
  template_version = e.template_version;
  message = e.message;
  dedupe_key = e.dedupe_key;
  status = pending;
  attempts = 0;
  next_attempt_at = now;
  last_error = [];
  created_at = now;
  delivered_at = none;
}

module _ {D : Type 0} (io : Call → Bool) where
  -- `insertOutboxEntry`: nil is no statement.
  unfoldable pub insert_outbox_entry : Option OutboxEntry → Sql D (Unit {0})
  unfolding has_dedupe_key
  insert_outbox_entry none db = ok (tt, db)
  insert_outbox_entry (some e) db =
      if io enqueue
      then (if has_dedupe_key e.dedupe_key db.outbox
          then ok (tt, db)
          else ok (
            tt,
            record db {
              outbox = outbox_row db.next_id db.now e ∷ db.outbox;
              next_id = suc db.next_id;
            },
          ))
      else err internal

  -- The loop over `notify`.
  unfoldable pub insert_outbox_entries : List (Option OutboxEntry) → Sql D (Unit {0})
  unfolding insert_outbox_entry
  insert_outbox_entries [] db = ok (tt, db)
  insert_outbox_entries (e ∷ es) db = elim (insert_outbox_entry e db) [
    | ok r ↦ insert_outbox_entries es r.1
    | err x ↦ err x
  ]

module _ (lib : Decimals) (io : Call → Bool) where
  open lib use {Decimal, to_numeric}

  -- The NUMERIC(20,2) columns round to two decimals.
  abbrev pub kept_row : Transaction Decimal → Transaction Decimal
  kept_row row = record row {
    amount = to_numeric row.amount;
    refund_cumulative_amount = to_numeric row.refund_cumulative_amount;
  }

  -- The row as it is stored: the sequence and now() fill in two columns.
  abbrev pub stored : Transaction Decimal → Db Decimal → Transaction Decimal
  stored row db = record row { id = db.next_id; created_at = db.now }

  -- INSERT INTO transactions (...) RETURNING id, created_at: the caller's struct keeps its own
  -- amounts. A taken key is the code 23505; a
  -- failed CHECK is another error.
  unfoldable pub insert_transaction : Transaction Decimal → Sql Decimal (Transaction Decimal)
  insert_transaction row db =
      elim (find_tx row.store_id row.tx_type row.external_tx_id db.transactions) [
        | some _ ↦ err conflict
        | none ↦
            (if io insert_row
                && (sign_ok row.tx_type row.points_delta
                    && not (is_negative lib (to_numeric row.amount)))
              then ok (
                stored row db,
                record db {
                  transactions = stored (kept_row row) db ∷ db.transactions;
                  next_id = suc db.next_id;
                },
              )
              else err internal)
      ]
