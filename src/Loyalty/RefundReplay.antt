-- ===== src/Loyalty/RefundReplay.antt =====
-- `Refund` sent again with the same parameters.
use promo_go.Base.{
  ℕ, [], ◌∷◌, List, ◌≡◌, refl, Bool, true, false, Option, none, some, arith, inl, inr, Option-cases,
  text_eq_refl, ==_refl, Text, List, ◌∷◌, ◌⊎◌, subst, ◌∙◌,
}
use promo_go.Base.Int.{ℤ, pos}
use promo_go.Domain.{
  Error, Result, ok, err, conflict, Balance, Transaction, TransactionType, refund, OutboxEntry,
  type_eq, accrual, redeem,
}
use promo_go.Domain.Decimals.{Decimals}
use promo_go.Ledger.Tables.{Db, Call, get_tx, find_tx, set_refunded, mark}
use promo_go.Ledger.Refund.{post_refund}
use promo_go.Ledger.RefundEffects.{
  Refunded, original_of, post_refund-Refunded, refunded_now, post_refund_no_original, returned_now,
}
use promo_go.Loyalty.Queries.{get_by_external_id, transact}
use promo_go.Loyalty.Refund.{
  RefundRequest, RefundResult, replayed_refund, refund_draft, refunded,
  resolve_original_transaction, refund_transaction, build_notify,
}
use promo_go.Loyalty.Fingerprints.{refund_fingerprint}

abbrev mark_row : {D : Type 0} → ℕ → D → ℤ → Option (Transaction D) → Option (Transaction D)
mark_row id a p none = none
mark_row id a p (some r) = some (mark id a p r)

find_tx-set_refunded :
    {D : Type 0} (s : ℕ) (t : TransactionType) (x : Text) (id : ℕ) (a : D) (p : ℤ)
    (rs : List (Transaction D))
    → find_tx s t x (set_refunded id a p rs) ≡ mark_row id a p (find_tx s t x rs)
unfolding find_tx set_refunded
find_tx-set_refunded s t x id a p [] = refl
find_tx-set_refunded s t x id a p (r ∷ rs) = ground (arith, find_tx-set_refunded s t x id a p rs)

module _ (lib : Decimals) (io : Call → Bool) where
  open lib use {Decimal, dec_zero}

  abbrev check :
      RefundRequest Decimal → ℕ → Db Decimal → Result (Option (RefundResult Decimal)) × Db Decimal
  check req id = replayed_refund lib io req.store_id req.external_tx_id id req.amount

  -- What a replay makes of the first answer.
  abbrev pub as_replayed_refund : RefundResult Decimal → RefundResult Decimal
  as_replayed_refund r = record r {
    refunded_amount_total = dec_zero;
    fully_refunded = false;
    replayed = true;
  }

  check_reads :
      (req : RefundRequest Decimal) (id : ℕ) (db : Db Decimal) {r : RefundResult Decimal}
      {db' : Db Decimal}
      → check req id db ≡ (ok (some r), db')
      → (db' ≡ db) × (as_replayed_refund r ≡ r)
  unfolding replayed_refund
  check_reads req id db h = ground arith

  check_state : (req : RefundRequest Decimal) (id : ℕ) (db : Db Decimal) → (check req id db).1 ≡ db
  unfolding replayed_refund
  check_state req id db = ground arith

  check_needs_tx :
      (req : RefundRequest Decimal) (id : ℕ) (db : Db Decimal) {o : Option (RefundResult Decimal)}
      → (check req id db).0 ≡ ok o
      → io get_tx ≡ true
  unfolding replayed_refund
  check_needs_tx req id db h = ground arith

  posted_found :
      (req : RefundRequest Decimal) (id : ℕ) (o : Transaction Decimal) (db : Db Decimal)
      {tx o' : Transaction Decimal} {b : Balance} {db' : Db Decimal}
      → io get_tx ≡ true
      → Refunded lib io (refund_draft lib io req id) o db tx o' b db'
      → check req id db' ≡ (
        ok (
            some (record {
              client_id = tx.client_id;
              points_reversed = tx.points_delta;
              balance = b.points;
              refunded_amount_total = dec_zero;
              fully_refunded = false;
              replayed = true;
            })),
        db',
      )
  unfolding replayed_refund find_tx
  posted_found req id o db e h = ground (
    arith,
    h.tables.transactions,
    h.returned,
    h.balance,
    ==_refl req.store_id,
    text_eq_refl req.external_tx_id,
    text_eq_refl (refund_fingerprint lib id req.amount),
  )

  -- Whatever the ledger answered: if the request ends in a result, the check finds it again, and
  -- the transactions are those of before, or those and the refund's row.
  answered :
      (req : RefundRequest Decimal) (id : ℕ) (bn : Option (ℤ → Option OutboxEntry))
      (db : Db Decimal)
      (m : Result ((Transaction Decimal × Transaction Decimal × Balance) × Db Decimal))
      {r : RefundResult Decimal} {db' : Db Decimal}
      → io get_tx ≡ true
      → post_refund lib io (refund_draft lib io req id) bn db ≡ m
      → refunded lib io req id (elim m [ ok a ↦ (ok a.0, a.1) | err x ↦ (err x, db) ])
        ≡ (ok (some r), db')
      → check req id db' ≡ (ok (some (as_replayed_refund r)), db')
  unfolding refunded
  answered req id bn db (ok ((tx, o', b), db')) io_tx posted h =
      elim (Option-cases (original_of lib io (refund_draft lib io req id) db)) [
        | inl missing ↦
            absurd
              (post_refund_no_original lib io (refund_draft lib io req id) bn db missing posted)
        | inr (o, found) ↦ ground (
          arith,
          posted_found req id o db io_tx
              (post_refund-Refunded lib io (refund_draft lib io req id) bn db o found posted),
        )
      ]
  answered req id bn db (err conflict) io_tx posted h =
      cc (h, (check_reads req id db h).0, (check_reads req id db h).1)
  answered req id bn db (err x) io_tx posted h = ground arith

  -- How a key is found after the request: as before, or with the refunded totals of some row
  -- changed, unless the key is a refund's.
  pub record Kept (db db' : Db Decimal) : Type 0 where
    pub id : ℕ
    pub amount : Decimal
    pub points : ℤ
    pub found :
        (s : ℕ) (t : TransactionType) (x : Text)
        → type_eq refund t ≡ false
        → (find_tx s t x db'.transactions ≡ find_tx s t x db.transactions)
          ⊎ (find_tx s t x db'.transactions
              ≡ mark_row id amount points (find_tx s t x db.transactions))

  unchanged : (db db' : Db Decimal) → db' ≡ db → Kept db db'
  unchanged db db' e = record {
    id = 0;
    amount = dec_zero;
    points = pos 0;
    found = λ s t x ne. inl (rw e refl);
  }

  Refunded-Kept :
      (r o : Transaction Decimal) (db : Db Decimal) {tx o' : Transaction Decimal} {b : Balance}
      {db' : Db Decimal}
      → Refunded lib io r o db tx o' b db'
      → Kept db db'
  unfolding find_tx
  Refunded-Kept r o db h = record {
    id = o.id;
    amount = lib.to_numeric (refunded_now lib io r o db);
    points = returned_now lib io r o db;
    found = λ s t x ne. inr (
        ground (
          arith,
          h.tables.transactions,
          find_tx-set_refunded s t x o.id (lib.to_numeric (refunded_now lib io r o db))
              (returned_now lib io r o db) db.transactions,
        ));
  }

  answered-Kept :
      (req : RefundRequest Decimal) (id : ℕ) (bn : Option (ℤ → Option OutboxEntry))
      (db : Db Decimal)
      (m : Result ((Transaction Decimal × Transaction Decimal × Balance) × Db Decimal))
      {r : RefundResult Decimal} {db' : Db Decimal}
      → post_refund lib io (refund_draft lib io req id) bn db ≡ m
      → refunded lib io req id (elim m [ ok a ↦ (ok a.0, a.1) | err x ↦ (err x, db) ])
        ≡ (ok (some r), db')
      → Kept db db'
  unfolding refunded
  answered-Kept req id bn db (ok ((tx, o', b), mid)) {db' = db'} posted h =
      elim (Option-cases (original_of lib io (refund_draft lib io req id) db)) [
        | inl missing ↦
            absurd
              (post_refund_no_original lib io (refund_draft lib io req id) bn db missing posted)
        | inr (o, found) ↦
            subst (λ d. Kept db d) (ground arith)
              (Refunded-Kept (refund_draft lib io req id) o db
                (post_refund-Refunded lib io (refund_draft lib io req id) bn db o found posted))
      ]
  answered-Kept req id bn db (err conflict) {db' = db'} posted h =
      unchanged db db' (check_reads req id db h).0
  answered-Kept req id bn db (err x) posted h = absurd (ground arith)

  -- The id that the original resolves to.
  abbrev id_of : Result (Transaction Decimal) × Db Decimal → Option ℕ
  id_of (ok o, db) = some o.id
  id_of (err e, db) = none

  abbrev resolve : RefundRequest Decimal → Db Decimal → Result (Transaction Decimal) × Db Decimal
  resolve req =
      resolve_original_transaction lib io req.store_id req.original_external_tx_id req.original_type

  abbrev pub NotOfRefund : Option TransactionType → Type 0
  NotOfRefund none = Unit
  NotOfRefund (some t) = type_eq refund t ≡ false

  resolve_kept_for :
      (req : RefundRequest Decimal) (t : Option TransactionType) (db db' : Db Decimal)
      → NotOfRefund t
      → Kept db db'
      → id_of (resolve_original_transaction lib io req.store_id req.original_external_tx_id t db')
        ≡ id_of (resolve_original_transaction lib io req.store_id req.original_external_tx_id t db)
  unfolding resolve_original_transaction get_by_external_id
  resolve_kept_for req (some t) db db' ne k =
      ground (arith, k.found req.store_id t req.original_external_tx_id ne)
  resolve_kept_for req none db db' ne k = ground (
    arith,
    k.found req.store_id accrual req.original_external_tx_id refl,
    k.found req.store_id redeem req.original_external_tx_id refl,
  )

  resolve_state :
      (req : RefundRequest Decimal) (t : Option TransactionType) (db : Db Decimal)
      → (resolve_original_transaction lib io req.store_id req.original_external_tx_id t db).1 ≡ db
  unfolding resolve_original_transaction get_by_external_id
  resolve_state req (some t) db = ground arith
  resolve_state req none db = ground arith

  answer_cases :
      (m : Result (Transaction Decimal) × Db Decimal)
      → ((o : Transaction Decimal) × (m.0 ≡ ok o)) ⊎ ((e : Error) × (m.0 ≡ err e))
  answer_cases (ok o, db) = inl (o, refl)
  answer_cases (err e, db) = inr (e, refl)

  -- A request whose original resolves and whose replay check finds an answer returns that answer.
  again :
      (req : RefundRequest Decimal) (id : ℕ) (db : Db Decimal) (x : RefundResult Decimal)
      → id_of (resolve req db) ≡ some id
      → check req id db ≡ (ok (some x), db)
      → refund_transaction lib io (λ d. d) req db ≡ (ok (some x), db)
  unfolding refund_transaction
  again req id db x named found = elim (answer_cases (resolve req db)) [
    | inl (o, e) ↦ ground (arith, resolve_state req req.original_type db)
    | inr (e, failed) ↦ ground arith
  ]

  -- The request from its resolved original on.
  abbrev onward :
      RefundRequest Decimal
      → Transaction Decimal
      → Db Decimal
      → Result (Option (RefundResult Decimal)) × Db Decimal
  onward req o db = refunded lib io req o.id (
      transact
        (post_refund lib io (refund_draft lib io req o.id) (build_notify lib io req o.client_id))
        db)

  -- A success is a replay that the check found, or the ledger's answer.
  split_answer :
      (req : RefundRequest Decimal) (o : Transaction Decimal) (db : Db Decimal)
      {r : RefundResult Decimal} {db' : Db Decimal}
      → (resolve req db).0 ≡ ok o
      → refund_transaction lib io (λ d. d) req db ≡ (ok (some r), db')
      → (io get_tx ≡ true)
        × ((check req o.id db ≡ (ok (some r), db')) ⊎ (onward req o db ≡ (ok (some r), db')))
  unfolding refund_transaction
  split_answer req o db {r} {db'} e h = ground (
    arith,
    resolve_state req req.original_type db,
    check_state req o.id db,
    check_needs_tx req o.id db {o = none},
    check_needs_tx req o.id db {o = some r},
  )

  first_answer_for :
      (req : RefundRequest Decimal) (o : Transaction Decimal) (db : Db Decimal)
      {r : RefundResult Decimal} {db' : Db Decimal}
      → (resolve req db).0 ≡ ok o
      → refund_transaction lib io (λ d. d) req db ≡ (ok (some r), db')
      → (id : ℕ) × (id_of (resolve req db) ≡ some id)
        × (check req id db' ≡ (ok (some (as_replayed_refund r)), db'))
        × Kept db db'
  first_answer_for req o db {r} {db'} e h =
      let (io_tx, parts) = split_answer req o db e h in
      elim parts [
        | inl replay ↦ (
          o.id,
          ground (arith, e),
          cc (replay, (check_reads req o.id db replay).0, (check_reads req o.id db replay).1),
          unchanged db db' (check_reads req o.id db replay).0,
        )
        | inr posted ↦
            let bn = build_notify lib io req o.client_id in
            let m = post_refund lib io (refund_draft lib io req o.id) bn db in
            (
              o.id,
              ground (arith, e),
              answered req o.id bn db m io_tx refl posted,
              answered-Kept req o.id bn db m refl posted,
            )
      ]

  -- What a successful request has found, and how it left the tables.
  first_answer :
      (req : RefundRequest Decimal) (db : Db Decimal) {r : RefundResult Decimal} {db' : Db Decimal}
      → refund_transaction lib io (λ d. d) req db ≡ (ok (some r), db')
      → (id : ℕ) × (id_of (resolve req db) ≡ some id)
        × (check req id db' ≡ (ok (some (as_replayed_refund r)), db'))
        × Kept db db'
  unfolding refund_transaction
  first_answer req db {r} {db'} h = elim (answer_cases (resolve req db)) [
    | inl (o, e) ↦ first_answer_for req o db e h
    | inr (e, failed) ↦ absurd (ground arith)
  ]

  -- A refund that succeeded and is sent again returns the same client, point effect and balance
  -- and changes nothing, but reports a refunded total of zero and an original that is not fully
  -- refunded, whatever the first answer reported (no other request in between; the named type, if
  -- any, is that of an accrual or a redemption).
  pub refund_transaction_replay :
      (req : RefundRequest Decimal) (db : Db Decimal) {r : RefundResult Decimal} {db' : Db Decimal}
      → NotOfRefund req.original_type
      → refund_transaction lib io (λ d. d) req db ≡ (ok (some r), db')
      → refund_transaction lib io (λ d. d) req db' ≡ (ok (some (as_replayed_refund r)), db')
  refund_transaction_replay req db {r} {db'} ne h =
      let (id, named, found, kept) = first_answer req db h in
      again req id db' (as_replayed_refund r)
        (resolve_kept_for req req.original_type db db' ne kept ∙ named) found
