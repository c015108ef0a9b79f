-- ===== src/Ledger/Effects.antt =====
-- The effects of `Post` and `PostRedeemChecked` on the tables.
use promo_go.Base.{
  ℕ, suc, ◌≡◌, refl, Bool, false, Option, none, some, List, [], ◌∷◌, arith, ◌⊎◌, inl, inr,
}
use promo_go.Base.Int.{ℤ, pos, ◌+ℤ◌, ◌≤ℤ◌, ltb_ℤ, wrap64, ◌-ℤ◌}
use promo_go.Domain.{Error, Result, ok, err, Balance, Transaction, OutboxEntry}
use promo_go.Domain.Decimals.{Decimals}
use promo_go.Ledger.Tables.{
  Db, Call, find_tx, ensure_balance_row, set_points, stored, kept_row, insert_outbox_entry,
  insert_outbox_entries, redeemed_since,
}
use promo_go.Ledger.Post.{plain_row, posted, post}
use promo_go.Ledger.Balances.{value_of, points_of-ensure_balance_row}
use promo_go.Ledger.Redeem.{post_redeem_checked}

-- A statement that writes to the outbox alone.
pub record OnlyOutbox {D : Type 0} (db db' : Db D) : Type 0 where
  pub clients : db'.clients ≡ db.clients
  pub balances : db'.balances ≡ db.balances
  pub transactions : db'.transactions ≡ db.transactions
  pub configs : db'.configs ≡ db.configs
  pub stores : db'.stores ≡ db.stores
  pub accounts : db'.accounts ≡ db.accounts
  pub now : db'.now ≡ db.now

module _ {D : Type 0} where
  OnlyOutbox-trans : {a b c : Db D} → OnlyOutbox a b → OnlyOutbox b c → OnlyOutbox a c
  OnlyOutbox-trans p q = ground arith

  OnlyOutbox-refl : (db : Db D) → OnlyOutbox db db
  OnlyOutbox-refl db = ground arith

Result-cases :
    {D : Type 0} (r : Result (Unit {0} × Db D))
    → ((mid : Db D) × (r ≡ ok (tt, mid))) ⊎ ((x : Error) × (r ≡ err x))
Result-cases (ok (tt, mid)) = inl (mid, refl)
Result-cases (err x) = inr (x, refl)

module _ {D : Type 0} (io : Call → Bool) where
  pub insert_outbox_entry-OnlyOutbox :
      (e : Option OutboxEntry) (db : Db D) {u : Unit {0}} {db' : Db D}
      → insert_outbox_entry io e db ≡ ok (u, db')
      → OnlyOutbox db db'
  unfolding insert_outbox_entry
  insert_outbox_entry-OnlyOutbox none db h = ground arith
  insert_outbox_entry-OnlyOutbox (some e) db h = ground arith

-- The state that a database transaction commits, or the one before it.
abbrev pub committed : {D A : Type 0} → Result (A × Db D) → Db D → Db D
committed (ok r) db = r.1
committed (err e) db = db

module _ {D : Type 0} (io : Call → Bool) where
  pub insert_outbox_entry_frame :
      (e : Option OutboxEntry) (db : Db D)
      → OnlyOutbox db (committed (insert_outbox_entry io e db) db)
  insert_outbox_entry_frame e db = elim (Result-cases (insert_outbox_entry io e db)) [
    | inl (mid, eq) ↦ rw eq (insert_outbox_entry-OnlyOutbox io e db eq)
    | inr (x, eq) ↦ rw eq (OnlyOutbox-refl db)
  ]

  frame_after :
      (r : Result (Unit {0} × Db D)) (mid db : Db D)
      → OnlyOutbox db mid
      → OnlyOutbox mid (committed r mid)
      → OnlyOutbox db (committed r db)
  frame_after (ok s) mid db p q = OnlyOutbox-trans p q
  frame_after (err x) mid db p q = OnlyOutbox-refl db

  -- The second part of a sequence may fail, and then nothing has happened.
  frame_step :
      (r : Result (Unit {0} × Db D)) (m : Db D → Result (Unit {0} × Db D)) (db : Db D)
      → OnlyOutbox db (committed r db)
      → ((mid : Db D) → OnlyOutbox mid (committed (m mid) mid))
      → OnlyOutbox db (committed (elim r [ ok s ↦ m s.1 | err x ↦ err x ]) db)
  frame_step (ok s) m db p q = frame_after (m s.1) s.1 db p (q s.1)
  frame_step (err x) m db p q = p

  pub insert_outbox_entries_frame :
      (es : List (Option OutboxEntry)) (db : Db D)
      → OnlyOutbox db (committed (insert_outbox_entries io es db) db)
  unfolding insert_outbox_entries
  insert_outbox_entries_frame [] db = OnlyOutbox-refl db
  insert_outbox_entries_frame (e ∷ es) db =
      frame_step (insert_outbox_entry io e db) (insert_outbox_entries io es) db
        (insert_outbox_entry_frame e db) (insert_outbox_entries_frame es)

module _ (lib : Decimals) (io : Call → Bool) where
  open lib use {Decimal}

  -- The tables after a posting by `tx` that leaves the balance `q`, up to the outbox.
  abbrev pub after_insert : Transaction Decimal → ℤ → Db Decimal → Db Decimal
  after_insert row q db = record db {
    balances = set_points row.client_id q (ensure_balance_row row.client_id db.balances);
    transactions = stored lib io (kept_row lib io row) db ∷ db.transactions;
    next_id = suc db.next_id;
  }

  -- What a successful `Post` or `PostRedeemChecked` has done.
  pub record Posted (tx : Transaction Decimal) (db : Db Decimal) (tx' : Transaction Decimal)
      (b : Balance) (db' : Db Decimal) : Type 0 where
    pub fresh : find_tx tx.store_id tx.tx_type tx.external_tx_id db.transactions ≡ none
    pub balance : b ≡ record {
      client_id = tx.client_id;
      points = value_of tx.client_id db.balances +ℤ tx.points_delta;
    }
    pub covered : pos 0 ≤ℤ b.points
    pub returned : tx' ≡ posted lib io tx (stored lib io (plain_row lib io tx b.points) db)
    pub tables : OnlyOutbox (after_insert (plain_row lib io tx b.points) b.points db) db'

  -- A successful `Post` found the key free, moved the balance by the delta to a value that is not
  -- negative, returned the row, and changed the tables by that row and that balance alone,
  -- but for the outbox.
  pub post-Posted :
      (tx : Transaction Decimal) (es : List (Option OutboxEntry)) (db : Db Decimal)
      {tx' : Transaction Decimal} {b : Balance} {db' : Db Decimal}
      → post lib io tx es db ≡ ok ((tx', b), db')
      → Posted tx db tx' b db'
  unfolding post
  post-Posted tx es db h = ground (
    arith,
    points_of-ensure_balance_row tx.client_id db.balances,
    insert_outbox_entries_frame io es (
        after_insert (plain_row lib io tx (value_of tx.client_id db.balances +ℤ tx.points_delta))
          (value_of tx.client_id db.balances +ℤ tx.points_delta) db),
  )

  -- What a successful `PostRedeemChecked` has checked against the locked rows.
  pub record Checked (tx : Transaction Decimal) (min_balance daily_limit : ℤ) (window : ℕ)
      (db : Db Decimal) : Type 0 where
    pub floor_met : min_balance ≤ℤ value_of tx.client_id db.balances
    pub limit_met :
        (ltb_ℤ (pos 0) daily_limit ≡ false)
        ⊎ (wrap64 (redeemed_since tx.client_id db.now window db.transactions -ℤ tx.points_delta)
            ≤ℤ daily_limit)

  -- A successful `PostRedeemChecked` did what a successful `Post` does, and found the balance at
  -- the minimum or above and, if there is a limit, the window's sum with this redemption within it.
  pub post_redeem_checked-Posted :
      (tx : Transaction Decimal) (min_balance daily_limit : ℤ) (window : ℕ) (e : Option OutboxEntry)
      (db : Db Decimal) {tx' : Transaction Decimal} {b : Balance} {db' : Db Decimal}
      → post_redeem_checked lib io tx min_balance daily_limit window e db ≡ ok ((tx', b), db')
      → Posted tx db tx' b db' × Checked tx min_balance daily_limit window db
  unfolding post_redeem_checked
  post_redeem_checked-Posted tx min_balance daily_limit window e db h = ground (
    arith,
    points_of-ensure_balance_row tx.client_id db.balances,
    insert_outbox_entry_frame io e (
        after_insert (plain_row lib io tx (value_of tx.client_id db.balances +ℤ tx.points_delta))
          (value_of tx.client_id db.balances +ℤ tx.points_delta) db),
  )
