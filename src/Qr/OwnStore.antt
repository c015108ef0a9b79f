-- ===== src/Qr/OwnStore.antt =====
-- The store of the client that `ResolveQR` returns.
use promo_go.Base.{
  ℕ, ◌≡◌, Bool, some, List, [], ◌∷◌, Text, arith, Option-cases, Bool-cases, inl, inr,
}
use promo_go.Domain.{Client, CustomerAccount, ok, err, conflict, Result}
use promo_go.Domain.Decimals.{Decimals}
use promo_go.Ledger.Tables.{Db, Call, get_client, get_account}
use promo_go.Loyalty.Queries.{find_client, get_by_phone, create, pure, ◌>>◌, get_balance_points}
use promo_go.Qr.Resolve.{
  linked_client, LinkCall, Resolved, register_client, resolve_or_create_client_for_account,
  resolve_account, resolve_claimed, resolve_qr, made_or_found, link_customer_account, list_linked,
  settle, after_claim, after_cooldown, find_account_by_id,
}
use promo_go.Qr.Store.{
  QrConfig, QrState, QrCall, done, Outcome, check_consume_cooldown, claim, refused,
}

find_client-store :
    (s : ℕ) (p : Text) (cs : List Client) (c : Client)
    → find_client s p cs ≡ some c
    → c.store_id ≡ s
unfolding find_client
find_client-store s p [] c h = absurd (ground arith)
find_client-store s p (d ∷ ds) c h = ground (arith, find_client-store s p ds c)

linked_client-store :
    (account s : ℕ) (cs : List Client) (c : Client)
    → linked_client account s cs ≡ some c
    → c.store_id ≡ s
unfolding linked_client
linked_client-store account s [] c h = absurd (ground arith)
linked_client-store account s (d ∷ ds) c h = ground (arith, linked_client-store account s ds c)

module _ (lib : Decimals) (io : Call → Bool) (lio : LinkCall → Bool) where
  open lib use {Decimal}

  get_by_phone-store :
      (s : ℕ) (p : Text) (db : Db Decimal) (c : Client)
      → (get_by_phone lib io s p db).0 ≡ ok (some c)
      → c.store_id ≡ s
  unfolding get_by_phone
  get_by_phone-store s p db c h = ground (arith, find_client-store s p db.clients c)

  create-store :
      (s : ℕ) (p : Text) (db : Db Decimal) (c : Client)
      → (create lib io s p db).0 ≡ ok c
      → c.store_id ≡ s
  unfolding create
  create-store s p db c h = ground arith

  made_or_found-store :
      (s : ℕ) (a : CustomerAccount) (m : Result Client × Db Decimal) (c : Client)
      → (m.0 ≡ ok c → c.store_id ≡ s)
      → (made_or_found lib io lio s a m).0 ≡ ok c
      → c.store_id ≡ s
  made_or_found-store s a (ok d, db) c same h = same h
  made_or_found-store s a (err conflict, db) c same h =
      ground (arith, get_by_phone-store s a.phone db c)
  made_or_found-store s a (err e, db) c same h = ground arith

  -- The rest of a registration links the client and gives it back.
  abbrev linked_after : ℕ → Result Client × Db Decimal → Result Client × Db Decimal
  linked_after account m = elim (m.0) [
    | ok d ↦ (link_customer_account lib io lio d.id account >> pure d) m.1
    | err e ↦ (err e, m.1)
  ]

  link_rest :
      (account : ℕ) (m : Result Client × Db Decimal) (c : Client)
      → (linked_after account m).0 ≡ ok c
      → m.0 ≡ ok c
  unfolding link_customer_account
  link_rest account (ok d, db) c h = ground arith
  link_rest account (err e, db) c h = absurd (ground arith)

  register_client-store :
      (s : ℕ) (a : CustomerAccount) (db : Db Decimal) (c : Client)
      → (register_client lib io lio s a db).0 ≡ ok c
      → c.store_id ≡ s
  unfolding register_client link_customer_account
  register_client-store s a db c h =
      let made = made_or_found lib io lio s a (create lib io s a.phone db) in
      made_or_found-store s a (create lib io s a.phone db) c (create-store s a.phone db c)
        (link_rest a.id made c h)

  resolve_or_create_client_for_account-store :
      (s : ℕ) (a : CustomerAccount) (db : Db Decimal) (c : Client)
      → (resolve_or_create_client_for_account lib io lio s a db).0 ≡ ok c
      → c.store_id ≡ s
  unfolding resolve_or_create_client_for_account link_customer_account get_by_phone
  resolve_or_create_client_for_account-store s a db c h = elim (Bool-cases (lio list_linked)) [
    | inr unread ↦ absurd (ground arith)
    | inl read ↦ elim (Option-cases (linked_client a.id s db.clients)) [
      | inr (d, found) ↦ ground (arith, linked_client-store a.id s db.clients d)
      | inl unlinked ↦ elim (Bool-cases (io get_client)) [
        | inr down ↦ absurd (ground arith)
        | inl answers ↦ elim (Option-cases (find_client s a.phone db.clients)) [
          | inr (d, found) ↦ ground (arith, find_client-store s a.phone db.clients d)
          | inl new ↦ ground (arith, register_client-store s a db c)
        ]
      ]
    ]
  ]

  resolve_account-store :
      (s : ℕ) (a : CustomerAccount) (db : Db Decimal) (r : Resolved)
      → (resolve_account lib io lio s a db).0 ≡ ok r
      → r.client.store_id ≡ s
  unfolding resolve_account get_balance_points
  resolve_account-store s a db r h =
      ground (arith, resolve_or_create_client_for_account-store s a db r.client)

  module _ (hash : Text → Text) (cfg : QrConfig) (qio : QrCall → Bool) where
    settle-store :
        (now s : ℕ) (h : Text) (q : QrState) (m : Result Resolved × Db Decimal) (r : Resolved)
        → (m.0 ≡ ok r → r.client.store_id ≡ s)
        → (settle lib io lio hash cfg qio now h q m).0 ≡ done r
        → r.client.store_id ≡ s
    settle-store now s h q (ok x, db) r same e = ground arith
    settle-store now s h q (err x, db) r same e = absurd (ground arith)

    resolve_claimed-store :
        (now s account : ℕ) (h : Text) (q : QrState) (db : Db Decimal) (r : Resolved)
        → (resolve_claimed lib io lio hash cfg qio now s account h q db).0 ≡ done r
        → r.client.store_id ≡ s
    unfolding resolve_claimed
    resolve_claimed-store now s account h q db r e = elim (Bool-cases (io get_account)) [
      | inr down ↦ absurd (ground arith)
      | inl answers ↦ elim (Option-cases (find_account_by_id account db.accounts)) [
        | inl lost ↦ absurd (ground arith)
        | inr (a, found) ↦ ground (
          arith,
          settle-store now s h q (resolve_account lib io lio s a db) r
              (resolve_account-store s a db r),
        )
      ]
    ]

    after_claim-store :
        (now s : ℕ) (db : Db Decimal) (c : Outcome (ℕ × Text) × QrState) (r : Resolved)
        → (after_claim lib io lio hash cfg qio now s db c).0 ≡ done r
        → r.client.store_id ≡ s
    after_claim-store now s db (done (account, h), q) r e =
        resolve_claimed-store now s account h q db r e
    after_claim-store now s db (refused x, q) r e = absurd (ground arith)

    after_cooldown-store :
        (now s : ℕ) (payload : Text) (db : Db Decimal) (c : Outcome (Unit {0}) × QrState)
        (r : Resolved)
        → (after_cooldown lib io lio hash cfg qio now s payload db c).0 ≡ done r
        → r.client.store_id ≡ s
    after_cooldown-store now s payload db (done tt, q) r e =
        after_claim-store now s db (claim hash cfg qio now payload q) r e
    after_cooldown-store now s payload db (refused x, q) r e = absurd (ground arith)

    -- A payload that resolves gives a client of the calling store, whichever account it was issued
    -- to, whichever store's clients that account has, and whichever calls fail.
    pub resolve_qr-store :
        (now s : ℕ) (payload principal : Text) (q : QrState) (db : Db Decimal) (r : Resolved)
        → (resolve_qr lib io lio hash cfg qio now s payload principal q db).0 ≡ done r
        → r.client.store_id ≡ s
    unfolding resolve_qr
    resolve_qr-store now s payload principal q db r e =
        after_cooldown-store now s payload db (check_consume_cooldown hash cfg qio now principal q)
          r e
