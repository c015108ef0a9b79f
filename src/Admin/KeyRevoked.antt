-- ===== src/Admin/KeyRevoked.antt =====
-- Proofs about Admin/Keys and Admin/KeyAuth: what lets a request in, and what a revocation ends.
use promo_go.Base.{
  ℕ, ◌≡◌, ◌≢◌, refl, sym, ap, ◌∙◌, subst, Bool, true, Option, none, some, List, [], ◌∷◌, Text,
  text_eq, eq_of_text_eq, arith, All, ◌==◌, ◌⊎◌, inl, inr, Bool-cases,
}
use promo_go.Domain.{Store}
use promo_go.Domain.ApiKey.{ApiKey, active_key}
use promo_go.Admin.Handler.{AdminDb, AdminCall, Caller, modify}
use promo_go.Admin.Runs.{Runs, Runs->>=, Runs-present, Runs-gets, Runs-require, Runs-pure}
use promo_go.Admin.Gate.{bearer, trim_prefix, path_id}
use promo_go.Loyalty.Queries.{find_store}
use promo_go.Admin.Credentials.{parse_multi_key_api_key}
use promo_go.Admin.Keys.{
  find_key_id, revoke_of_store, revoke_rows, handle_revoke_store_api_key, list_by_store,
  revoke_key_row,
}
use promo_go.Admin.KeyAuth.{
  authenticate, store_of_key, by_parts, by_key_row, legacy_store, find_api_key_hash,
}
use promo_go.Admin.KeyLaws.{resolve_scoped_store-Runs, audit_create-Runs, find_store_id}

module _ (hash : Text → Text) where
  -- What lets a request in as a store: a live key of the table whose secret was given, or the hash
  -- in the store's old column.
  abbrev pub Entitled : Text → AdminDb → Store → Option ApiKey → Type 0
  Entitled key d store none = find_api_key_hash (hash key) d.stores ≡ some store
  Entitled key d store (some k) =
      (key_id : Text) × (secret : Text) × (parse_multi_key_api_key key ≡ some (key_id, secret))
      × (find_key_id key_id d.api_keys ≡ some k)
      × (hash secret ≡ k.key_hash)
      × (active_key d.now k ≡ true)
      × (find_store k.store_id d.stores ≡ some store)

  module _ (up : AdminCall → Bool) where
    pub legacy_store-Entitled :
        (key : Text) (d e : AdminDb) (store : Store) (k : Option ApiKey)
        → Runs (legacy_store hash up key) d (store, k) e
        → Entitled key d store k × (d ≡ e)
    unfolding legacy_store
    legacy_store-Entitled key d e store k h =
        let (_, h) = Runs-require 500 h in
        let h = Runs-gets _ _ h in
        let (s, found, h) = Runs-present 401 h in
        let (same, kept) = Runs-pure h in (subst (λ p. Entitled key d p.0 p.1) same found, kept)

    pub store_of_key-Entitled :
        (key key_id secret : Text) (row : ApiKey) (d e : AdminDb) (store : Store)
        (k : Option ApiKey)
        → parse_multi_key_api_key key ≡ some (key_id, secret)
        → find_key_id key_id d.api_keys ≡ some row
        → Runs (store_of_key hash up secret row) d (store, k) e
        → Entitled key d store k × (d ≡ e)
    unfolding store_of_key
    store_of_key-Entitled key key_id secret row d e store k parsed found h =
        let h = Runs-gets _ _ h in
        let (passed, h) = Runs-require 401 h in
        let (_, h) = Runs-require 500 h in
        let h = Runs-gets _ _ h in
        let (s, owner, h) = Runs-present 500 h in
        let (same, kept) = Runs-pure h in
        let equal : text_eq (hash secret) row.key_hash ≡ true = ground arith in
        let live : active_key d.now row ≡ true = ground arith in
        (
          subst (λ p. Entitled key d p.0 p.1) same
              (
                key_id,
                secret,
                parsed,
                found,
                eq_of_text_eq (hash secret) row.key_hash equal,
                live,
                owner,
              ),
          kept,
        )

    pub by_key_row-Entitled :
        (key key_id secret : Text) (row : Option ApiKey) (d e : AdminDb) (store : Store)
        (k : Option ApiKey)
        → parse_multi_key_api_key key ≡ some (key_id, secret)
        → find_key_id key_id d.api_keys ≡ row
        → Runs (by_key_row hash up key secret row) d (store, k) e
        → Entitled key d store k × (d ≡ e)
    unfolding by_key_row
    by_key_row-Entitled key key_id secret none d e store k parsed found h =
        legacy_store-Entitled key d e store k h
    by_key_row-Entitled key key_id secret (some row) d e store k parsed found h =
        store_of_key-Entitled key key_id secret row d e store k parsed found h

    pub by_parts-Entitled :
        (key : Text) (parts : Option (Text × Text)) (d e : AdminDb) (store : Store)
        (k : Option ApiKey)
        → parse_multi_key_api_key key ≡ parts
        → Runs (by_parts hash up key parts) d (store, k) e
        → Entitled key d store k × (d ≡ e)
    unfolding by_parts
    by_parts-Entitled key none d e store k parsed h = legacy_store-Entitled key d e store k h
    by_parts-Entitled key (some (key_id, secret)) d e store k parsed h =
        let (_, h) = Runs-require 500 h in
        let h = Runs-gets _ _ h in
        by_key_row-Entitled key key_id secret (find_key_id key_id d.api_keys) d e store k parsed
          refl h

    -- Whoever gets in as a store holds a live key's secret, in time and of that store, or has the
    -- hash of the store's old column; and getting in changes no table.
    pub authenticate-Entitled :
        (authorization : Text) (d e : AdminDb) (store : Store) (k : Option ApiKey)
        → Runs (authenticate hash up authorization) d (store, k) e
        → Entitled (trim_prefix bearer authorization) d store k × (d ≡ e)
    unfolding authenticate
    authenticate-Entitled authorization d e store k h =
        let (_, h) = Runs-require 401 h in
        by_parts-Entitled (trim_prefix bearer authorization) _ d e store k refl h

-- The row is of another id or store, or is revoked.
abbrev pub Dead : ℕ → ℕ → ApiKey → Type 0
Dead store id k = (k.id ≢ id) ⊎ (k.store_id ≢ store) ⊎ ((t : ℕ) × (k.revoked_at ≡ some t))

pub revoke_key_row-Dead :
    (now store id : ℕ) (k : ApiKey) (at : Option ℕ)
    → k.revoked_at ≡ at
    → Dead store id (revoke_key_row now store id k at)
revoke_key_row-Dead now store id k (some t) e = inr (inr (t, e))
revoke_key_row-Dead now store id k none e = elim (Bool-cases (k.id == id)) [
  | inr other ↦ inl (ground arith)
  | inl same ↦ elim (Bool-cases (k.store_id == store)) [
    | inr other ↦ inr (inl (ground arith))
    | inl mine ↦ inr (inr (now, ground arith))
  ]
]

pub Dead-active :
    (now store id : ℕ) (k : ApiKey)
    → active_key now k ≡ true
    → Dead store id k
    → (k.id ≢ id) ⊎ (k.store_id ≢ store)
unfolding active_key
Dead-active now store id k live (inl other) = inl other
Dead-active now store id k live (inr (inl other)) = inr other
Dead-active now store id k live (inr (inr (t, revoked))) = absurd (ground arith)

pub revoke_rows-Dead :
    (now store id : ℕ) (ks : List ApiKey) → All (Dead store id) (revoke_rows now store id ks)
unfolding revoke_rows
revoke_rows-Dead now store id [] = tt
revoke_rows-Dead now store id (k ∷ ks) =
    (revoke_key_row-Dead now store id k k.revoked_at refl, revoke_rows-Dead now store id ks)

pub find_key_id-All :
    (P : ApiKey → Type 0) (id : Text) (ks : List ApiKey) (k : ApiKey)
    → All P ks
    → find_key_id id ks ≡ some k
    → P k
unfolding find_key_id
find_key_id-All P id [] k all h = absurd (ground arith)
find_key_id-All P id (x ∷ ks) k (here, all) h = elim (Bool-cases (text_eq x.key_id id)) [
  | inl same ↦ let e : x ≡ k = ground arith in subst P e here
  | inr other ↦ find_key_id-All P id ks k all (ground arith)
]

pub list_by_store-revoke_rows :
    (now store id other : ℕ) (ks : List ApiKey)
    → other ≢ store
    → list_by_store other (revoke_rows now store id ks) ≡ list_by_store other ks
unfolding revoke_rows list_by_store
list_by_store-revoke_rows now store id other [] ne = refl
list_by_store-revoke_rows now store id other (k ∷ ks) ne =
    ground (arith, list_by_store-revoke_rows now store id other ks ne)

-- What a revocation leaves: its key dead, and the keys of other stores as they were.
abbrev pub Revoked : ℕ → ℕ → ℕ → AdminDb → AdminDb → Type 0
Revoked store id other d e =
    All (Dead store id) e.api_keys
    × ((other ≡ store) ⊎ (list_by_store other e.api_keys ≡ list_by_store other d.api_keys))

module _ (up : AdminCall → Bool) where
  pub revoke_of_store-Revoked :
      (store id other : ℕ) (d e : AdminDb)
      → Runs (revoke_of_store up store id) d tt e
      → Revoked store id other d e
  unfolding revoke_of_store modify
  revoke_of_store-Revoked store id other d e h =
      let (_, h) = Runs-require 500 h in
      let h = Runs-gets _ _ h in
      let (_, h) = Runs-require 404 h in
      let keys : revoke_rows d.now store id d.api_keys ≡ e.api_keys =
        ap (λ p. p.1.api_keys) h.ran in
      (
        subst (λ ks. All (Dead store id) ks) keys (revoke_rows-Dead d.now store id d.api_keys),
        elim (Bool-cases (other == store)) [
          | inl same ↦ inl (ground arith)
          | inr apart ↦ inr (
              ap (list_by_store other) (sym keys)
              ∙ list_by_store-revoke_rows d.now store id other d.api_keys (ground arith))
        ],
      )

  pub handle_revoke-Revoked :
      (org_path store_path key_path : Text) (caller : Caller) (other : ℕ) (d e : AdminDb)
      → Runs (handle_revoke_store_api_key up org_path store_path key_path caller) d tt e
      → (store : ℕ) × (id : ℕ) × (path_id store_path ≡ some store)
        × (path_id key_path ≡ some id)
        × Revoked store id other d e
  unfolding handle_revoke_store_api_key
  handle_revoke-Revoked org_path store_path key_path caller other d e h =
      let (scoped, d1, ran, h) = Runs->>= h in
      let (id, at, h) = Runs-present 400 h in
      let h = Runs-gets _ _ h in
      let (unit', d2, revoked, audited) = Runs->>= h in
      let (kept, (store, here, found), _, _) =
        resolve_scoped_store-Runs up org_path store_path d d1 scoped.0 scoped.1 ran in
      let (keys, stores) = audit_create-Runs up caller _ _ _ _ _ _ d2 e audited in
      let mine = find_store_id store d.stores scoped.0 found in
      (
        store,
        id,
        here,
        at,
        subst (λ s. Revoked s id other d e) mine
            (subst (λ x. Revoked scoped.0.id id other x e) (sym kept)
              (subst
                (λ ks.
                  All (Dead scoped.0.id id) ks
                  × ((other ≡ scoped.0.id)
                      ⊎ (list_by_store other ks ≡ list_by_store other d1.api_keys)))
                keys (revoke_of_store-Revoked scoped.0.id id other d1 d2 revoked))),
      )

  -- After a revocation that succeeded, no request gets in with that key of that store, whatever
  -- header it sends and when, as long as the keys are as the revocation left them; and the keys of
  -- every other store are as before.
  pub handle_revoke-authenticate :
      (hash : Text → Text) (later_up : AdminCall → Bool)
      → (org_path store_path key_path : Text) (caller : Caller) (other : ℕ) (d e : AdminDb)
      → (authorization : Text) (later after : AdminDb) (s : Store) (k : ApiKey)
      → Runs (handle_revoke_store_api_key up org_path store_path key_path caller) d tt e
      → later.api_keys ≡ e.api_keys
      → Runs (authenticate hash later_up authorization) later (s, some k) after
      → (store : ℕ) × (id : ℕ) × (path_id store_path ≡ some store)
        × (path_id key_path ≡ some id)
        × ((k.id ≢ id) ⊎ (k.store_id ≢ store))
        × ((other ≡ store) ⊎ (list_by_store other e.api_keys ≡ list_by_store other d.api_keys))
  handle_revoke-authenticate hash later_up org_path store_path key_path caller other d e
        authorization later after s k h same got_in =
      let (store, id, here, at, (dead, others)) =
        handle_revoke-Revoked org_path store_path key_path caller other d e h in
      let ((key_id, secret, _, found, _, live, _), _) =
        authenticate-Entitled hash later_up authorization later after s (some k) got_in in
      let row : Dead store id k =
        find_key_id-All (Dead store id) key_id e.api_keys k dead
          (ap (find_key_id key_id) (sym same) ∙ found) in
      (store, id, here, at, Dead-active later.now store id k live row, others)
