-- ===== src/Admin/KeyRoundTrip.antt =====
-- Proofs about Admin/Keys and Admin/KeyAuth: from the creation of a key to its use.
use promo_go.Base.{
  ℕ, ◌≡◌, sym, ap, ◌∙◌, subst, Bool, true, none, some, List, [], ◌∷◌, ◌++◌, Text, text_eq,
  text_eq_refl, eq_of_text_eq, arith, ◌||◌, length, Bool-cases, inl, inr,
}
use promo_go.Domain.{Store}
use promo_go.Domain.ApiKey.{ApiKey, active_key, active_within, has_scope}
use promo_go.Admin.Handler.{AdminDb, AdminCall, done, Caller, load_store, find_key}
use promo_go.Admin.Runs.{Runs}
use promo_go.Admin.Gate.{bearer, path_id}
use promo_go.Admin.Credentials.{generate_api_key, encode_base64}
use promo_go.Admin.Keys.{handle_create_store_api_key, CreateKeyBody, collect_scopes, find_key_id}
use promo_go.Admin.KeyAuth.{authenticate}
use promo_go.Admin.KeyLaws.{Created, handle_create-Created, authenticate_done, find_store_id}
use promo_go.Loyalty.Queries.{find_store}

pub has_scope-append :
    (x s : Text) (kept : List Text) → has_scope x (kept ++ s ∷ []) ≡ has_scope x kept || text_eq s x
unfolding has_scope
has_scope-append x s [] = ground arith
has_scope-append x s (k ∷ kept) = ground (arith, has_scope-append x s kept)

-- A scope that is kept already adds nothing.
pub has_scope_known :
    (x s : Text) (kept : List Text)
    → has_scope s kept ≡ true
    → has_scope x kept ≡ has_scope x kept || text_eq s x
unfolding has_scope
has_scope_known x s kept known = elim (Bool-cases (text_eq s x)) [
  | inl same ↦
      let e : s ≡ x = eq_of_text_eq s x same in
      let here : has_scope x kept ≡ true = subst (λ y. has_scope y kept ≡ true) e known in
      ground arith
  | inr other ↦ ground arith
]

pub collect_scopes-has_scope :
    (x : Text) (kept ss out : List Text)
    → collect_scopes kept ss ≡ some out
    → has_scope x out ≡ has_scope x kept || has_scope x ss
unfolding collect_scopes has_scope
collect_scopes-has_scope x kept [] out h = ground arith
collect_scopes-has_scope x kept (s ∷ ss) out h = elim (Bool-cases (has_scope s kept)) [
  | inl known ↦
      ground (arith, collect_scopes-has_scope x kept ss out, has_scope_known x s kept known)
  | inr fresh ↦
      ground (arith, collect_scopes-has_scope x (kept ++ s ∷ []) ss out, has_scope-append x s kept)
]

pub scopes_asked :
    (scope : Text) (body : CreateKeyBody) (k : ApiKey)
    → collect_scopes [] body.scopes ≡ some k.scopes
    → has_scope scope k.scopes ≡ has_scope scope body.scopes
unfolding has_scope
scopes_asked scope body k h =
    ground (arith, collect_scopes-has_scope scope [] body.scopes k.scopes h)

module _ (hash : Text → Text) (up later_up : AdminCall → Bool) where
  pub Created-authenticate :
      (id_bytes secret_bytes : List ℕ) (store_path : Text) (body : CreateKeyBody)
      → (d e : AdminDb) (k : ApiKey) (plaintext : Text) (later : ℕ) → length id_bytes ≡ 8
      → length secret_bytes ≡ 32
      → Created (generate_api_key hash id_bytes secret_bytes) store_path body d k plaintext e
      → active_within later none body.expires_at ≡ true
      → later_up load_store ≡ true
      → later_up find_key ≡ true
      → (store : Store) × (path_id store_path ≡ some store.id)
        × (authenticate hash later_up (bearer ++ plaintext) (record e { now = later })
            ≡ (done (store, some k), record e { now = later }))
  unfolding generate_api_key find_key_id active_key
  Created-authenticate [] t sp body d e k p later h8 h32 created active l f =
      absurd (omega (arith, h8))
  Created-authenticate (a ∷ s) [] sp body d e k p later h8 h32 created active l f =
      absurd (omega (arith, h32))
  Created-authenticate (a ∷ s) (b ∷ t) sp body d e k p later h8 h32
        (plain, (id, hashed, live), (expires, _), (keys, stores), (store, at, found)) active l f =
      let mine : store.id ≡ k.store_id = find_store_id k.store_id d.stores store found in
      let row : find_key_id (encode_base64 (a ∷ s)) (k ∷ d.api_keys) ≡ some k =
        ground (arith, text_eq_refl (encode_base64 (a ∷ s))) in
      let row_now : find_key_id (encode_base64 (a ∷ s)) e.api_keys ≡ some k =
        subst (λ x. find_key_id (encode_base64 (a ∷ s)) x ≡ some k) keys row in
      let found_now : find_store k.store_id e.stores ≡ some store =
        subst (λ x. find_store k.store_id x ≡ some store) stores found in
      (
        store,
        at ∙ ap some (sym mine),
        subst
            (λ x.
              authenticate hash later_up (bearer ++ x) (record e { now = later })
              ≡ (done (store, some k), record e { now = later }))
            (sym plain)
            (authenticate_done hash later_up a s b t k store (record e { now = later }) row_now
              hashed (ground arith) l f found_now),
      )

  -- A key that was created authenticates by its plaintext, at any later time before it expires at
  -- which the two reads work, as the store of the path and with exactly the scopes that were asked
  -- for; the random bytes are 8 and 32, and nothing was written in between.
  pub create-authenticate :
      (id_bytes secret_bytes : List ℕ) (org_path store_path : Text) (body : CreateKeyBody)
      → (caller : Caller) (d e : AdminDb) (k : ApiKey) (plaintext : Text) (later : ℕ) (scope : Text)
      → length id_bytes ≡ 8
      → length secret_bytes ≡ 32
      → Runs
          (handle_create_store_api_key up
            (generate_api_key hash id_bytes secret_bytes)
            org_path
            store_path
            (some body)
            caller)
          d
          (k, plaintext)
          e
      → active_within later none body.expires_at ≡ true
      → later_up load_store ≡ true
      → later_up find_key ≡ true
      → ((store : Store) × (path_id store_path ≡ some store.id)
          × (authenticate hash later_up (bearer ++ plaintext) (record e { now = later })
              ≡ (done (store, some k), record e { now = later })))
        × (has_scope scope k.scopes ≡ has_scope scope body.scopes)
  create-authenticate id_bytes secret_bytes org_path store_path body caller d e k plaintext later
        scope h8 h32 h active l f =
      let created =
        handle_create-Created up (generate_api_key hash id_bytes secret_bytes) org_path store_path
          body caller d e k plaintext h in
      (
        Created-authenticate id_bytes secret_bytes store_path body d e k plaintext later h8 h32
            created active l f,
        scopes_asked scope body k (created.2.1),
      )
