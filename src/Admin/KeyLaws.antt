-- ===== src/Admin/KeyLaws.antt =====
-- Proofs about Admin/Keys and Admin/KeyAuth: a key's way from its creation to its use.
use promo_go.Base.{
  ℕ, ◌≡◌, sym, ap, ◌∙◌, subst, Bool, true, Option, none, some, List, [], ◌∷◌, ◌++◌, Text, text_eq,
  text_eq_refl, arith, ◌==◌, Bool-cases, inl, inr,
}
use promo_go.Domain.{Store, Meta}
use promo_go.Domain.ApiKey.{ApiKey, active_key}
use promo_go.Admin.Handler.{
  AdminDb, AdminCall, done, Caller, pure, refuse, gets, modify, ◌>>=◌, require, present,
  audit_create, load_store, find_key, write_audit,
}
use promo_go.Admin.Runs.{
  Runs, Runs->>=, Runs-present, Runs-gets, Runs-require, Runs-pure, Runs-present-some,
}
use promo_go.Admin.Gate.{bearer, path_id}
use promo_go.Loyalty.Queries.{find_store}
use promo_go.Admin.Credentials.{NewKey, encode_base64, dot}
use promo_go.Admin.CredentialLaws.{
  parse_multi_key_api_key-append, trim_prefix-append, encode_base64_cons,
}
use promo_go.Admin.Keys.{
  key_row, add_key, insert_key, save_key, resolve_scoped_store, handle_create_store_api_key,
  CreateKeyBody, collect_scopes, find_key_id, issue_key,
}
use promo_go.Admin.KeyAuth.{authenticate, store_of_key, by_parts, by_key_row}

module _ (up : AdminCall → Bool) where
  pub resolve_scoped_store-Runs :
      (org_path store_path : Text) (d e : AdminDb) (store : Store) (org : ℕ)
      → Runs (resolve_scoped_store up org_path store_path) d (store, org) e
      → (d ≡ e)
        × ((id : ℕ) × (path_id store_path ≡ some id) × (find_store id d.stores ≡ some store))
        × (path_id org_path ≡ some org)
        × (store.organization_id ≡ org)
  unfolding resolve_scoped_store
  resolve_scoped_store-Runs org_path store_path d e store org h =
      let (o, here, h) = Runs-present 400 h in
      let (id, at, h) = Runs-present 400 h in
      let (_, h) = Runs-require 500 h in
      let h = Runs-gets _ _ h in
      let (s, found, h) = Runs-present 404 h in
      let (mine, h) = Runs-require 404 h in
      let (same, kept) = Runs-pure h in
      (
        kept,
        (id, at, found ∙ ap (λ p. some p.0) same),
        here ∙ ap (λ p. some p.1) same,
        ground arith,
      )

  pub save_key-Runs :
      (store : ℕ) (new : NewKey) (name : Text) (scopes : List Text) (expires_at : Option ℕ) (by : ℕ)
      → (d e : AdminDb) (k : ApiKey) → Runs (save_key up store new name scopes expires_at by) d k e
      → (key_row d.now d.next_id store new name scopes expires_at by ≡ k) × (add_key k d ≡ e)
  unfolding save_key insert_key
  save_key-Runs store new name scopes expires_at by d e k h = let ran = h.ran in ground arith

  pub audit_create-Runs :
      (caller : Caller) (action : Text) (org store : Option ℕ) (target : Text)
      → (id : Option ℕ) (metadata : List (Text × Meta)) (d e : AdminDb)
      → Runs (audit_create up caller action org store target id metadata) d tt e
      → (d.api_keys ≡ e.api_keys) × (d.stores ≡ e.stores)
  unfolding audit_create pure modify
  audit_create-Runs caller action org store target id metadata d e h =
      let ran = h.ran in
      elim (Bool-cases (up write_audit)) [ inl yes' ↦ ground arith | inr no' ↦ ground arith ]

pub find_store_id : (id : ℕ) (ss : List Store) (s : Store) → find_store id ss ≡ some s → s.id ≡ id
unfolding find_store
find_store_id id [] s h = absurd (ground arith)
find_store_id id (x ∷ ss) s h = elim (Bool-cases (x.id == id)) [
  | inl same ↦ ground arith
  | inr other ↦ find_store_id id ss s (ground arith)
]

-- A key just made: its row, which is the newest of the table, of a store of the path.
abbrev pub Created : NewKey → Text → CreateKeyBody → AdminDb → ApiKey → Text → AdminDb → Type 0
Created new store_path body d k plaintext e =
    (plaintext ≡ new.plaintext)
    × ((k.key_id ≡ new.key_id) × (k.key_hash ≡ new.hash) × (k.revoked_at ≡ none))
    × ((k.expires_at ≡ body.expires_at) × (collect_scopes [] body.scopes ≡ some k.scopes))
    × ((k ∷ d.api_keys ≡ e.api_keys) × (d.stores ≡ e.stores))
    × ((store : Store) × (path_id store_path ≡ some k.store_id)
        × (find_store k.store_id d.stores ≡ some store))

module _ (up : AdminCall → Bool) (new : NewKey) where
  pub issue_key-Runs :
      (store : Store) (org : ℕ) (name : Text) (scopes : List Text) (expires_at : Option ℕ)
      → (caller : Caller) (d e : AdminDb) (k : ApiKey) (plaintext : Text)
      → Runs (issue_key up new store org name scopes expires_at caller) d (k, plaintext) e
      → (plaintext ≡ new.plaintext)
        × (k ≡ key_row d.now d.next_id store.id new name scopes expires_at caller.staff_user_id)
        × (k ∷ d.api_keys ≡ e.api_keys)
        × (d.stores ≡ e.stores)
  unfolding issue_key
  issue_key-Runs store org name scopes expires_at caller d e k plaintext h =
      let (_, h) = Runs-require 500 h in
      let (key, d2, saved, h) = Runs->>= h in
      let (row, added) =
        save_key-Runs up store.id new name scopes expires_at caller.staff_user_id d d2 key saved in
      let (unit', d3, audited, h) = Runs->>= h in
      let (keys, stores) = audit_create-Runs up caller _ _ _ _ _ _ d2 d3 audited in
      let (same, last) = Runs-pure h in
      let is_k : key ≡ k = ap (λ p. p.0) same in
      (
        sym (ap (λ p. p.1) same),
        sym is_k ∙ sym row,
        ap (λ x. x ∷ d.api_keys) (sym is_k)
            ∙ ap (λ x. x.api_keys) added
            ∙ keys
            ∙ ap (λ x. x.api_keys) last,
        ap (λ x. x.stores) added ∙ stores ∙ ap (λ x. x.stores) last,
      )

  pub Created-row :
      (id : ℕ) (store_path : Text) (store : Store) (org : ℕ) (name : Text) (body : CreateKeyBody)
      → (scopes : List Text) (caller : Caller) (d e : AdminDb) (k : ApiKey) (plaintext : Text)
      → path_id store_path ≡ some id
      → find_store id d.stores ≡ some store
      → collect_scopes [] body.scopes ≡ some scopes
      → Runs (issue_key up new store org name scopes body.expires_at caller) d (k, plaintext) e
      → Created new store_path body d k plaintext e
  Created-row id store_path store org name body scopes caller d e k plaintext at found collected h =
      let (plain, row, keys, stores) =
        issue_key-Runs store org name scopes body.expires_at caller d e k plaintext h in
      let mine = find_store_id id d.stores store found in
      (
        plain,
        (ap (λ x. x.key_id) row, ap (λ x. x.key_hash) row, ap (λ x. x.revoked_at) row),
        (ap (λ x. x.expires_at) row, collected ∙ ap (λ x. some x.scopes) (sym row)),
        (keys, stores),
        (
          store,
          at ∙ ap some (sym mine ∙ ap (λ x. x.store_id) (sym row)),
          ap (λ x. find_store x d.stores) (ap (λ x. x.store_id) row ∙ mine) ∙ found,
        ),
      )

  pub handle_create-Created :
      (org_path store_path : Text) (body : CreateKeyBody)
      → (caller : Caller) (d e : AdminDb) (k : ApiKey) (plaintext : Text)
      → Runs
          (handle_create_store_api_key up new org_path store_path (some body) caller)
          d
          (k, plaintext)
          e
      → Created new store_path body d k plaintext e
  unfolding handle_create_store_api_key
  handle_create-Created org_path store_path body caller d e k plaintext h =
      let (scoped, d1, ran, h) = Runs->>= h in
      let h = Runs-present-some 400 body _ h in
      let (_, h) = Runs-require 400 h in
      let (name, _, h) = Runs-present 400 h in
      let (scopes, collected, h) = Runs-present 400 h in
      let h = Runs-gets _ _ h in
      let (_, h) = Runs-require 400 h in
      let (kept, (id, at, found), _, _) =
        resolve_scoped_store-Runs up org_path store_path d d1 scoped.0 scoped.1 ran in
      subst (λ x. Created new store_path body x k plaintext e) (sym kept)
        (Created-row id store_path scoped.0 scoped.1 name body scopes caller d1 e k plaintext at
          (ap (λ x. find_store id x.stores) (sym kept) ∙ found) collected h)

-- The way back: a key that the table holds under its id authenticates its store.
module _ (hash : Text → Text) (up : AdminCall → Bool) where
  pub store_of_key_done :
      (secret : Text) (k : ApiKey) (store : Store) (d : AdminDb)
      → k.key_hash ≡ hash secret
      → active_key d.now k ≡ true
      → up load_store ≡ true
      → find_store k.store_id d.stores ≡ some store
      → store_of_key hash up secret k d ≡ (done (store, some k), d)
  unfolding store_of_key ◌>>=◌ gets require present pure refuse
  store_of_key_done secret k store d hashed active working found =
      ground (arith, text_eq_refl (hash secret))

  pub authenticate_done :
      (a : ℕ) (s : List ℕ) (b : ℕ) (t : List ℕ) (k : ApiKey) (store : Store) (d : AdminDb)
      → find_key_id (encode_base64 (a ∷ s)) d.api_keys ≡ some k
      → k.key_hash ≡ hash (encode_base64 (b ∷ t))
      → active_key d.now k ≡ true
      → up load_store ≡ true
      → up find_key ≡ true
      → find_store k.store_id d.stores ≡ some store
      → authenticate hash up (bearer ++ encode_base64 (a ∷ s) ++ dot ∷ encode_base64 (b ∷ t)) d
        ≡ (done (store, some k), d)
  unfolding authenticate by_parts by_key_row ◌>>=◌ gets require pure refuse text_eq
  authenticate_done a s b t k store d row hashed active working finding found =
      let (c, u, e) = encode_base64_cons a s in
      ground (
        arith,
        trim_prefix-append bearer (encode_base64 (a ∷ s) ++ dot ∷ encode_base64 (b ∷ t)),
        parse_multi_key_api_key-append a s b t,
        store_of_key_done (encode_base64 (b ∷ t)) k store d hashed active working found,
      )
