-- ===== src/Admin/Keys.antt =====
-- internal/httpserver/admin_apikeys.go and internal/repository/postgres/store_api_key_repository.go.
-- Rows stand newest first, as ListByStore orders them; key_id and key_hash are unique.
use promo_go.Base.{
  ℕ, suc, Bool, true, false, Option, none, some, List, [], ◌∷◌, ◌++◌, Text, text_eq, codes, ltb,
  not, ◌&&◌, ◌||◌, ◌==◌, if◌then◌else◌,
}
use promo_go.Domain.{Store, meta_text}
use promo_go.Domain.ApiKey.{
  ApiKey, scope_transactions_write, scope_clients_lookup, scope_balances_read, has_scope,
}
use promo_go.Admin.Handler.{
  AdminDb, AdminCall, load_store, generate_key, create_key, list_keys, revoke_key, Reply, done,
  refused, Caller, Handler, pure, gets, modify, ◌>>=◌, ◌>>◌, require, present, audit_create,
}
use promo_go.Admin.Gate.{path_id}
use promo_go.Admin.Staff.{Insert, inserted, conflict, broken, is_some}
use promo_go.Loyalty.Queries.{find_store}
use promo_go.Admin.Strings.{normalize_name}
use promo_go.Admin.Credentials.{NewKey}

-- SELECT ... FROM store_api_keys WHERE key_id = $1
unfoldable pub find_key_id : Text → List ApiKey → Option ApiKey
find_key_id id [] = none
find_key_id id (k ∷ ks) = if text_eq k.key_id id then some k else find_key_id id ks

unfoldable pub has_key_hash : Text → List ApiKey → Bool
has_key_hash h [] = false
has_key_hash h (k ∷ ks) = text_eq k.key_hash h || has_key_hash h ks

unfoldable pub list_by_store : ℕ → List ApiKey → List ApiKey
list_by_store store [] = []
list_by_store store (k ∷ ks) =
    if k.store_id == store then k ∷ list_by_store store ks else list_by_store store ks

abbrev pub revocable : ℕ → ℕ → ApiKey → Option ℕ → Bool
revocable store id k (some _) = false
revocable store id k none = (k.id == id) && (k.store_id == store)

-- The update of one row, on its revoked_at.
abbrev pub revoke_key_row : ℕ → ℕ → ℕ → ApiKey → Option ℕ → ApiKey
revoke_key_row now store id k (some _) = k
revoke_key_row now store id k none =
    if (k.id == id) && (k.store_id == store) then record k { revoked_at = some now } else k

-- UPDATE store_api_keys SET revoked_at = now() WHERE id = $1 AND store_id = $2 AND revoked_at IS NULL
unfoldable pub revoke_rows : ℕ → ℕ → ℕ → List ApiKey → List ApiKey
revoke_rows now store id [] = []
revoke_rows now store id (k ∷ ks) =
    revoke_key_row now store id k k.revoked_at ∷ revoke_rows now store id ks

-- Whether the update has a row.
unfoldable pub any_revocable : ℕ → ℕ → List ApiKey → Bool
any_revocable store id [] = false
any_revocable store id (k ∷ ks) = revocable store id k k.revoked_at || any_revocable store id ks

abbrev pub key_row : ℕ → ℕ → ℕ → NewKey → Text → List Text → Option ℕ → ℕ → ApiKey
key_row now id store new name scopes expires_at created_by = record {
  id = id;
  store_id = store;
  key_id = new.key_id;
  key_hash = new.hash;
  name = name;
  scopes = scopes;
  created_at = now;
  expires_at = expires_at;
  revoked_at = none;
  last_used_at = none;
  created_by = some created_by;
}

abbrev pub add_key : ApiKey → AdminDb → AdminDb
add_key k d = record d { api_keys = k ∷ d.api_keys; next_id = suc d.next_id }

unfoldable pub insert_key :
    Bool → ℕ → NewKey → Text → List Text → Option ℕ → ℕ → AdminDb → Insert ApiKey × AdminDb
insert_key up store new name scopes expires_at created_by d =
    let k = key_row d.now d.next_id store new name scopes expires_at created_by in
    elim up [
      | false ↦ (broken, d)
      | true ↦
          (if is_some (find_key_id new.key_id d.api_keys) || has_key_hash new.hash d.api_keys
            then (conflict, d)
            else (inserted k, add_key k d))
    ]

abbrev pub valid_api_key_scope : Text → Bool
valid_api_key_scope s =
    text_eq s scope_transactions_write
    || text_eq s scope_clients_lookup
    || text_eq s scope_balances_read

-- The loop over the scopes, with those kept so far.
unfoldable pub collect_scopes : List Text → List Text → Option (List Text)
collect_scopes kept [] = some kept
collect_scopes kept (s ∷ ss) =
    let rest = collect_scopes (if has_scope s kept then kept else kept ++ s ∷ []) ss in
    if valid_api_key_scope s then rest else none

abbrev pub in_future : ℕ → Option ℕ → Bool
in_future now none = true
in_future now (some t) = ltb now t

pub record CreateKeyBody : Type 0 where
  pub name : Text
  pub scopes : List Text
  pub expires_at : Option ℕ

-- The name among the store's keys, for the audit; the last match wins.
unfoldable pub key_name : ℕ → List ApiKey → Text → Text
key_name id [] found = found
key_name id (k ∷ ks) found = key_name id ks (if k.id == id then k.name else found)

abbrev pub created_key : Insert ApiKey × AdminDb → Reply ApiKey × AdminDb
created_key (inserted k, d) = (done k, d)
created_key (conflict, d) = (refused 500, d)
created_key (broken, d) = (refused 500, d)

abbrev pub no_scopes : List Text → Bool
no_scopes [] = true
no_scopes (_ ∷ _) = false

module _ (up : AdminCall → Bool) where
  -- resolveScopedStore
  unfoldable pub resolve_scoped_store : Text → Text → Handler (Store × ℕ)
  unfolding ◌>>=◌
  resolve_scoped_store org_path store_path = do
    org ← present 400 (path_id org_path)
    id ← present 400 (path_id store_path)
    require (up load_store) 500
    found ← gets (λ d. find_store id d.stores)
    store ← present 404 found
    require (store.organization_id == org) 404
    pure (store, org)

  -- handleListStoreAPIKeys; a response has every field of a key but its hash.
  unfoldable pub handle_list_store_api_keys : Text → Text → Caller → Handler (List ApiKey)
  unfolding ◌>>=◌
  handle_list_store_api_keys org_path store_path caller = do
    scoped ← resolve_scoped_store org_path store_path
    require (up list_keys) 500
    gets (λ d. list_by_store scoped.0.id d.api_keys)

  unfoldable pub save_key : ℕ → NewKey → Text → List Text → Option ℕ → ℕ → Handler ApiKey
  save_key store new name scopes expires_at created_by d =
      created_key (insert_key (up create_key) store new name scopes expires_at created_by d)

  -- From the generation on.
  unfoldable pub issue_key :
      NewKey → Store → ℕ → Text → List Text → Option ℕ → Caller → Handler (ApiKey × Text)
  unfolding ◌>>=◌
  issue_key new store org name scopes expires_at caller = do
    require (up generate_key) 500
    key ← save_key store.id new name scopes expires_at caller.staff_user_id
    audit_create up caller (codes "api_key.created") (some org) (some store.id)
        (codes "store_api_key") (some key.id) ((codes "name", meta_text key.name) ∷ [])
    pure (key, new.plaintext)

  -- handleCreateStoreAPIKey; the answer is the key and its plaintext.
  unfoldable pub handle_create_store_api_key :
      NewKey → Text → Text → Option CreateKeyBody → Caller → Handler (ApiKey × Text)
  unfolding ◌>>=◌
  handle_create_store_api_key new org_path store_path sent caller = do
    scoped ← resolve_scoped_store org_path store_path
    body ← present 400 sent
    require (not (no_scopes body.scopes)) 400
    name ← present 400 (normalize_name body.name)
    scopes ← present 400 (collect_scopes [] body.scopes)
    now ← gets (λ d. d.now)
    require (in_future now body.expires_at) 400
    issue_key new scoped.0 scoped.1 name scopes body.expires_at caller

  unfoldable pub revoke_of_store : ℕ → ℕ → Handler (Unit {0})
  unfolding ◌>>=◌
  revoke_of_store store id = do
    require (up revoke_key) 500
    any ← gets (λ d. any_revocable store id d.api_keys)
    require any 404
    modify (λ d. record d { api_keys = revoke_rows d.now store id d.api_keys })

  -- handleRevokeStoreAPIKey
  unfoldable pub handle_revoke_store_api_key : Text → Text → Text → Caller → Handler (Unit {0})
  unfolding ◌>>=◌
  handle_revoke_store_api_key org_path store_path key_path caller = do
    scoped ← resolve_scoped_store org_path store_path
    id ← present 400 (path_id key_path)
    name ←
        gets
          (λ d. if up list_keys then key_name id (list_by_store scoped.0.id d.api_keys) [] else [])
    revoke_of_store scoped.0.id id
    audit_create up caller (codes "api_key.revoked") (some scoped.1) (some scoped.0.id)
        (codes "store_api_key") (some id) ((codes "name", meta_text name) ∷ [])
