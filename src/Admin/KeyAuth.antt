-- ===== src/Admin/KeyAuth.antt =====
-- RequireStoreAPIKey and requireScope of internal/httpserver/middleware.go.
use promo_go.Base.{
  ℕ, Bool, true, Option, none, some, List, [], ◌∷◌, Text, text_eq, not, ◌&&◌, ◌==◌, if◌then◌else◌,
}
use promo_go.Domain.{Store}
use promo_go.Domain.ApiKey.{ApiKey, has_scope, active_key}
use promo_go.Admin.Handler.{
  AdminDb, AdminCall, load_store, find_key, touch_key, find_legacy, Handler, pure, gets, modify,
  ◌>>=◌, ◌>>◌, require, present,
}
use promo_go.Admin.Gate.{trim_prefix, bearer}
use promo_go.Loyalty.Queries.{find_store}
use promo_go.Admin.Keys.{find_key_id}
use promo_go.Admin.Credentials.{parse_multi_key_api_key}

-- SELECT ... FROM stores WHERE api_key_hash = $1; an empty hash here is NULL there, equal to nothing.
unfoldable pub find_api_key_hash : Text → List Store → Option Store
find_api_key_hash h [] = none
find_api_key_hash h (s ∷ ss) =
    if text_eq s.api_key_hash h && not (text_eq s.api_key_hash [])
    then some s
    else find_api_key_hash h ss

-- UPDATE store_api_keys SET last_used_at = $2 WHERE id = $1
unfoldable pub touch_last_used : ℕ → ℕ → List ApiKey → List ApiKey
touch_last_used at id [] = []
touch_last_used at id (k ∷ ks) =
    (if k.id == id then record k { last_used_at = some at } else k) ∷ touch_last_used at id ks

module _ (hash : Text → Text) (up : AdminCall → Bool) where
  unfoldable pub legacy_store : Text → Handler (Store × Option ApiKey)
  unfolding ◌>>=◌
  legacy_store key = do
    require (up find_legacy) 500
    found ← gets (λ d. find_api_key_hash (hash key) d.stores)
    store ← present 401 found
    pure (store, none)

  -- The branch on a key of store_api_keys.
  unfoldable pub store_of_key : Text → ApiKey → Handler (Store × Option ApiKey)
  unfolding ◌>>=◌
  store_of_key secret k = do
    now ← gets (λ d. d.now)
    require (text_eq (hash secret) k.key_hash && active_key now k) 401
    require (up load_store) 500
    found ← gets (λ d. find_store k.store_id d.stores)
    store ← present 500 found
    pure (store, some k)

  unfoldable pub by_key_row : Text → Text → Option ApiKey → Handler (Store × Option ApiKey)
  by_key_row key secret (some k) = store_of_key secret k
  by_key_row key secret none = legacy_store key

  unfoldable pub by_parts : Text → Option (Text × Text) → Handler (Store × Option ApiKey)
  unfolding ◌>>=◌
  by_parts key none = legacy_store key
  by_parts key (some (key_id, secret)) = do
    require (up find_key) 500
    found ← gets (λ d. find_key_id key_id d.api_keys)
    by_key_row key secret found

  -- What RequireStoreAPIKey puts into the request's context: the store, and the key unless the old
  -- column let the request in.
  unfoldable pub authenticate : Text → Handler (Store × Option ApiKey)
  unfolding ◌>>=◌
  authenticate authorization = do
    require (not (text_eq (trim_prefix bearer authorization) [])) 401
    by_parts (trim_prefix bearer authorization)
        (parse_multi_key_api_key (trim_prefix bearer authorization))

  abbrev pub touch : Option ApiKey → AdminDb → AdminDb
  touch none d = d
  touch (some k) d =
      if up touch_key then record d { api_keys = touch_last_used d.now k.id d.api_keys } else d

  -- RequireStoreAPIKey; the write that it starts in the background stands before the handler.
  unfoldable pub require_store_api_key :
      {A : Type 0} → Text → (Store × Option ApiKey → Handler A) → Handler A
  unfolding ◌>>=◌
  require_store_api_key authorization next = do
    who ← authenticate authorization
    modify (touch who.1)
    next who

abbrev pub in_scope : Text → Option ApiKey → Bool
in_scope scope none = true
in_scope scope (some k) = has_scope scope k.scopes

-- requireScope
unfoldable pub require_scope :
    {A : Type 0} → Text → (Store × Option ApiKey → Handler A) → Store × Option ApiKey → Handler A
unfolding ◌>>=◌
require_scope scope next who = do require (in_scope scope who.1) 403; next who
