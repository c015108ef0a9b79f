-- ===== src/Domain/ApiKey.antt =====
-- internal/domain/apikey.go. The scopes are strings; `RevokedAt` and the other times are numbers.
use promo_go.Base.{
  ℕ, Bool, true, false, Option, none, some, List, [], ◌∷◌, Text, text_eq, codes, ltb, not,
  if◌then◌else◌,
}

abbrev pub scope_transactions_write : Text
scope_transactions_write = codes "transactions.write"

abbrev pub scope_clients_lookup : Text
scope_clients_lookup = codes "clients.lookup"

abbrev pub scope_balances_read : Text
scope_balances_read = codes "balances.read"

pub record ApiKey : Type 0 where
  pub id : ℕ
  pub store_id : ℕ
  pub key_id : Text
  pub key_hash : Text
  pub name : Text
  pub scopes : List Text
  pub created_at : ℕ
  pub expires_at : Option ℕ
  pub revoked_at : Option ℕ
  pub last_used_at : Option ℕ
  pub created_by : Option ℕ

-- The loop of HasScope.
unfoldable pub has_scope : Text → List Text → Bool
has_scope scope [] = false
has_scope scope (s ∷ ss) = if text_eq s scope then true else has_scope scope ss

-- Active, on RevokedAt and ExpiresAt.
abbrev pub active_within : ℕ → Option ℕ → Option ℕ → Bool
active_within now (some _) _ = false
active_within now none none = true
active_within now none (some e) = not (ltb e now)

unfoldable pub active_key : ℕ → ApiKey → Bool
active_key now k = active_within now k.revoked_at k.expires_at
