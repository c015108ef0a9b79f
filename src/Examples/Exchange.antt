-- ===== src/Examples/Exchange.antt =====
-- A QR token of an account whose phone a client of the store has.
use promo_go.Base.{◌≡◌, refl, Bool, true, [], ◌∷◌, codes, none, Text, ℕ, text_eq}
use promo_go.Base.Int.{pos}
use promo_go.Domain.{Client, active}
use promo_go.Ledger.Tables.{Db, Call, points_of}
use promo_go.Examples.Whole.{whole}
use promo_go.Qr.Resolve.{
  LinkCall, resolve_qr, find_account_by_id, resolve_or_create_client_for_account, linked_client,
}
use promo_go.Qr.Store.{QrCall, QrConfig, QrState, claim, check_consume_cooldown}
use promo_go.Redis.{put, get}
use promo_go.Qr.OwnStore.{resolve_qr-store}
use promo_go.Loyalty.Queries.{find_client, get_balance_points, get_by_phone}
use promo_go.Ledger.Balances.{value_of}

abbrev always : Call → Bool
always c = true

abbrev links : LinkCall → Bool
links c = true

abbrev redis : QrCall → Bool
redis c = true

abbrev settings : QrConfig
settings = record { ttl = 60000; issue_cooldown = 1000; consume_cooldown = 1000 }

abbrev plain : Text → Text
plain t = t

abbrev bob : Client
bob = record { id = 7; store_id = 1; phone = codes "+79000000001"; customer_account_id = none }

abbrev tables : Db ℕ
tables = record {
  clients = bob ∷ [];
  balances = [];
  transactions = [];
  outbox = [];
  configs = [];
  stores = [];
  accounts = record { id = 3; phone = codes "+79000000001"; status = active } ∷ [];
  next_id = 20;
  now = 1000;
}

abbrev issued_code : QrState
issued_code = record {
  tokens = put (codes "abc") 3 60000 [];
  claims = [];
  issue_cooldowns = [];
  consume_cooldowns = [];
}

resolve_qr-store_example : bob.store_id ≡ 1
unfolding resolve_qr check_consume_cooldown get claim text_eq put find_account_by_id
    resolve_or_create_client_for_account linked_client get_by_phone find_client get_balance_points
    value_of points_of
resolve_qr-store_example =
    resolve_qr-store whole always links plain settings redis 5 1 (codes "v1.abc") (codes "till")
      issued_code tables (record { client = bob; points = pos 0 }) refl
