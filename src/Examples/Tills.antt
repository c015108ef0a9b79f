-- ===== src/Examples/Tills.antt =====
-- Store keys and loyalty configurations of the small office: the theorems at work on them.
use promo_go.Admin.Strings.{is_space, normalize_name, trim_left, trim_right, trim_space}
use promo_go.Loyalty.Queries.{find_store}
use promo_go.Base.{
  ℕ, true, false, none, some, [], ◌∷◌, ◌++◌, Text, codes, refl, ◌≡◌, replicate, ◌⊎◌, text_eq, ◌≢◌,
}
use promo_go.Base.Int.{pos}
use promo_go.Domain.{Store, LoyaltyConfig}
use promo_go.Domain.ApiKey.{ApiKey, has_scope, scope_transactions_write, active_key}
use promo_go.Admin.Handler.{
  AdminDb, done, audit_create, require, gets, modify, present, pure, refuse, ◌>>=◌,
}
use promo_go.Admin.Gate.{bearer, path_id, trim_prefix, digits_value, parse_int}
use promo_go.Admin.Runs.{Runs}
use promo_go.Admin.Credentials.{
  NewKey, generate_api_key, base64_digit, cut_dot, encode_base64, parse_multi_key_api_key,
}
use promo_go.Admin.Keys.{
  CreateKeyBody, key_row, handle_create_store_api_key, handle_revoke_store_api_key, list_by_store,
  collect_scopes, find_key_id, has_key_hash, insert_key, issue_key, resolve_scoped_store, save_key,
  any_revocable, key_name, revoke_of_store, revoke_rows,
}
use promo_go.Admin.KeyAuth.{
  authenticate, by_key_row, by_parts, find_api_key_hash, legacy_store, store_of_key,
}
use promo_go.Admin.KeyRoundTrip.{create-authenticate}
use promo_go.Admin.KeyRevoked.{Entitled, authenticate-Entitled, handle_revoke-authenticate}
use promo_go.Admin.Configs.{ConfigDb, upsert}
use promo_go.Admin.ConfigLaws.{Refines, upsert-Refines, log}
use promo_go.Examples.Office.{works, office, boss}
use promo_go.Loyalty.Queries.{find_config}

-- A hash that hides nothing.
abbrev clear : Text → Text
clear s = s

abbrev new_key : NewKey
new_key = generate_api_key clear (replicate 8 1) (replicate 32 2)

abbrev till_body : CreateKeyBody
till_body = record {
  name = codes " Till ";
  scopes = scope_transactions_write ∷ scope_transactions_write ∷ [];
  expires_at = some 900;
}

abbrev till_key : ApiKey
till_key = key_row 100 10 5 new_key (codes "Till") (scope_transactions_write ∷ []) (some 900) 2

abbrev with_key : AdminDb
with_key =
    (handle_create_store_api_key works new_key (codes "1") (codes "5") (some till_body) boss
      office).1

till_created :
    Runs
      (handle_create_store_api_key works new_key (codes "1") (codes "5") (some till_body) boss)
      office
      (till_key, new_key.plaintext)
      with_key
unfolding handle_create_store_api_key resolve_scoped_store present parse_int text_eq pure require
    gets find_store normalize_name collect_scopes issue_key save_key insert_key find_key_id
    has_key_hash audit_create digits_value modify refuse ◌>>=◌ is_space trim_left trim_right
    trim_space has_scope
till_created = record { ran = refl }

-- The till comes in at 500.
create-authenticate_example :
    ((store : Store) × (path_id (codes "5") ≡ some store.id)
      × (authenticate clear works (bearer ++ new_key.plaintext) (record with_key { now = 500 })
          ≡ (done (store, some till_key), record with_key { now = 500 })))
    × (has_scope scope_transactions_write till_key.scopes
        ≡ has_scope scope_transactions_write till_body.scopes)
create-authenticate_example =
    create-authenticate clear works works (replicate 8 1) (replicate 32 2) (codes "1") (codes "5")
      till_body boss office with_key till_key new_key.plaintext 500 scope_transactions_write refl
      refl till_created refl refl refl

abbrev shop : Store
shop = record {
  id = 5;
  organization_id = 1;
  name = codes "Shop";
  address = [];
  external_code = none;
  sms_invite_enabled = false;
  api_key_hash = [];
}

till_in :
    Runs
      (authenticate clear works (bearer ++ new_key.plaintext))
      with_key
      (shop, some till_key)
      with_key
unfolding authenticate require text_eq trim_prefix generate_api_key pure by_parts
    parse_multi_key_api_key gets by_key_row find_key_id handle_create_store_api_key
    resolve_scoped_store present parse_int find_store normalize_name base64_digit cut_dot
    encode_base64 digits_value audit_create modify refuse ◌>>=◌ find_api_key_hash legacy_store
    store_of_key collect_scopes has_key_hash insert_key issue_key save_key is_space trim_left
    trim_right trim_space active_key has_scope
till_in = record { ran = refl }

authenticate-Entitled_example :
    Entitled clear (trim_prefix bearer (bearer ++ new_key.plaintext)) with_key shop (some till_key)
    × (with_key ≡ with_key)
authenticate-Entitled_example =
    authenticate-Entitled clear works (bearer ++ new_key.plaintext) with_key with_key shop
      (some till_key) till_in

-- A second key of the shop, the first revoked: the second still comes in.
abbrev second_key : NewKey
second_key = generate_api_key clear (replicate 8 3) (replicate 32 4)

abbrev two_keys : AdminDb
two_keys = record with_key {
  api_keys = key_row 100 12 5 second_key (codes "Two") [] none 2 ∷ till_key ∷ [];
  next_id = 13;
}

abbrev after_revoke : AdminDb
after_revoke =
    (handle_revoke_store_api_key works (codes "1") (codes "5") (codes "10") boss two_keys).1

first_revoked :
    Runs
      (handle_revoke_store_api_key works (codes "1") (codes "5") (codes "10") boss)
      two_keys
      tt
      after_revoke
unfolding handle_revoke_store_api_key resolve_scoped_store present parse_int text_eq pure require
    gets find_store handle_create_store_api_key normalize_name collect_scopes issue_key save_key
    insert_key find_key_id has_key_hash digits_value audit_create modify refuse ◌>>=◌ any_revocable
    key_name list_by_store revoke_of_store revoke_rows is_space trim_left trim_right trim_space
    has_scope
first_revoked = record { ran = refl }

second_in :
    Runs
      (authenticate clear works (bearer ++ second_key.plaintext))
      after_revoke
      (shop, some (key_row 100 12 5 second_key (codes "Two") [] none 2))
      after_revoke
unfolding authenticate require text_eq trim_prefix generate_api_key pure by_parts
    parse_multi_key_api_key gets by_key_row find_key_id handle_revoke_store_api_key
    resolve_scoped_store present parse_int find_store handle_create_store_api_key base64_digit
    cut_dot encode_base64 digits_value audit_create modify refuse ◌>>=◌ find_api_key_hash
    legacy_store store_of_key any_revocable collect_scopes has_key_hash insert_key issue_key
    key_name list_by_store revoke_of_store revoke_rows save_key is_space normalize_name trim_left
    trim_right trim_space active_key has_scope
second_in = record { ran = refl }

handle_revoke-authenticate_example :
    (store : ℕ) × (id : ℕ) × (path_id (codes "5") ≡ some store)
    × (path_id (codes "10") ≡ some id)
    × (((key_row 100 12 5 second_key (codes "Two") [] none 2).id ≢ id)
        ⊎ ((key_row 100 12 5 second_key (codes "Two") [] none 2).store_id ≢ store))
    × ((6 ≡ store) ⊎ (list_by_store 6 after_revoke.api_keys ≡ list_by_store 6 two_keys.api_keys))
handle_revoke-authenticate_example =
    handle_revoke-authenticate works clear works (codes "1") (codes "5") (codes "10") boss 6
      two_keys after_revoke (bearer ++ second_key.plaintext) after_revoke after_revoke shop
      (key_row 100 12 5 second_key (codes "Two") [] none 2) first_revoked refl second_in

abbrev rule : ℕ → ℕ → LoyaltyConfig ℕ
rule version percent = record {
  store_id = 5;
  mechanic = codes "points";
  accrual_percent = percent;
  min_purchase_amount = 0;
  min_balance_to_redeem = pos 0;
  max_redeem_percent = 50;
  points_exchange_rate = 1;
  version = version;
}

abbrev rules : ConfigDb ℕ
rules = record {
  admin = office;
  configs = rule 1 5 ∷ [];
  history = record { config = rule 1 5; changed_by_staff_user_id = some 2; created_at = 50 } ∷ [];
}

upsert-Refines_example :
    Refines
      (rule 0 7)
      (some (pos 1))
      true
      6
      rules
      (upsert true (rule 0 7) (some (pos 1)) (some 2) rules)
unfolding log find_config
upsert-Refines_example =
    upsert-Refines (rule 0 7) (some (pos 1)) true (some 2) 6 rules ((refl, tt), refl) (tt, refl)
