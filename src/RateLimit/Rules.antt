-- ===== src/RateLimit/Rules.antt =====
-- internal/httpserver/ratelimit_rules.go: the rules of each profile of routes, under RateLimitConfig of
-- internal/config/config.go. The hash and the decimal print of an id are parameters.
use promo_go.Base.{ℕ, Option, none, some, List, [], ◌∷◌, ◌++◌, Text, codes}
use promo_go.Phone.{normalize_phone}
use promo_go.RateLimit.Guard.{Rule}

-- The profiles of internal/httpserver/routes.go; a route may have none.
pub data Profile : Type 0 where
  no_profile staff_login admin client_lookup accrual qr_resolve : Profile

abbrev pub profile_name : Profile → Text
profile_name no_profile = []
profile_name staff_login = codes "staff_login"
profile_name admin = codes "admin"
profile_name client_lookup = codes "client_lookup"
profile_name accrual = codes "accrual"
profile_name qr_resolve = codes "qr_resolve"

pub record RateLimitConfig : Type 0 where
  pub staff_login_ip_limit : ℕ
  pub staff_login_ip_window : ℕ
  pub admin_ip_limit : ℕ
  pub admin_ip_window : ℕ
  pub admin_staff_limit : ℕ
  pub admin_staff_window : ℕ
  pub client_lookup_ip_limit : ℕ
  pub client_lookup_ip_window : ℕ
  pub client_lookup_principal_limit : ℕ
  pub client_lookup_principal_window : ℕ
  pub client_lookup_phone_limit : ℕ
  pub client_lookup_phone_window : ℕ
  pub accrual_ip_limit : ℕ
  pub accrual_ip_window : ℕ
  pub accrual_principal_limit : ℕ
  pub accrual_principal_window : ℕ

-- What the rules read of a request and its context: `api_key` is there once a store key was checked,
-- and holds none for a store's old column.
pub record LimitedRequest : Type 0 where
  pub client_ip : Text
  pub staff : Option ℕ
  pub api_key : Option (Option Text)
  pub resolved_store : Option ℕ
  pub customer : Option ℕ
  pub phone : Text

module _ (hash : Text → Text) (format_id : ℕ → Text) where
  abbrev pub labelled : Text → Option ℕ → Option Text
  labelled label none = none
  labelled label (some id) = some (label ++ format_id id)

  abbrev pub ip_rule : Text → ℕ → ℕ → Rule LimitedRequest
  ip_rule name limit window = record {
    name = name;
    limit = limit;
    window = window;
    key_of = λ r. some (codes "ip:" ++ hash r.client_ip);
  }

  abbrev pub staff_user_rule : Text → ℕ → ℕ → Rule LimitedRequest
  staff_user_rule name limit window = record {
    name = name;
    limit = limit;
    window = window;
    key_of = λ r. labelled (codes "staff:") r.staff;
  }

  abbrev pub key_or_store : Option (Option Text) → Option ℕ → Option Text
  key_or_store none store = none
  key_or_store (some (some key_id)) store = some (codes "key:" ++ key_id)
  key_or_store (some none) store = labelled (codes "store:") store

  abbrev pub store_api_key_or_store_rule : Text → ℕ → ℕ → Rule LimitedRequest
  store_api_key_or_store_rule name limit window = record {
    name = name;
    limit = limit;
    window = window;
    key_of = λ r. key_or_store r.api_key r.resolved_store;
  }

  abbrev pub or_customer : Option Text → Option ℕ → Option Text
  or_customer (some key) customer = some key
  or_customer none customer = labelled (codes "customer:") customer

  abbrev pub principal_rule : Text → ℕ → ℕ → Rule LimitedRequest
  principal_rule name limit window = record {
    name = name;
    limit = limit;
    window = window;
    key_of = λ r. or_customer (key_or_store r.api_key r.resolved_store) r.customer;
  }

  abbrev pub canonical : Text → Option Text → Text
  canonical phone none = phone
  canonical phone (some normalized) = normalized

  abbrev pub phone_key : Text → Option Text
  phone_key [] = none
  phone_key (c ∷ s) = some (codes "phone:" ++ hash (canonical (c ∷ s) (normalize_phone (c ∷ s))))

  abbrev pub phone_query_rule : Text → ℕ → ℕ → Rule LimitedRequest
  phone_query_rule name limit window = record {
    name = name;
    limit = limit;
    window = window;
    key_of = λ r. phone_key r.phone;
  }

  -- rateLimitRulesFor: the rules before the credentials are checked, and those after.
  unfoldable pub rate_limit_rules_for :
      RateLimitConfig → Profile → List (Rule LimitedRequest) × List (Rule LimitedRequest)
  rate_limit_rules_for cfg no_profile = ([], [])
  rate_limit_rules_for cfg staff_login =
      (ip_rule (codes "ip") cfg.staff_login_ip_limit cfg.staff_login_ip_window ∷ [], [])
  rate_limit_rules_for cfg admin = (
    ip_rule (codes "ip") cfg.admin_ip_limit cfg.admin_ip_window ∷ [],
    staff_user_rule (codes "staff") cfg.admin_staff_limit cfg.admin_staff_window ∷ [],
  )
  rate_limit_rules_for cfg client_lookup = (
    [],
    ip_rule (codes "ip") cfg.client_lookup_ip_limit cfg.client_lookup_ip_window
        ∷ principal_rule (codes "principal") cfg.client_lookup_principal_limit
            cfg.client_lookup_principal_window
        ∷ phone_query_rule (codes "phone") cfg.client_lookup_phone_limit
            cfg.client_lookup_phone_window
        ∷ [],
  )
  rate_limit_rules_for cfg accrual = (
    ip_rule (codes "ip") cfg.accrual_ip_limit cfg.accrual_ip_window ∷ [],
    store_api_key_or_store_rule (codes "principal") cfg.accrual_principal_limit
          cfg.accrual_principal_window
        ∷ [],
  )
  rate_limit_rules_for cfg qr_resolve = (
    ip_rule (codes "ip") cfg.client_lookup_ip_limit cfg.client_lookup_ip_window ∷ [],
    store_api_key_or_store_rule (codes "principal") cfg.client_lookup_principal_limit
          cfg.client_lookup_principal_window
        ∷ [],
  )
