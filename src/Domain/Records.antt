-- ===== src/Domain/Records.antt =====
-- internal/domain: client.go, balance.go, transaction.go, notification_outbox.go,
-- loyalty_config.go, store.go, organization.go and audit.go. Ids come from BIGSERIAL columns and are only compared, so they are numbers;
-- points are int64, so they are integers. `D` is the type of decimals. Times are numbers.
use promo_go.Base.{ℕ, Bool, true, false, Option, Text, ◌≡◌, arith, List}
use promo_go.Base.Int.{ℤ}

pub record Client : Type 0 where
  pub id : ℕ
  pub store_id : ℕ
  pub phone : Text
  pub customer_account_id : Option ℕ

pub record Balance : Type 0 where
  pub client_id : ℕ
  pub points : ℤ

pub data TransactionType : Type 0 where
  accrual redeem refund : TransactionType

abbrev pub type_eq : TransactionType → TransactionType → Bool
type_eq accrual accrual = true
type_eq redeem redeem = true
type_eq refund refund = true
type_eq _ _ = false

pub type_eq_refl : (t : TransactionType) → type_eq t t ≡ true
type_eq_refl t = ground arith

pub eq_of_type_eq : (s t : TransactionType) → type_eq s t ≡ true → s ≡ t
eq_of_type_eq s t h = ground arith

pub record Transaction (D : Type 0) : Type 0 where
  pub id : ℕ
  pub store_id : ℕ
  pub client_id : ℕ
  pub external_tx_id : Text
  pub amount : D
  pub currency : Text
  pub tx_type : TransactionType
  pub points_delta : ℤ
  pub balance_after : ℤ
  pub request_fingerprint : Text
  pub created_at : ℕ
  pub rule_version : Option ℕ
  pub original_transaction_id : Option ℕ
  pub refunded_amount : D
  pub refunded_points : ℤ
  pub refund_cumulative_amount : D
  pub refund_fully_refunded : Bool

pub data OutboxChannel : Type 0 where
  unset push sms : OutboxChannel

pub data OutboxStatus : Type 0 where
  pending processing delivered dead_letter : OutboxStatus

pub record OutboxEntry : Type 0 where
  pub id : ℕ
  pub client_id : ℕ
  pub channel : OutboxChannel
  pub template_id : Text
  pub template_version : ℕ
  pub message : Text
  pub dedupe_key : Text
  pub status : OutboxStatus
  pub attempts : ℕ
  pub next_attempt_at : ℕ
  pub last_error : Text
  pub created_at : ℕ
  pub delivered_at : Option ℕ

pub record LoyaltyConfig (D : Type 0) : Type 0 where
  pub store_id : ℕ
  pub mechanic : Text
  pub accrual_percent : D
  pub min_purchase_amount : D
  pub min_balance_to_redeem : ℤ
  pub max_redeem_percent : D
  pub points_exchange_rate : D
  pub version : ℕ

pub record Store : Type 0 where
  pub id : ℕ
  pub organization_id : ℕ
  pub name : Text
  pub address : Text
  pub external_code : Option Text
  pub sms_invite_enabled : Bool
  pub api_key_hash : Text

pub data AccountStatus : Type 0 where
  active blocked deleted : AccountStatus

pub record CustomerAccount : Type 0 where
  pub id : ℕ
  pub phone : Text
  pub status : AccountStatus

pub record Organization : Type 0 where
  pub id : ℕ
  pub name : Text
  pub created_at : ℕ

-- A snapshot of a store's configuration in loyalty_config_history.
pub record LoyaltyConfigVersion (D : Type 0) : Type 0 where
  pub config : LoyaltyConfig D
  pub changed_by_staff_user_id : Option ℕ
  pub created_at : ℕ

pub data AuditActorType : Type 0 where
  customer_actor staff_actor store_api_key_actor system_actor : AuditActorType

-- A value of an event's metadata.
pub data Meta : Type 0 where
  meta_text : Text → Meta
  meta_number : ℕ → Meta
  meta_flag : Bool → Meta

pub record AuditEvent : Type 0 where
  pub id : ℕ
  pub occurred_at : ℕ
  pub actor_type : AuditActorType
  pub actor_id : Option ℕ
  pub organization_id : Option ℕ
  pub store_id : Option ℕ
  pub action : Text
  pub target_type : Text
  pub target_id : Option ℕ
  pub metadata : List (Text × Meta)
  pub ip : Text
  pub user_agent : Text
