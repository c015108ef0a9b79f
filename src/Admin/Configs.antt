-- ===== src/Admin/Configs.antt =====
-- internal/httpserver/admin_loyaltyconfig.go and internal/repository/postgres/loyalty_config_repository.go.
-- Both tables have their rows newest first; (store_id, version) is unique in the history.
use promo_go.Base.{
  ℕ, suc, ◌-◌, Bool, true, false, Option, none, some, List, [], ◌∷◌, Text, codes, not, ◌&&◌, ◌||◌,
  ◌==◌, if◌then◌else◌,
}
use promo_go.Base.Int.{ℤ, pos, negsuc}
use promo_go.Domain.{Store, LoyaltyConfig, LoyaltyConfigVersion, meta_number, Result, ok, err}
use promo_go.Domain.Config.{validate}
use promo_go.Domain.Decimals.{Decimals, equal, less_than}
use promo_go.Loyalty.Queries.{find_config}
use promo_go.Loyalty.Accrue.{build_mechanic}
use promo_go.Admin.Handler.{
  AdminDb, AdminCall, load_config, save_config, list_history, Reply, done, refused, Caller,
  audit_create,
}
use promo_go.Admin.Keys.{resolve_scoped_store}

-- What fitsNumeric uses of the decimal library besides; `new_power n` is decimal.New(1, n).
pub record ColumnOps (lib : Decimals) : Type 0 where
  pub truncate : lib.Decimal → ℕ → lib.Decimal
  pub abs : lib.Decimal → lib.Decimal
  pub new_power : ℕ → lib.Decimal

pub record ConfigDb (D : Type 0) : Type 0 where
  pub admin : AdminDb
  pub configs : List (LoyaltyConfig D)
  pub history : List (LoyaltyConfigVersion D)

-- What Upsert returns: the configuration with its version, or one of its errors.
pub data Saved (D : Type 0) : Type 0 where
  saved : LoyaltyConfig D → Saved D
  stale not_saved : Saved D

-- The version that a write must find, when it names one.
abbrev pub is_expected : ℕ → Option ℤ → Bool
is_expected current none = true
is_expected current (some (pos n)) = n == current
is_expected current (some (negsuc n)) = false

module _ {D : Type 0} where
  abbrev pub version_of : Option (LoyaltyConfig D) → ℕ
  version_of none = 0
  version_of (some c) = c.version

  -- INSERT ... ON CONFLICT (store_id) DO UPDATE
  unfoldable pub put_config : LoyaltyConfig D → List (LoyaltyConfig D) → List (LoyaltyConfig D)
  put_config c [] = c ∷ []
  put_config c (x ∷ xs) = if x.store_id == c.store_id then c ∷ xs else x ∷ put_config c xs

  unfoldable pub has_version : ℕ → ℕ → List (LoyaltyConfigVersion D) → Bool
  has_version store version [] = false
  has_version store version (v ∷ vs) =
      ((v.config.store_id == store) && (v.config.version == version))
      || has_version store version vs

  -- ListHistory
  unfoldable pub list_of_store : ℕ → List (LoyaltyConfigVersion D) → List (LoyaltyConfigVersion D)
  list_of_store store [] = []
  list_of_store store (v ∷ vs) =
      if v.config.store_id == store then v ∷ list_of_store store vs else list_of_store store vs

  abbrev pub snapshot : LoyaltyConfig D → Option ℕ → ℕ → LoyaltyConfigVersion D
  snapshot c changed_by now = record {
    config = c;
    changed_by_staff_user_id = changed_by;
    created_at = now;
  }

  abbrev pub add_version : LoyaltyConfig D → Option ℕ → ConfigDb D → ConfigDb D
  add_version c changed_by db = record db {
    configs = put_config c db.configs;
    history = snapshot c changed_by db.admin.now ∷ db.history;
  }

  -- Upsert: one database transaction, which works as a whole or changes nothing.
  unfoldable pub upsert :
      Bool → LoyaltyConfig D → Option ℤ → Option ℕ → ConfigDb D → Saved D × ConfigDb D
  upsert works cfg expected changed_by db =
      let current = version_of (find_config cfg.store_id db.configs) in
      let c = record cfg { version = suc current } in
      if not works
      then (not_saved, db)
      else if not (is_expected current expected)
      then (stale, db)
      else if has_version cfg.store_id (suc current) db.history
      then (not_saved, db)
      else (saved c, add_version c changed_by db)

  -- The loop over the history for a version.
  unfoldable pub find_version : ℤ → List (LoyaltyConfigVersion D) → Option (LoyaltyConfig D)
  find_version version [] = none
  find_version version (v ∷ vs) =
      if is_expected v.config.version (some version) then some v.config else find_version version vs

pub record PutConfigBody (D : Type 0) : Type 0 where
  pub mechanic : Text
  pub accrual_percent : D
  pub min_purchase_amount : D
  pub min_balance_to_redeem : ℤ
  pub max_redeem_percent : D
  pub points_exchange_rate : D
  pub expected_version : Option ℤ

pub record RollbackBody : Type 0 where
  pub version : ℤ
  pub expected_version : Option ℤ

abbrev pub is_version : ℤ → Bool
is_version (pos n) = not (n == 0)
is_version (negsuc n) = false

module _ (lib : Decimals) (ops : ColumnOps lib) where
  open lib use {Decimal}

  -- fitsNumeric, for a scale up to the precision.
  unfoldable pub fits_numeric : Decimal → ℕ → ℕ → Bool
  fits_numeric d precision scale =
      if not (equal lib d (ops.truncate d scale))
      then false
      else less_than lib (ops.abs d) (ops.new_power (precision - scale))

  unfoldable pub check_loyalty_config_columns : PutConfigBody Decimal → Bool
  check_loyalty_config_columns b =
      fits_numeric b.accrual_percent 5 2
      && fits_numeric b.min_purchase_amount 20 2
      && fits_numeric b.max_redeem_percent 5 2
      && fits_numeric b.points_exchange_rate 10 4

  abbrev pub config_from_body : ℕ → PutConfigBody Decimal → LoyaltyConfig Decimal
  config_from_body store b = record {
    store_id = store;
    mechanic = b.mechanic;
    accrual_percent = b.accrual_percent;
    min_purchase_amount = b.min_purchase_amount;
    min_balance_to_redeem = b.min_balance_to_redeem;
    max_redeem_percent = b.max_redeem_percent;
    points_exchange_rate = b.points_exchange_rate;
    version = 0;
  }

  abbrev pub passes : {A : Type 0} → Result A → Bool
  passes (ok _) = true
  passes (err _) = false

  -- The three checks of handlePutLoyaltyConfig that answer 422.
  unfoldable pub acceptable : ℕ → PutConfigBody Decimal → Bool
  acceptable store b =
      passes (validate lib (config_from_body store b))
      && check_loyalty_config_columns b
      && passes (build_mechanic b.mechanic)

module _ {D : Type 0} (up : AdminCall → Bool) where
  abbrev pub with_admin : ConfigDb D → AdminDb → ConfigDb D
  with_admin db a = record db { admin = a }

  -- The answer to a write, and its audit.
  abbrev pub answer_saved :
      (LoyaltyConfig D → AdminDb → AdminDb)
      → Saved D × ConfigDb D
      → Reply (LoyaltyConfig D) × ConfigDb D
  answer_saved audited (saved c, db) = (done c, with_admin db (audited c db.admin))
  answer_saved audited (stale, db) = (refused 409, db)
  answer_saved audited (not_saved, db) = (refused 500, db)

  abbrev pub audit_changed : Caller → ℕ → LoyaltyConfig D → AdminDb → AdminDb
  audit_changed caller org c a =
      (audit_create up caller (codes "loyalty_config.changed") (some org) (some c.store_id)
        (codes "loyalty_config") (some c.store_id) ((codes "version", meta_number c.version) ∷ [])
        a).1

  abbrev pub audit_rolled_back : Caller → ℕ → ℕ → LoyaltyConfig D → AdminDb → AdminDb
  audit_rolled_back caller org restored c a =
      (audit_create up caller (codes "loyalty_config.rolled_back") (some org) (some c.store_id)
        (codes "loyalty_config") (some c.store_id)
        ((codes "version", meta_number c.version)
          ∷ (codes "restored_version", meta_number restored)
          ∷ [])
        a).1

  -- A handler behind resolveScopedStore.
  abbrev pub scoped_then :
      {A : Type 0}
      → (Store → ℕ → ConfigDb D → Reply A × ConfigDb D)
      → Reply (Store × ℕ)
      → ConfigDb D
      → Reply A × ConfigDb D
  scoped_then next (done (store, org)) db = next store org db
  scoped_then next (refused status) db = (refused status, db)

  abbrev pub found_config : Option (LoyaltyConfig D) → Reply (LoyaltyConfig D)
  found_config none = refused 404
  found_config (some c) = done c

  -- handleGetLoyaltyConfig
  unfoldable pub handle_get_loyalty_config :
      Text → Text → ConfigDb D → Reply (LoyaltyConfig D) × ConfigDb D
  handle_get_loyalty_config org_path store_path db =
      scoped_then
        (λ store org e.
          if up load_config
          then (found_config (find_config store.id e.configs), e)
          else (refused 500, e))
        (resolve_scoped_store up org_path store_path db.admin).0 db

  -- handleListLoyaltyConfigHistory
  unfoldable pub handle_list_loyalty_config_history :
      Text → Text → ConfigDb D → Reply (List (LoyaltyConfigVersion D)) × ConfigDb D
  handle_list_loyalty_config_history org_path store_path db =
      scoped_then
        (λ store org e.
          if up list_history
          then (done (list_of_store store.id e.history), e)
          else (refused 500, e))
        (resolve_scoped_store up org_path store_path db.admin).0 db

  abbrev pub roll_back_to :
      RollbackBody
      → Caller
      → Store
      → ℕ
      → Option (LoyaltyConfig D)
      → ConfigDb D
      → Reply (LoyaltyConfig D) × ConfigDb D
  roll_back_to body caller store org none db = (refused 404, db)
  roll_back_to body caller store org (some target) db =
      answer_saved (audit_rolled_back caller org target.version) (
        upsert (up save_config) (record target { store_id = store.id }) body.expected_version
          (some caller.staff_user_id) db)

  abbrev pub roll_back_scoped :
      Option RollbackBody → Caller → Store → ℕ → ConfigDb D → Reply (LoyaltyConfig D) × ConfigDb D
  roll_back_scoped none caller store org db = (refused 400, db)
  roll_back_scoped (some body) caller store org db =
      if not (is_version body.version)
      then (refused 400, db)
      else if not (up list_history)
      then (refused 500, db)
      else roll_back_to body caller store org
          (find_version body.version (list_of_store store.id db.history)) db

  -- handleRollbackLoyaltyConfig
  unfoldable pub handle_rollback_loyalty_config :
      Text → Text → Option RollbackBody → Caller → ConfigDb D → Reply (LoyaltyConfig D) × ConfigDb D
  handle_rollback_loyalty_config org_path store_path sent caller db =
      scoped_then (roll_back_scoped sent caller)
        (resolve_scoped_store up org_path store_path db.admin).0 db

module _ (lib : Decimals) (ops : ColumnOps lib) (up : AdminCall → Bool) where
  open lib use {Decimal}

  abbrev pub put_scoped :
      Option (PutConfigBody Decimal)
      → Caller
      → Store
      → ℕ
      → ConfigDb Decimal
      → Reply (LoyaltyConfig Decimal) × ConfigDb Decimal
  put_scoped none caller store org db = (refused 400, db)
  put_scoped (some body) caller store org db =
      if not (acceptable lib ops store.id body)
      then (refused 422, db)
      else answer_saved up (audit_changed up caller org) (
          upsert (up save_config) (config_from_body lib ops store.id body) body.expected_version
            (some caller.staff_user_id) db)

  -- handlePutLoyaltyConfig
  unfoldable pub handle_put_loyalty_config :
      Text
      → Text
      → Option (PutConfigBody Decimal)
      → Caller
      → ConfigDb Decimal
      → Reply (LoyaltyConfig Decimal) × ConfigDb Decimal
  handle_put_loyalty_config org_path store_path sent caller db =
      scoped_then up (put_scoped sent caller)
        (resolve_scoped_store up org_path store_path db.admin).0 db
