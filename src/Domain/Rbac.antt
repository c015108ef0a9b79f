-- ===== src/Domain/Rbac.antt =====
-- internal/domain/rbac.go: the roles, the permissions and what each role grants; and the
-- memberships of internal/domain/staff.go.
use promo_go.Base.{ℕ, Bool, false, Option, List, [], ◌∷◌, ◌||◌, ◌==◌, Text}

pub data Role : Type 0 where
  platform_admin retailer_admin store_manager support_viewer : Role

pub data Permission : Type 0 where
  organizations_manage stores_read stores_manage staff_manage clients_read : Permission
  transactions_read loyalty_config_read loyalty_config_write : Permission
  api_keys_read api_keys_rotate audit_read : Permission

-- Permissions are strings; these numbers tell them apart.
abbrev pub permission_code : Permission → ℕ
permission_code organizations_manage = 0
permission_code stores_read = 1
permission_code stores_manage = 2
permission_code staff_manage = 3
permission_code clients_read = 4
permission_code transactions_read = 5
permission_code loyalty_config_read = 6
permission_code loyalty_config_write = 7
permission_code api_keys_read = 8
permission_code api_keys_rotate = 9
permission_code audit_read = 10

unfoldable pub role_permissions : Role → List Permission
role_permissions platform_admin =
    organizations_manage ∷ stores_read ∷ stores_manage ∷ staff_manage ∷ clients_read
    ∷ transactions_read ∷ loyalty_config_read ∷ loyalty_config_write ∷ api_keys_read
    ∷ api_keys_rotate ∷ audit_read ∷ []
role_permissions retailer_admin =
    stores_read ∷ stores_manage ∷ staff_manage ∷ clients_read ∷ transactions_read
    ∷ loyalty_config_read ∷ loyalty_config_write ∷ api_keys_read ∷ api_keys_rotate ∷ audit_read ∷ []
role_permissions store_manager =
    stores_read ∷ clients_read ∷ transactions_read ∷ loyalty_config_read ∷ loyalty_config_write ∷ []
role_permissions support_viewer =
    stores_read ∷ clients_read ∷ transactions_read ∷ loyalty_config_read ∷ api_keys_read
    ∷ audit_read ∷ []

abbrev pub contains : Permission → List Permission → Bool
contains p [] = false
contains p (q ∷ qs) = (permission_code q == permission_code p) || contains p qs

-- domain.HasPermission
unfoldable pub grants : Role → Permission → Bool
unfolding role_permissions
grants role perm = contains perm (role_permissions role)

pub data StaffStatus : Type 0 where
  staff_active staff_disabled : StaffStatus

pub record StaffMembership : Type 0 where
  pub id : ℕ
  pub staff_user_id : ℕ
  pub organization_id : ℕ
  pub store_id : Option ℕ
  pub role : Role
  pub status : StaffStatus
  pub created_at : ℕ
  pub updated_at : ℕ

pub record StaffUser : Type 0 where
  pub id : ℕ
  pub external_subject : Text
  pub email : Text
  pub display_name : Text
  pub status : StaffStatus
  pub created_at : ℕ
