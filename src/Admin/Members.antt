-- ===== src/Admin/Members.antt =====
-- internal/httpserver/admin_staff.go. The body of a request is what json.Decoder made of it, none if
-- it refused; a time's and a field's JSON form is not modelled.
use promo_go.Base.{
  ℕ, Bool, false, Option, none, some, List, [], ◌∷◌, Text, text_eq, codes, ltb, not, ◌&&◌, ◌||◌,
  ◌==◌, if◌then◌else◌,
}
use promo_go.Domain.{Meta, meta_text, meta_number}
use promo_go.Domain.Rbac.{
  Role, platform_admin, retailer_admin, store_manager, support_viewer, StaffStatus, staff_active,
  staff_disabled, StaffMembership, StaffUser,
}
use promo_go.Staff.Principal.{is_platform_admin, is_admin_role, find_user}
use promo_go.Admin.Handler.{
  AdminDb, AdminCall, load_user, find_subject, create_user, list_memberships, load_membership,
  create_membership, change_role, change_status, load_store, Reply, done, refused, Caller, Handler,
  pure, gets, modify, ◌>>=◌, ◌>>◌, require, present, audit_create,
}
use promo_go.Admin.Gate.{path_id}
use promo_go.Admin.Staff.{
  find_membership, list_by_organization, set_role, set_status, find_by_subject, Insert, inserted,
  conflict, broken, insert_membership, insert_user,
}
use promo_go.Loyalty.Queries.{find_store}
use promo_go.Admin.Strings.{trim_space, byte_length}

abbrev pub max_external_subject_length : ℕ
max_external_subject_length = 255

abbrev pub role_name : Role → Text
role_name platform_admin = codes "platform_admin"
role_name retailer_admin = codes "retailer_admin"
role_name store_manager = codes "store_manager"
role_name support_viewer = codes "support_viewer"

abbrev pub status_name : StaffStatus → Text
status_name staff_active = codes "active"
status_name staff_disabled = codes "disabled"

-- validRole, with the role that a valid name converts to.
unfoldable pub valid_role : Text → Option Role
valid_role t =
    if text_eq t (role_name platform_admin)
    then some platform_admin
    else if text_eq t (role_name retailer_admin)
    then some retailer_admin
    else if text_eq t (role_name store_manager)
    then some store_manager
    else if text_eq t (role_name support_viewer)
    then some support_viewer
    else none

unfoldable pub valid_status : Text → Option StaffStatus
valid_status t =
    if text_eq t (status_name staff_active)
    then some staff_active
    else if text_eq t (status_name staff_disabled)
    then some staff_disabled
    else none

-- A field that may be left empty.
abbrev pub absent_or : {A : Type 0} → (Text → Option A) → Text → Option (Option A)
absent_or parse [] = some none
absent_or parse (c ∷ s) = elim (parse (c ∷ s)) [ none ↦ none | some a ↦ some (some a) ]

-- The memberships with the profiles of their users.
pub record MembershipBody : Type 0 where
  pub membership : StaffMembership
  pub external_subject : Text
  pub email : Text
  pub display_name : Text

abbrev pub membership_to_body : StaffMembership → StaffUser → MembershipBody
membership_to_body m u = record {
  membership = m;
  external_subject = u.external_subject;
  email = u.email;
  display_name = u.display_name;
}

pub record CreateMembershipBody : Type 0 where
  pub external_subject : Text
  pub store_id : Option ℕ
  pub role : Text

pub record UpdateMembershipBody : Type 0 where
  pub role : Text
  pub status : Text

-- `principal.Memberships` holds only active rows of the caller.
abbrev pub may_grant : Caller → Role → Bool
may_grant caller role = not (is_admin_role role) || is_platform_admin caller.held

abbrev pub created_user : Insert StaffUser × AdminDb → Reply StaffUser × AdminDb
created_user (inserted u, d) = (done u, d)
created_user (conflict, d) = (refused 500, d)
created_user (broken, d) = (refused 500, d)

abbrev pub created_membership : Insert StaffMembership × AdminDb → Reply StaffMembership × AdminDb
created_membership (inserted m, d) = (done m, d)
created_membership (conflict, d) = (refused 409, d)
created_membership (broken, d) = (refused 500, d)

abbrev pub added_metadata : StaffMembership → Option ℕ → List (Text × Meta)
added_metadata m none = (codes "role", meta_text (role_name m.role)) ∷ []
added_metadata m (some store) =
    (codes "role", meta_text (role_name m.role)) ∷ (codes "store_id", meta_number store) ∷ []

abbrev pub from_to : Text → Text → List (Text × Meta)
from_to a b = (codes "from", meta_text a) ∷ (codes "to", meta_text b) ∷ []

abbrev pub grants_admin : Option Role → Bool
grants_admin none = false
grants_admin (some role) = is_admin_role role

abbrev pub find_target : ℕ → Handler StaffMembership
find_target id d = present 404 (find_membership id d.memberships) d

module _ (up : AdminCall → Bool) where
  -- The loop over the list; the cache of users changes no answer.
  unfoldable pub member_bodies :
      List StaffUser → List StaffMembership → Option (List MembershipBody)
  member_bodies users [] = some []
  member_bodies users (m ∷ ms) =
      let rest = member_bodies users ms in
      elim (if up load_user then find_user m.staff_user_id users else none) [
        | none ↦ none
        | some u ↦ elim rest [ none ↦ none | some bodies ↦ some (membership_to_body m u ∷ bodies) ]
      ]

  -- handleListStaffMemberships
  unfoldable pub handle_list_staff_memberships : Text → Caller → Handler (List MembershipBody)
  unfolding ◌>>=◌
  handle_list_staff_memberships org_path caller = do
    org ← present 400 (path_id org_path)
    require (up list_memberships) 500
    bodies ← gets (λ d. member_bodies d.users (list_by_organization org d.memberships))
    present 500 bodies

  -- `stores.GetByID`, with the require that the store is of the organization.
  unfoldable pub check_store : ℕ → Option ℕ → Handler (Unit {0})
  unfolding ◌>>=◌
  check_store org none = pure tt
  check_store org (some id) = do
    require (up load_store) 500
    found ← gets (λ d. find_store id d.stores)
    store ← present 400 found
    require (store.organization_id == org) 400

  abbrev pub user_or_create : Text → Option StaffUser → Handler StaffUser
  user_or_create subject (some u) = pure u
  user_or_create subject none = λ d. created_user (insert_user (up create_user) subject [] [] d)

  unfoldable pub resolve_user : Text → Handler StaffUser
  unfolding ◌>>=◌
  resolve_user subject = do
    require (up find_subject) 500
    found ← gets (λ d. find_by_subject subject d.users)
    user_or_create subject found

  unfoldable pub create_for : ℕ → ℕ → Option ℕ → Role → Handler StaffMembership
  create_for user org store role d =
      created_membership (insert_membership (up create_membership) user org store role d)

  -- The part after the body's checks.
  unfoldable pub add_member : ℕ → Text → Option ℕ → Role → Caller → Handler MembershipBody
  unfolding ◌>>=◌
  add_member org subject store role caller = do
    require (may_grant caller role) 403
    check_store org store
    user ← resolve_user subject
    m ← create_for user.id org store role
    audit_create up caller (codes "staff.membership_added") (some org) m.store_id
        (codes "staff_membership") (some m.id) (added_metadata m m.store_id)
    pure (membership_to_body m user)

  -- handleCreateStaffMembership
  unfoldable pub handle_create_staff_membership :
      Text → Option CreateMembershipBody → Caller → Handler MembershipBody
  unfolding ◌>>=◌
  handle_create_staff_membership org_path sent caller = do
    org ← present 400 (path_id org_path)
    body ← present 400 sent
    require (not (text_eq (trim_space body.external_subject) [])) 400
    require (not (ltb max_external_subject_length (byte_length (trim_space body.external_subject))))
        400
    role ← present 400 (valid_role body.role)
    add_member org (trim_space body.external_subject) body.store_id role caller

  unfoldable pub update_role : ℕ → ℕ → StaffMembership → Option Role → Caller → Handler (Unit {0})
  unfolding ◌>>=◌
  update_role org id target none caller = pure tt
  update_role org id target (some role) caller = do
    require (up change_role) 500
    modify (set_role id role)
    audit_create up caller (codes "staff.role_changed") (some org) target.store_id
        (codes "staff_membership") (some id) (from_to (role_name target.role) (role_name role))

  unfoldable pub update_status :
      ℕ → ℕ → StaffMembership → Option StaffStatus → Caller → Handler (Unit {0})
  unfolding ◌>>=◌
  update_status org id target none caller = pure tt
  update_status org id target (some status) caller = do
    require (up change_status) 500
    modify (set_status id status)
    audit_create up caller (codes "staff.status_changed") (some org) target.store_id
        (codes "staff_membership") (some id)
        (from_to (status_name target.status) (status_name status))

  -- The checks on the loaded membership, then the writes.
  unfoldable pub change_member :
      ℕ → ℕ → Option Role → Option StaffStatus → StaffMembership → Caller → Handler (Unit {0})
  unfolding ◌>>=◌
  change_member org id role status target caller = do
    require (target.organization_id == org) 404
    require (not (caller.staff_user_id == target.staff_user_id)) 400
    require (not (grants_admin role || is_admin_role target.role) || is_platform_admin caller.held)
        403
    update_role org id target role caller
    update_status org id target status caller

  -- handleUpdateStaffMembership
  unfoldable pub handle_update_staff_membership :
      Text → Text → Option UpdateMembershipBody → Caller → Handler (Unit {0})
  unfolding ◌>>=◌
  handle_update_staff_membership org_path id_path sent caller = do
    org ← present 400 (path_id org_path)
    id ← present 400 (path_id id_path)
    body ← present 400 sent
    require (not (text_eq body.role [] && text_eq body.status [])) 400
    role ← present 400 (absent_or valid_role body.role)
    status ← present 400 (absent_or valid_status body.status)
    require (up load_membership) 500
    target ← find_target id
    change_member org id role status target caller
