-- ===== src/Admin/Staff.antt =====
-- internal/repository/postgres/staff_membership_repository.go and staff_user_repository.go, with the
-- unique indexes and foreign keys of their tables (migrations/sql/00018 and 00030). Rows stand
-- newest first.
use promo_go.Base.{
  ℕ, suc, Bool, true, false, Option, none, some, List, [], ◌∷◌, Text, text_eq, not, ◌&&◌, ◌||◌,
  ◌==◌, if◌then◌else◌,
}
use promo_go.Domain.Rbac.{Role, StaffStatus, staff_active, StaffMembership, StaffUser}
use promo_go.Domain.{Organization}
use promo_go.Admin.Handler.{AdminDb}

abbrev pub same_store : Option ℕ → Option ℕ → Bool
same_store none none = true
same_store (some a) (some b) = a == b
same_store _ _ = false

-- SELECT ... FROM staff_memberships WHERE id = $1
unfoldable pub find_membership : ℕ → List StaffMembership → Option StaffMembership
find_membership id [] = none
find_membership id (m ∷ ms) = if m.id == id then some m else find_membership id ms

-- Whether an index holds the three columns.
unfoldable pub has_membership : ℕ → ℕ → Option ℕ → List StaffMembership → Bool
has_membership user org store [] = false
has_membership user org store (m ∷ ms) =
    ((m.staff_user_id == user) && (m.organization_id == org) && same_store m.store_id store)
    || has_membership user org store ms

-- ListByOrganization and ListByStaffUser.
unfoldable pub list_by_organization : ℕ → List StaffMembership → List StaffMembership
list_by_organization org [] = []
list_by_organization org (m ∷ ms) =
    if m.organization_id == org
    then m ∷ list_by_organization org ms
    else list_by_organization org ms

unfoldable pub list_by_staff_user : ℕ → List StaffMembership → List StaffMembership
list_by_staff_user user [] = []
list_by_staff_user user (m ∷ ms) =
    if m.staff_user_id == user then m ∷ list_by_staff_user user ms else list_by_staff_user user ms

-- UPDATE staff_memberships SET ... WHERE id = $1
unfoldable pub amend :
    ℕ → (StaffMembership → StaffMembership) → List StaffMembership → List StaffMembership
amend id f [] = []
amend id f (m ∷ ms) = (if m.id == id then f m else m) ∷ amend id f ms

-- UPDATE staff_memberships SET role = $2, updated_at = now() WHERE id = $1
abbrev pub with_role : ℕ → Role → StaffMembership → StaffMembership
with_role now role m = record m { role = role; updated_at = now }

-- UPDATE staff_memberships SET status = $2, updated_at = now() WHERE id = $1
abbrev pub with_status : ℕ → StaffStatus → StaffMembership → StaffMembership
with_status now status m = record m { status = status; updated_at = now }

abbrev pub set_role : ℕ → Role → AdminDb → AdminDb
set_role id role d = record d { memberships = amend id (with_role d.now role) d.memberships }

abbrev pub set_status : ℕ → StaffStatus → AdminDb → AdminDb
set_status id status d = record d {
  memberships = amend id (with_status d.now status) d.memberships;
}

unfoldable pub find_organization : ℕ → List Organization → Option Organization
find_organization id [] = none
find_organization id (o ∷ os) = if o.id == id then some o else find_organization id os

abbrev pub is_some : {A : Type 0} → Option A → Bool
is_some none = false
is_some (some _) = true

-- SELECT ... FROM staff_users WHERE external_subject = $1
unfoldable pub find_by_subject : Text → List StaffUser → Option StaffUser
find_by_subject subject [] = none
find_by_subject subject (u ∷ us) =
    if text_eq u.external_subject subject then some u else find_by_subject subject us

-- What an insert ends in.
pub data Insert (A : Type 0) : Type 0 where
  inserted : A → Insert A
  conflict broken : Insert A

abbrev pub member_row : ℕ → ℕ → ℕ → ℕ → Option ℕ → Role → StaffMembership
member_row now id user org store role = record {
  id = id;
  staff_user_id = user;
  organization_id = org;
  store_id = store;
  role = role;
  status = staff_active;
  created_at = now;
  updated_at = now;
}

abbrev pub user_row : ℕ → ℕ → Text → Text → Text → StaffUser
user_row now id subject email display_name = record {
  id = id;
  external_subject = subject;
  email = email;
  display_name = display_name;
  status = staff_active;
  created_at = now;
}

abbrev pub add_membership : StaffMembership → AdminDb → AdminDb
add_membership m d = record d { memberships = m ∷ d.memberships; next_id = suc d.next_id }

abbrev pub add_user : StaffUser → AdminDb → AdminDb
add_user u d = record d { users = u ∷ d.users; next_id = suc d.next_id }

-- The organization that a membership is for must exist.
unfoldable pub insert_membership :
    Bool → ℕ → ℕ → Option ℕ → Role → AdminDb → Insert StaffMembership × AdminDb
insert_membership up user org store role d =
    let m = member_row d.now d.next_id user org store role in
    elim up [
      | false ↦ (broken, d)
      | true ↦
          (if has_membership user org store d.memberships
            then (conflict, d)
            else if not (is_some (find_organization org d.organizations))
            then (broken, d)
            else (inserted m, add_membership m d))
    ]

unfoldable pub insert_user : Bool → Text → Text → Text → AdminDb → Insert StaffUser × AdminDb
insert_user up subject email display_name d =
    let u = user_row d.now d.next_id subject email display_name in
    elim up [
      | false ↦ (broken, d)
      | true ↦
          (if is_some (find_by_subject subject d.users)
            then (conflict, d)
            else (inserted u, add_user u d))
    ]
