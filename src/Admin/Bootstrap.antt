-- ===== src/Admin/Bootstrap.antt =====
-- internal/service/bootstrap.go, with the lookups of organization_repository.go. Other runs may act
-- before each call of a repository: `others` are what they do, in the order of the calls.
use promo_go.Base.{
  ℕ, zero, suc, Bool, true, false, Option, none, some, List, [], ◌∷◌, Text, text_eq, not, ◌==◌,
  if◌then◌else◌,
}
use promo_go.Domain.{Organization}
use promo_go.Domain.Rbac.{platform_admin, StaffMembership, StaffUser}
use promo_go.Staff.Principal.{is_admin_role}
use promo_go.Admin.Handler.{
  AdminDb, AdminCall, load_organization, find_subject, create_user, list_memberships, change_role,
  create_membership,
}
use promo_go.Admin.Staff.{
  find_organization, find_by_subject, list_by_staff_user, set_role, Insert, inserted, conflict,
  broken, insert_membership, insert_user,
}

pub record BootstrapInput : Type 0 where
  pub subject : Text
  pub email : Text
  pub display_name : Text
  pub org_name : Text
  pub org_id : ℕ

-- A value or an error; `unfinished` when the fuel of the recursion is used up.
pub data Outcome (A : Type 0) : Type 0 where
  resolved : A → Outcome A
  failed unfinished : Outcome A

unfoldable pub organizations_named : Text → List Organization → List Organization
organizations_named name [] = []
organizations_named name (o ∷ os) =
    if text_eq o.name name then o ∷ organizations_named name os else organizations_named name os

-- OrganizationRepository.GetByName, on the rows of the name.
abbrev pub only_one : List Organization → Outcome Organization
only_one [] = failed
only_one (o ∷ []) = resolved o
only_one (o ∷ p ∷ os) = failed

abbrev pub found_or_failed : {A : Type 0} → Option A → Outcome A
found_or_failed none = failed
found_or_failed (some a) = resolved a

module _ (up : AdminCall → Bool) where
  unfoldable pub resolve_organization : BootstrapInput → AdminDb → Outcome Organization
  resolve_organization input d =
      if not (up load_organization)
      then failed
      else if not (input.org_id == 0)
      then found_or_failed (find_organization input.org_id d.organizations)
      else only_one (organizations_named input.org_name d.organizations)

  abbrev pub new_or_refetched :
      BootstrapInput
      → (AdminDb → AdminDb)
      → Insert StaffUser × AdminDb
      → Outcome (StaffUser × Bool) × AdminDb
  new_or_refetched input other (inserted u, d) = (resolved (u, true), d)
  new_or_refetched input other (broken, d) = (failed, d)
  new_or_refetched input other (conflict, d) =
      elim (find_by_subject input.subject (other d).users) [
        | none ↦ (failed, other d)
        | some u ↦ (resolved (u, false), other d)
      ]

  abbrev pub user_found :
      BootstrapInput
      → (AdminDb → AdminDb)
      → (AdminDb → AdminDb)
      → Option StaffUser
      → AdminDb
      → Outcome (StaffUser × Bool) × AdminDb
  user_found input other1 other2 (some u) d = (resolved (u, false), d)
  user_found input other1 other2 none d =
      new_or_refetched input other2
        (insert_user (up create_user) input.subject input.email input.display_name (other1 d))

  -- resolveOrCreateStaffUser, with what other runs do before the insert and before the second read.
  unfoldable pub resolve_or_create_staff_user :
      BootstrapInput
      → (AdminDb → AdminDb)
      → (AdminDb → AdminDb)
      → AdminDb
      → Outcome (StaffUser × Bool) × AdminDb
  resolve_or_create_staff_user input other1 other2 d =
      if up find_subject
      then user_found input other1 other2 (find_by_subject input.subject d.users) d
      else (failed, d)

abbrev pub is_org_wide : ℕ → ℕ → Option ℕ → Bool
is_org_wide org held (some _) = false
is_org_wide org held none = held == org

-- The loop over the user's memberships.
unfoldable pub find_org_wide : ℕ → List StaffMembership → Option StaffMembership
find_org_wide org [] = none
find_org_wide org (m ∷ ms) =
    if is_org_wide org m.organization_id m.store_id then some m else find_org_wide org ms

abbrev pub Found : Type 0
Found = Outcome (StaffMembership × Bool) × AdminDb

abbrev pub after_create : (AdminDb → Found) → Insert StaffMembership × AdminDb → Found
after_create again (inserted m, d) = (resolved (m, true), d)
after_create again (broken, d) = (failed, d)
after_create again (conflict, d) = again d

module _ (up : AdminCall → Bool) (others : ℕ → Bool → AdminDb → AdminDb) where
  -- The membership found is promoted unless it has the role.
  abbrev pub promote : ℕ → StaffMembership → AdminDb → Found
  promote round m d =
      if is_admin_role m.role
      then (resolved (m, false), d)
      else if up change_role
      then (
        resolved (record m { role = platform_admin }, false),
        set_role m.id platform_admin (others round false d),
      )
      else (failed, d)

  abbrev pub promote_or_insert :
      (AdminDb → Found) → ℕ → ℕ → ℕ → Option StaffMembership → AdminDb → Found
  promote_or_insert again round user org (some m) d = promote round m d
  promote_or_insert again round user org none d =
      after_create again (
        insert_membership (up create_membership) user org none platform_admin
          (others round false d))

  -- resolveOrCreatePlatformAdminMembership, on fuel for its call of itself after a conflict; `round`
  -- counts the calls.
  unfoldable pub resolve_or_create_membership : ℕ → ℕ → ℕ → ℕ → AdminDb → Found
  resolve_or_create_membership zero round user org d = (unfinished, d)
  resolve_or_create_membership (suc fuel) round user org d =
      if up list_memberships
      then promote_or_insert
          (λ e. resolve_or_create_membership fuel (suc round) user org (others round true e)) round
          user org (find_org_wide org (list_by_staff_user user d.memberships)) d
      else (failed, d)

abbrev pub ended : {A : Type 0} → Outcome A → Bool
ended (resolved _) = true
ended failed = true
ended unfinished = false

pub record BootstrapResult : Type 0 where
  pub organization : Organization
  pub staff_user : StaffUser
  pub membership : StaffMembership
  pub user_created : Bool
  pub membership_created : Bool

abbrev pub bootstrapped :
    Organization → StaffUser × Bool → Found → Outcome BootstrapResult × AdminDb
bootstrapped org user (resolved (m, created), d) = (
  resolved (record {
    organization = org;
    staff_user = user.0;
    membership = m;
    user_created = user.1;
    membership_created = created;
  }),
  d,
)
bootstrapped org user (failed, d) = (failed, d)
bootstrapped org user (unfinished, d) = (unfinished, d)

-- Two rounds of the recursion; Admin/BootstrapLaws shows that they are enough.
abbrev pub rounds : ℕ
rounds = 2

module _ (up : AdminCall → Bool) (others : ℕ → Bool → AdminDb → AdminDb) where
  abbrev pub with_user :
      Organization → Outcome (StaffUser × Bool) × AdminDb → Outcome BootstrapResult × AdminDb
  with_user org (resolved user, d) =
      bootstrapped org user (resolve_or_create_membership up others rounds 1 user.0.id org.id d)
  with_user org (failed, d) = (failed, d)
  with_user org (unfinished, d) = (unfinished, d)

  abbrev pub with_organization :
      BootstrapInput → Outcome Organization → AdminDb → Outcome BootstrapResult × AdminDb
  with_organization input (resolved org) d =
      with_user org (resolve_or_create_staff_user up input (others 0 false) (others 0 true) d)
  with_organization input failed d = (failed, d)
  with_organization input unfinished d = (unfinished, d)

  -- BootstrapPlatformAdmin
  unfoldable pub bootstrap_platform_admin :
      BootstrapInput → AdminDb → Outcome BootstrapResult × AdminDb
  bootstrap_platform_admin input d = with_organization input (resolve_organization up input d) d
