-- ===== src/Admin/BootstrapLaws.antt =====
-- Proofs about Admin/Bootstrap: its recursion ends, and what it leaves.
use promo_go.Base.{
  ℕ, zero, suc, ◌≡◌, refl, Bool, true, false, Option, none, some, List, [], ◌∷◌, ◌&&◌, ◌==◌, arith,
  Bool-cases, inl, inr, subst,
}
use promo_go.Domain.Rbac.{Role, platform_admin, StaffMembership, StaffUser}
use promo_go.Staff.Principal.{is_admin_role}
use promo_go.Admin.Handler.{AdminDb, AdminCall, create_membership, list_memberships}
use promo_go.Admin.Staff.{
  has_membership, list_by_staff_user, Insert, inserted, conflict, broken, insert_membership,
  insert_user, find_by_subject,
}
use promo_go.Admin.Bootstrap.{
  Outcome, resolved, failed, unfinished, ended, Found, find_org_wide, is_org_wide, promote,
  after_create, promote_or_insert, resolve_or_create_membership, BootstrapInput, BootstrapResult,
  bootstrap_platform_admin, resolve_or_create_staff_user, resolve_organization, with_organization,
  bootstrapped, user_found, with_user, rounds,
}
use promo_go.Domain.{Organization}

-- Other runs delete no membership for a whole organization.
abbrev pub KeepsMemberships : (AdminDb → AdminDb) → Type 0
KeepsMemberships other =
    (user org : ℕ) (d : AdminDb)
    → has_membership user org none d.memberships ≡ true
    → has_membership user org none (other d).memberships ≡ true

pub has_membership-find_org_wide :
    (user org : ℕ) (ms : List StaffMembership)
    → has_membership user org none ms ≡ true
    → (m : StaffMembership) × (find_org_wide org (list_by_staff_user user ms) ≡ some m)
unfolding has_membership find_org_wide list_by_staff_user
has_membership-find_org_wide user org [] h = absurd (ground arith)
has_membership-find_org_wide user org (m ∷ ms) h =
    elim (Bool-cases (has_membership user org none ms)) [
      | inl more ↦
          let (n, e) = has_membership-find_org_wide user org ms more in
          elim (Bool-cases
            ((m.staff_user_id == user) && is_org_wide org m.organization_id m.store_id)) [
              | inl here ↦ (m, ground arith)
              | inr other ↦ (n, ground arith)
            ]
      | inr no_more ↦ (m, ground arith)
    ]

pub insert_membership_conflict :
    (up : Bool) (user org : ℕ) (store : Option ℕ) (role : Role) (d e : AdminDb)
    → insert_membership up user org store role d ≡ (conflict, e)
    → (has_membership user org store d.memberships ≡ true) × (d ≡ e)
unfolding insert_membership
insert_membership_conflict up user org store role d e h = ground arith

pub after_create-ended :
    (again : AdminDb → Found) (r : Insert StaffMembership × AdminDb)
    → ((e : AdminDb) → r ≡ (conflict, e) → ended (again e).0 ≡ true)
    → ended (after_create again r).0 ≡ true
after_create-ended again (inserted m, d) h = refl
after_create-ended again (broken, d) h = refl
after_create-ended again (conflict, d) h = h d refl

module _ (up : AdminCall → Bool) (others : ℕ → Bool → AdminDb → AdminDb) where
  pub promote-ended :
      (round : ℕ) (m : StaffMembership) (d : AdminDb) → ended (promote up others round m d).0 ≡ true
  promote-ended round m d = ground arith

  -- A round that finds the membership ends.
  pub resolve-found :
      (fuel round user org : ℕ) (d : AdminDb)
      → has_membership user org none d.memberships ≡ true
      → ended (resolve_or_create_membership up others (suc fuel) round user org d).0 ≡ true
  unfolding resolve_or_create_membership
  resolve-found fuel round user org d h =
      let (m, e) = has_membership-find_org_wide user org d.memberships h in
      ground (arith, promote-ended round m d)

  pub promote_or_insert-ended :
      (again : AdminDb → Found) (round user org : ℕ) (found : Option StaffMembership) (d : AdminDb)
      → ((e : AdminDb)
          → has_membership user org none e.memberships ≡ true
          → ended (again e).0 ≡ true)
      → ended (promote_or_insert up others again round user org found d).0 ≡ true
  promote_or_insert-ended again round user org (some m) d h = promote-ended round m d
  promote_or_insert-ended again round user org none d h = after_create-ended again _ λ e c.
      let (there, same) =
        insert_membership_conflict (up create_membership) user org none platform_admin
          (others round false d) e c in
      h e (subst (λ x. has_membership user org none x.memberships ≡ true) same there)

  pub resolve_or_create_membership-ended :
      (fuel round user org : ℕ) (d : AdminDb)
      → ((n : ℕ) (b : Bool) → KeepsMemberships (others n b))
      → ended (resolve_or_create_membership up others (suc (suc fuel)) round user org d).0 ≡ true
  unfolding resolve_or_create_membership
  resolve_or_create_membership-ended fuel round user org d keeps =
      elim (Bool-cases (up list_memberships)) [
        | inr down ↦ ground arith
        | inl works ↦
            let last =
              promote_or_insert-ended
                (λ e.
                  resolve_or_create_membership up others (suc fuel) (suc round) user org
                    (others round true e))
                round user org (find_org_wide org (list_by_staff_user user d.memberships)) d
                (λ e h.
                  resolve-found fuel (suc round) user org (others round true e)
                    (keeps round true user org e h)) in
            ground arith
      ]

-- The grant that was asked for: an administrator's membership of the user in the whole organization.
abbrev pub Granted : ℕ → ℕ → StaffMembership → Type 0
Granted user org m =
    (m.staff_user_id ≡ user)
    × (m.organization_id ≡ org)
    × (m.store_id ≡ none)
    × (m.role ≡ platform_admin)

abbrev pub GrantedIn : ℕ → ℕ → Found → Type 0
GrantedIn user org (resolved (m, created), d) = Granted user org m
GrantedIn user org (failed, d) = Unit
GrantedIn user org (unfinished, d) = Unit

pub eq_of_is_admin_role : (r : Role) → is_admin_role r ≡ true → r ≡ platform_admin
eq_of_is_admin_role r h = ground arith

pub org_wide_store :
    (org held : ℕ) (store : Option ℕ) → is_org_wide org held store ≡ true → store ≡ none
org_wide_store org held store h = ground arith

pub find_org_wide-list :
    (user org : ℕ) (ms : List StaffMembership) (m : StaffMembership)
    → find_org_wide org (list_by_staff_user user ms) ≡ some m
    → (m.staff_user_id ≡ user) × (m.organization_id ≡ org) × (m.store_id ≡ none)
unfolding find_org_wide list_by_staff_user
find_org_wide-list user org [] m h = absurd (ground arith)
find_org_wide-list user org (x ∷ ms) m h =
    elim (Bool-cases ((x.staff_user_id == user) && is_org_wide org x.organization_id x.store_id)) [
      | inr other ↦ find_org_wide-list user org ms m (ground arith)
      | inl here ↦
          let e : x ≡ m = ground arith in
          subst (λ y. (y.staff_user_id ≡ user) × (y.organization_id ≡ org) × (y.store_id ≡ none)) e
            (
              ground arith,
              ground arith,
              org_wide_store org x.organization_id x.store_id (ground arith),
            )
    ]

module _ (up : AdminCall → Bool) (others : ℕ → Bool → AdminDb → AdminDb) where
  pub promote-Granted :
      (round user org : ℕ) (m : StaffMembership) (d : AdminDb)
      → (m.staff_user_id ≡ user) × (m.organization_id ≡ org) × (m.store_id ≡ none)
      → GrantedIn user org (promote up others round m d)
  promote-Granted round user org m d (u, o, s) = elim (Bool-cases (is_admin_role m.role)) [
    | inl admin ↦ ground (arith, eq_of_is_admin_role m.role admin)
    | inr lesser ↦ ground arith
  ]

  pub after_create-Granted :
      (again : AdminDb → Found) (works : Bool) (user org : ℕ) (d : AdminDb)
      → ((e : AdminDb) → GrantedIn user org (again e))
      → GrantedIn user org
          (after_create again (insert_membership works user org none platform_admin d))
  unfolding insert_membership
  after_create-Granted again works user org d h = ground (arith, h d)

  pub promote_or_insert-Granted :
      (again : AdminDb → Found) (round user org : ℕ) (found : Option StaffMembership) (d : AdminDb)
      → find_org_wide org (list_by_staff_user user d.memberships) ≡ found
      → ((e : AdminDb) → GrantedIn user org (again e))
      → GrantedIn user org (promote_or_insert up others again round user org found d)
  promote_or_insert-Granted again round user org (some m) d e h =
      promote-Granted round user org m d (find_org_wide-list user org d.memberships m e)
  promote_or_insert-Granted again round user org none d e h =
      after_create-Granted again (up create_membership) user org (others round false d) h

  pub resolve-Granted :
      (fuel round user org : ℕ) (d : AdminDb)
      → GrantedIn user org (resolve_or_create_membership up others fuel round user org d)
  unfolding resolve_or_create_membership
  resolve-Granted zero round user org d = tt
  resolve-Granted (suc fuel) round user org d = elim (Bool-cases (up list_memberships)) [
    | inr down ↦ ground arith
    | inl works ↦
        let last =
          promote_or_insert-Granted
            (λ e.
              resolve_or_create_membership up others fuel (suc round) user org
                (others round true e))
            round user org (find_org_wide org (list_by_staff_user user d.memberships)) d refl
            (λ e. resolve-Granted fuel (suc round) user org (others round true e)) in
        ground arith
  ]

-- A whole run that ends, with the grant when it ends with a result.
abbrev pub Bootstrapped : Outcome BootstrapResult × AdminDb → Type 0
Bootstrapped (resolved r, d) = Granted r.staff_user.id r.organization.id r.membership
Bootstrapped (failed, d) = Unit
Bootstrapped (unfinished, d) = ⊥

pub bootstrapped-Granted :
    (o : Organization) (user : StaffUser × Bool) (found : Found)
    → ended found.0 ≡ true
    → GrantedIn user.0.id o.id found
    → Bootstrapped (bootstrapped o user found)
bootstrapped-Granted o user (resolved (m, created), d) e g = g
bootstrapped-Granted o user (failed, d) e g = tt
bootstrapped-Granted o user (unfinished, d) e g = absurd (ground arith)

module _ (up : AdminCall → Bool) (others : ℕ → Bool → AdminDb → AdminDb) where
  pub with_user-Bootstrapped :
      (o : Organization) (r : Outcome (StaffUser × Bool) × AdminDb)
      → ended r.0 ≡ true
      → ((n : ℕ) (b : Bool) → KeepsMemberships (others n b))
      → Bootstrapped (with_user up others o r)
  with_user-Bootstrapped o (resolved user, d) e keeps =
      bootstrapped-Granted o user (resolve_or_create_membership up others rounds 1 user.0.id o.id d)
        (resolve_or_create_membership-ended up others 0 1 user.0.id o.id d keeps)
        (resolve-Granted up others rounds 1 user.0.id o.id d)
  with_user-Bootstrapped o (failed, d) e keeps = tt
  with_user-Bootstrapped o (unfinished, d) e keeps = absurd (ground arith)

  pub user_found-ended :
      (input : BootstrapInput) (other1 other2 : AdminDb → AdminDb) (found : Option StaffUser)
      (d : AdminDb)
      → ended (user_found up input other1 other2 found d).0 ≡ true
  unfolding insert_user
  user_found-ended input other1 other2 (some u) d = refl
  user_found-ended input other1 other2 none d = ground arith

  pub resolve_user-ended :
      (input : BootstrapInput) (other1 other2 : AdminDb → AdminDb) (d : AdminDb)
      → ended (resolve_or_create_staff_user up input other1 other2 d).0 ≡ true
  unfolding resolve_or_create_staff_user
  resolve_user-ended input other1 other2 d =
      ground (arith, user_found-ended input other1 other2 (find_by_subject input.subject d.users) d)

  pub resolve_organization-ended :
      (input : BootstrapInput) (d : AdminDb) → ended (resolve_organization up input d) ≡ true
  unfolding resolve_organization
  resolve_organization-ended input d = ground arith

  pub with_organization-Bootstrapped :
      (input : BootstrapInput) (found : Outcome Organization) (d : AdminDb)
      → ended found ≡ true
      → ((n : ℕ) (b : Bool) → KeepsMemberships (others n b))
      → Bootstrapped (with_organization up others input found d)
  with_organization-Bootstrapped input (resolved o) d e keeps =
      with_user-Bootstrapped o
        (resolve_or_create_staff_user up input (others 0 false) (others 0 true) d)
        (resolve_user-ended input (others 0 false) (others 0 true) d) keeps
  with_organization-Bootstrapped input failed d e keeps = tt
  with_organization-Bootstrapped input unfinished d e keeps = absurd (ground arith)

  -- A run of the bootstrap ends in two rounds of its recursion, and when it ends with a result that
  -- is a platform admin's membership of the user in the whole organization, whatever calls fail, as
  -- long as what other runs do in between deletes no membership for a whole organization.
  pub bootstrap-Bootstrapped :
      (input : BootstrapInput) (d : AdminDb)
      → ((n : ℕ) (b : Bool) → KeepsMemberships (others n b))
      → Bootstrapped (bootstrap_platform_admin up others input d)
  unfolding bootstrap_platform_admin
  bootstrap-Bootstrapped input d keeps =
      with_organization-Bootstrapped input (resolve_organization up input d) d
        (resolve_organization-ended input d) keeps
