-- ===== src/Staff/Principal.antt =====
-- `StaffPrincipal` and `StaffAuthService.ResolvePrincipal`. A principal is its memberships.
use promo_go.Base.{
  ℕ, Bool, true, false, Option, none, some, List, [], ◌∷◌, not, ◌&&◌, ◌||◌, ◌==◌, if◌then◌else◌,
}
use promo_go.Domain.Rbac.{
  Role, platform_admin, retailer_admin, store_manager, support_viewer, Permission, grants,
  StaffStatus, staff_active, staff_disabled, StaffMembership, StaffUser,
}

abbrev pub is_active_status : StaffStatus → Bool
is_active_status staff_active = true
is_active_status staff_disabled = false

abbrev pub is_admin_role : Role → Bool
is_admin_role platform_admin = true
is_admin_role retailer_admin = false
is_admin_role store_manager = false
is_admin_role support_viewer = false

abbrev pub is_viewer_role : Role → Bool
is_viewer_role support_viewer = true
is_viewer_role platform_admin = false
is_viewer_role retailer_admin = false
is_viewer_role store_manager = false

unfoldable pub is_platform_admin : List StaffMembership → Bool
is_platform_admin [] = false
is_platform_admin (m ∷ ms) =
    (is_admin_role m.role && is_active_status m.status) || is_platform_admin ms

-- Whether a membership's store lets it act for the wanted one.
abbrev pub covers : Option ℕ → Option ℕ → Bool
covers none none = true
covers none (some held) = false
covers (some wanted) none = true
covers (some wanted) (some held) = held == wanted

unfoldable pub granted_by : Permission → ℕ → Option ℕ → List StaffMembership → Bool
granted_by perm org store [] = false
granted_by perm org store (m ∷ ms) =
    if not (m.organization_id == org) || not (grants m.role perm)
    then granted_by perm org store ms
    else covers store m.store_id || granted_by perm org store ms

unfoldable pub has_permission : Permission → ℕ → Option ℕ → List StaffMembership → Bool
unfolding is_platform_admin granted_by
has_permission perm org store ms =
    (is_platform_admin ms && grants platform_admin perm) || granted_by perm org store ms

-- The memberships that IsSupportViewerOnly skips.
abbrev pub other_store : Option ℕ → Option ℕ → Bool
other_store (some wanted) (some held) = not (held == wanted)
other_store _ _ = false

-- The loop, with `matched`.
unfoldable pub viewer_loop : ℕ → Option ℕ → Bool → List StaffMembership → Bool
viewer_loop org store matched [] = matched
viewer_loop org store matched (m ∷ ms) =
    if not (m.organization_id == org) || other_store store m.store_id
    then viewer_loop org store matched ms
    else if is_viewer_role m.role
    then viewer_loop org store true ms
    else false

unfoldable pub is_support_viewer_only : ℕ → Option ℕ → List StaffMembership → Bool
unfolding is_platform_admin viewer_loop
is_support_viewer_only org store ms =
    if is_platform_admin ms then false else viewer_loop org store false ms

unfoldable pub load_principal : ℕ → List StaffMembership → List StaffMembership
load_principal user [] = []
load_principal user (m ∷ ms) =
    if (m.staff_user_id == user) && is_active_status m.status
    then m ∷ load_principal user ms
    else load_principal user ms

unfoldable pub find_user : ℕ → List StaffUser → Option StaffUser
find_user id [] = none
find_user id (u ∷ us) = if u.id == id then some u else find_user id us

pub data Resolution : Type 0 where
  principal : List StaffMembership → Resolution
  staff_not_found disabled unreadable : Resolution

-- `reads` tells of each of the two queries whether it runs.
unfoldable pub resolve_principal :
    Bool × Bool → ℕ → List StaffUser → List StaffMembership → Resolution
unfolding load_principal
resolve_principal (user_read, list_read) id users ms = elim user_read [
  | false ↦ unreadable
  | true ↦ elim (find_user id users) [
    | none ↦ staff_not_found
    | some u ↦
        (if is_active_status u.status
          then (if list_read then principal (load_principal id ms) else unreadable)
          else disabled)
  ]
]
