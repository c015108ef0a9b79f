-- ===== src/Staff/Scope.antt =====
-- Where a principal's permissions reach.
use promo_go.Base.{
  ℕ, ◌≡◌, ◌≢◌, refl, Bool, true, false, Option, none, some, List, [], ◌∷◌, arith, All, Bool-cases,
  ◌⊎◌, inl, inr,
}
use promo_go.Domain.Rbac.{
  Role, platform_admin, support_viewer, retailer_admin, store_manager, Permission, grants,
  StaffMembership,
}
use promo_go.Staff.Principal.{
  is_platform_admin, covers, granted_by, has_permission, is_support_viewer_only, viewer_loop,
  other_store, is_viewer_role,
}

pub granted_by-organization :
    (perm : Permission) (org s : ℕ) (ms : List StaffMembership)
    → granted_by perm org none ms ≡ true
    → granted_by perm org (some s) ms ≡ true
unfolding granted_by
granted_by-organization perm org s [] h = h
granted_by-organization perm org s (m ∷ ms) h = elim (Bool-cases (granted_by perm org none ms)) [
  | inl more ↦ ground (arith, granted_by-organization perm org s ms more)
  | inr none' ↦ ground arith
]

-- A membership that reaches nothing here: of another organization, of another store than the wanted
-- one, or of one store where the organization as a whole is wanted.
abbrev pub OtherStore : Option ℕ → Option ℕ → Type 0
OtherStore none none = ⊥
OtherStore none (some held) = Unit
OtherStore (some wanted) none = ⊥
OtherStore (some wanted) (some held) = held ≢ wanted

abbrev pub Elsewhere : ℕ → Option ℕ → StaffMembership → Type 0
Elsewhere org store m = (m.organization_id ≢ org) ⊎ OtherStore store m.store_id

pub covers-OtherStore : (store held : Option ℕ) → OtherStore store held → covers store held ≡ false
covers-OtherStore none none h = absurd h
covers-OtherStore none (some held) h = refl
covers-OtherStore (some wanted) none h = absurd h
covers-OtherStore (some wanted) (some held) h = ground arith

pub granted_by-Elsewhere :
    (perm : Permission) (org : ℕ) (store : Option ℕ) (ms : List StaffMembership)
    → All (Elsewhere org store) ms
    → granted_by perm org store ms ≡ false
unfolding granted_by
granted_by-Elsewhere perm org store [] _ = refl
granted_by-Elsewhere perm org store (m ∷ ms) (inl other, rest) =
    ground (arith, granted_by-Elsewhere perm org store ms rest)
granted_by-Elsewhere perm org store (m ∷ ms) (inr other, rest) =
    ground
      (arith, covers-OtherStore store m.store_id other, granted_by-Elsewhere perm org store ms rest)

-- Only a platform admin acts outside the organizations and stores of its memberships.
pub has_permission-Elsewhere :
    (perm : Permission) (org : ℕ) (store : Option ℕ) (ms : List StaffMembership)
    → All (Elsewhere org store) ms
    → has_permission perm org store ms ≡ true
    → is_platform_admin ms ≡ true
unfolding has_permission
has_permission-Elsewhere perm org store ms else' h =
    ground (arith, granted_by-Elsewhere perm org store ms else')

pub grants-viewer :
    (perm : Permission) (r : Role)
    → is_viewer_role r ≡ true
    → grants support_viewer perm ≡ false
    → grants r perm ≡ false
grants-viewer perm support_viewer _ h = h
grants-viewer perm platform_admin bad _ = absurd (ground arith)
grants-viewer perm retailer_admin bad _ = absurd (ground arith)
grants-viewer perm store_manager bad _ = absurd (ground arith)

pub covers-other :
    (store held : Option ℕ) → other_store store held ≡ true → covers store held ≡ false
covers-other none held h = absurd (ground arith)
covers-other (some w) none h = absurd (ground arith)
covers-other (some w) (some v) h = ground arith

pub viewer_loop-granted_by :
    (perm : Permission) (org : ℕ) (store : Option ℕ) (matched : Bool) (ms : List StaffMembership)
    → grants support_viewer perm ≡ false
    → viewer_loop org store matched ms ≡ true
    → granted_by perm org store ms ≡ false
unfolding viewer_loop granted_by
viewer_loop-granted_by perm org store matched [] denied h = refl
viewer_loop-granted_by perm org store matched (m ∷ ms) denied h = ground (
  arith,
  viewer_loop-granted_by perm org store matched ms denied,
  viewer_loop-granted_by perm org store true ms denied,
  grants-viewer perm m.role,
  covers-other store m.store_id,
)

-- A principal whose client data is masked has none of the permissions that a viewer's role lacks.
pub is_support_viewer_only-has_permission :
    (perm : Permission) (org : ℕ) (store : Option ℕ) (ms : List StaffMembership)
    → is_support_viewer_only org store ms ≡ true
    → grants support_viewer perm ≡ false
    → has_permission perm org store ms ≡ false
unfolding is_support_viewer_only has_permission
is_support_viewer_only-has_permission perm org store ms only denied =
    ground (arith, viewer_loop-granted_by perm org store false ms denied)

-- A permission held in an organization as a whole is held in each of its stores.
pub has_permission_every_store :
    (perm : Permission) (org s : ℕ) (ms : List StaffMembership)
    → has_permission perm org none ms ≡ true
    → has_permission perm org (some s) ms ≡ true
unfolding has_permission
has_permission_every_store perm org s ms h = ground (arith, granted_by-organization perm org s ms)
