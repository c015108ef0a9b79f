-- ===== src/Admin/GateLaws.antt =====
-- Proofs about Admin/Gate: whom the middleware lets through.
use promo_go.Base.{
  ℕ, ◌≡◌, Bool, true, Option, some, List, ◌⊎◌, inl, inr, arith, Text, Bool-cases, Option-cases,
  subst,
}
use promo_go.Domain.Rbac.{Permission, StaffMembership, StaffUser}
use promo_go.Staff.Principal.{
  resolve_principal, has_permission, load_principal, find_user, is_active_status,
}
use promo_go.Admin.Handler.{
  AdminDb, AdminCall, load_user, list_memberships, refused, Caller, Handler, pure, refuse, gets,
  ◌>>=◌, require, present,
}
use promo_go.Admin.Gate.{
  AccessClaims, Request, Scope, scope_from_path, principal_of, token_user, caller_of, identify,
  require_staff,
}

abbrev pub IsActive : ℕ → List StaffUser → Type 0
IsActive id users =
    (user : StaffUser) × (find_user id users ≡ some user) × (is_active_status user.status ≡ true)

-- The token's user is there, active and holds these memberships now.
abbrev pub ActsAs : (Text → Option AccessClaims) → Request → AdminDb → Caller → Type 0
ActsAs jwt_parse r d caller =
    (token_user jwt_parse r ≡ some caller.staff_user_id)
    × IsActive caller.staff_user_id d.users
    × (caller.held ≡ load_principal caller.staff_user_id d.memberships)

pub resolve_principal-IsActive :
    (reads : Bool × Bool) (id : ℕ) (users : List StaffUser) (ms held : List StaffMembership)
    → principal_of (resolve_principal reads id users ms) ≡ some held
    → IsActive id users × (held ≡ load_principal id ms)
unfolding resolve_principal
resolve_principal-IsActive (user_read, list_read) id users ms held h =
    elim (Option-cases (find_user id users)) [
      | inl none' ↦ absurd (ground arith)
      | inr (user, e) ↦ ((user, e, ground arith), ground arith)
    ]

pub identify-ActsAs :
    (jwt_parse : Text → Option AccessClaims) (up : AdminCall → Bool)
    → (r : Request) (d : AdminDb) (caller : Caller) → identify jwt_parse up r d ≡ some caller
    → ActsAs jwt_parse r d caller
unfolding identify
identify-ActsAs jwt_parse up r d caller h = elim (Option-cases (token_user jwt_parse r)) [
  | inl none' ↦ absurd (ground arith)
  | inr (u, e) ↦
      elim (Option-cases (
        principal_of
          (resolve_principal (up load_user, up list_memberships) u d.users d.memberships))) [
            | inl none' ↦ absurd (ground arith)
            | inr (held, f) ↦
                let same : caller_of r u held ≡ caller = ground arith in
                subst (λ c. ActsAs jwt_parse r d c) same
                  (let (is_in, held_now) =
                      resolve_principal-IsActive (up load_user, up list_memberships) u d.users
                        d.memberships held f in
                    (e, is_in, held_now))
          ]
]

module _ (jwt_parse : Text → Option AccessClaims) (up : AdminCall → Bool) where
  -- Either the caller is in and the handler runs, or the tables stay as they are.
  abbrev pub Admitted :
      {A : Type 0} → Permission → Scope → Request → (Caller → Handler A) → AdminDb → Type 0
  Admitted perm kind r next d =
      ((caller : Caller) × (scope : ℕ × Option ℕ) × ActsAs jwt_parse r d caller
        × (scope_from_path kind r ≡ some scope)
        × (has_permission perm scope.0 scope.1 (load_principal caller.staff_user_id d.memberships)
            ≡ true)
        × (require_staff jwt_parse up perm kind r next d ≡ next caller d))
      ⊎ ((status : ℕ) × (require_staff jwt_parse up perm kind r next d ≡ (refused status, d)))

  pub require_staff-Admitted :
      {A : Type 0} (perm : Permission) (kind : Scope) (r : Request) (next : Caller → Handler A)
      (d : AdminDb)
      → Admitted perm kind r next d
  unfolding require_staff ◌>>=◌ gets present require pure refuse
  require_staff-Admitted perm kind r next d = elim (Option-cases (identify jwt_parse up r d)) [
    | inl none' ↦ inr (401, ground arith)
    | inr (caller, e) ↦ elim (Option-cases (scope_from_path kind r)) [
      | inl none' ↦ inr (400, ground arith)
      | inr (scope, f) ↦ elim (Bool-cases (has_permission perm scope.0 scope.1 caller.held)) [
        | inl yes' ↦ inl (
          caller,
          scope,
          identify-ActsAs jwt_parse up r d caller e,
          f,
          ground (arith, identify-ActsAs jwt_parse up r d caller e),
          ground arith,
        )
        | inr no' ↦ inr (403, ground arith)
      ]
    ]
  ]
