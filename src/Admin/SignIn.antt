-- ===== src/Admin/SignIn.antt =====
-- AuthenticateOIDC of internal/service/staffauth.go, with IssueStaffAccessToken of
-- internal/auth/tokens.go and UpdateProfile of staff_user_repository.go. The verifier of ID tokens
-- (Admin/Oidc, on the cache as it stands), the JWT library and the decimal print of an id are
-- parameters.
use promo_go.Base.{
  ℕ, ◌+◌, Bool, Option, none, some, List, [], ◌∷◌, Text, codes, ◌==◌, if◌then◌else◌, not,
}
use promo_go.Domain.Rbac.{StaffMembership, StaffUser}
use promo_go.Staff.Principal.{is_active_status, load_principal}
use promo_go.Admin.Handler.{AdminDb, AdminCall, audit_create}
use promo_go.Admin.Staff.{Insert, inserted, conflict, broken, find_by_subject, insert_user}
use promo_go.Admin.Oidc.{OidcClaims}
use promo_go.Admin.Gate.{AccessClaims, token_type_staff_access}

pub data SignIn : Type 0 where
  signed_in : Text → List StaffMembership → SignIn
  staff_disabled_error no_active_membership failed : SignIn

-- The calls of a sign-in that can fail, besides that of the audit log.
pub data SignInCall : Type 0 where
  read_user update_profile create_new read_again read_memberships : SignInCall

-- The points of a sign-in at which other requests act: before each statement but the first, and
-- before the clock is read for the token.
pub data Pause : Type 0 where
  before_update_profile before_create before_read_again before_memberships before_token : Pause
  before_audit : Pause

abbrev pub with_claims : OidcClaims → StaffUser → StaffUser
with_claims c u = record u { email = c.email; display_name = c.name }

-- UPDATE staff_users SET email = $2, display_name = $3 WHERE id = $1
unfoldable pub save_staff_profile : ℕ → OidcClaims → List StaffUser → List StaffUser
save_staff_profile id c [] = []
save_staff_profile id c (u ∷ us) =
    (if u.id == id then with_claims c u else u) ∷ save_staff_profile id c us

abbrev pub with_users : List StaffUser → AdminDb → AdminDb
with_users us d = record d { users = us }

module _ (up : SignInCall → Bool) (other : Pause → AdminDb → AdminDb) where
  -- A known user takes the profile of the claims, unless the update fails.
  abbrev pub refreshed : OidcClaims → StaffUser → AdminDb → Option StaffUser × AdminDb
  refreshed c u d =
      if up update_profile
      then (
        some (with_claims c u),
        (let e = other before_update_profile d in with_users (save_staff_profile u.id c e.users) e),
      )
      else (some u, other before_update_profile d)

  abbrev pub new_or_read_again :
      OidcClaims → Insert StaffUser × AdminDb → Option StaffUser × AdminDb
  new_or_read_again c (inserted u, d) = (some u, d)
  new_or_read_again c (broken, d) = (none, d)
  new_or_read_again c (conflict, d) =
      if up read_again
      then (find_by_subject c.subject (other before_read_again d).users, other before_read_again d)
      else (none, other before_read_again d)

  abbrev pub known_or_new : OidcClaims → Option StaffUser → AdminDb → Option StaffUser × AdminDb
  known_or_new c (some u) d = refreshed c u d
  known_or_new c none d =
      new_or_read_again c
        (insert_user (up create_new) c.subject c.email c.name (other before_create d))

  -- resolveOrCreateUser
  unfoldable pub resolve_or_create_user : OidcClaims → AdminDb → Option StaffUser × AdminDb
  resolve_or_create_user c d =
      if up read_user then known_or_new c (find_by_subject c.subject d.users) d else (none, d)

-- IssueStaffAccessToken; `sign` is the JWT library's signing of the claims with their end.
abbrev pub issue_staff_access_token :
    (ℕ → Text) → (AccessClaims → ℕ → Option Text) → ℕ → ℕ → ℕ → Option Text
issue_staff_access_token format_id sign now ttl id =
    sign (record { claim_type = token_type_staff_access; subject = format_id id }) (now + ttl)

module _ (verify_id_token : Text → Option OidcClaims) (format_id : ℕ → Text)
    (sign : AccessClaims → ℕ → Option Text) (ttl : ℕ) (up : SignInCall → Bool)
    (admin_up : AdminCall → Bool) (other : Pause → AdminDb → AdminDb) where
  abbrev pub with_token :
      StaffUser → Text → Text → List StaffMembership → Option Text → AdminDb → SignIn × AdminDb
  with_token u ip user_agent held none d = (failed, d)
  with_token u ip user_agent held (some token) d = (
    signed_in token held,
    (audit_create admin_up
        (record { staff_user_id = u.id; held = held; ip = ip; user_agent = user_agent })
        (codes "staff.login") none none [] none [] (other before_audit d)).1,
  )

  abbrev pub with_held : StaffUser → Text → Text → List StaffMembership → AdminDb → SignIn × AdminDb
  with_held u ip user_agent [] d = (no_active_membership, d)
  with_held u ip user_agent (m ∷ ms) d =
      let e = other before_token d in
      with_token u ip user_agent (m ∷ ms) (issue_staff_access_token format_id sign e.now ttl u.id) e

  unfoldable pub sign_in_as : Text → Text → Option StaffUser × AdminDb → SignIn × AdminDb
  sign_in_as ip user_agent (none, d) = (failed, d)
  sign_in_as ip user_agent (some u, d) =
      if not (is_active_status u.status)
      then (staff_disabled_error, d)
      else if up read_memberships
      then (let e = other before_memberships d in
          with_held u ip user_agent (load_principal u.id e.memberships) e)
      else (failed, other before_memberships d)

  -- AuthenticateOIDC
  unfoldable pub authenticate_oidc : Text → Text → Text → AdminDb → SignIn × AdminDb
  unfolding resolve_or_create_user sign_in_as
  authenticate_oidc raw_id_token ip user_agent d = elim (verify_id_token raw_id_token) [
    | none ↦ (failed, d)
    | some claims ↦ sign_in_as ip user_agent (resolve_or_create_user up other claims d)
  ]
