-- ===== src/Admin/Gate.antt =====
-- internal/httpserver/middleware_staff.go, parseAccessToken of internal/auth/tokens.go, and the
-- strconv.ParseInt and strings.TrimPrefix that they call. The JWT library is a parameter.
use promo_go.Base.{
  ℕ, ◌+◌, ◌-◌, ◌*◌, Bool, true, false, Option, none, some, List, [], ◌∷◌, Text, text_eq, codes, leb,
  ltb, ◌&&◌, ◌||◌, if◌then◌else◌, length, drop, take,
}
use promo_go.Base.Int.{ℤ, pos, negsuc, sub_ℕ, int64_bound}
use promo_go.Domain.Rbac.{Permission, grants, StaffMembership}
use promo_go.Staff.Principal.{
  Resolution, principal, staff_not_found, disabled, unreadable, resolve_principal, has_permission,
}
use promo_go.Admin.Handler.{
  AdminDb, AdminCall, load_user, list_memberships, Caller, Handler, gets, ◌>>=◌, ◌>>◌, require,
  present,
}

-- The value of decimal digits; none on any other character or none at all.
unfoldable pub digits_value : ℕ → Text → Option ℕ
digits_value n [] = some n
digits_value n (c ∷ s) =
    let rest = digits_value (n * 10 + (c - 48)) s in if leb 48 c && leb c 57 then rest else none

abbrev pub unsigned_value : Text → Option ℕ
unsigned_value [] = none
unsigned_value (c ∷ s) = digits_value 0 (c ∷ s)

abbrev pub int64_of : Bool → ℕ → Option ℤ
int64_of false n = if ltb n int64_bound then some (pos n) else none
int64_of true n = if leb n int64_bound then some (sub_ℕ 0 n) else none

abbrev pub signed_value : Bool → Option ℕ → Option ℤ
signed_value negative none = none
signed_value negative (some n) = int64_of negative n

-- strconv.ParseInt(s, 10, 64)
unfoldable pub parse_int : Text → Option ℤ
unfolding digits_value
parse_int [] = none
parse_int (c ∷ s) =
    if text_eq (c ∷ []) (codes "+")
    then signed_value false (unsigned_value s)
    else if text_eq (c ∷ []) (codes "-")
    then signed_value true (unsigned_value s)
    else signed_value false (unsigned_value (c ∷ s))

-- No row has a negative id, nor 0.
abbrev pub row_id : ℤ → ℕ
row_id (pos n) = n
row_id (negsuc n) = 0

abbrev pub path_id : Text → Option ℕ
path_id s = elim (parse_int s) [ none ↦ none | some z ↦ some (row_id z) ]

-- strings.TrimPrefix
unfoldable pub trim_prefix : Text → Text → Text
trim_prefix prefix s = if text_eq (take (length prefix) s) prefix then drop (length prefix) s else s

abbrev pub bearer : Text
bearer = codes "Bearer "

abbrev pub token_type_customer_access : Text
token_type_customer_access = codes "customer_access"

abbrev pub token_type_staff_access : Text
token_type_staff_access = codes "staff_access"

pub record AccessClaims : Type 0 where
  pub claim_type : Text
  pub subject : Text

-- `jwt_parse` is jwt.ParseWithClaims with the server's secret and HS256.
unfoldable pub parse_access_token : (Text → Option AccessClaims) → Text → Text → Option ℕ
parse_access_token jwt_parse want raw = elim (jwt_parse raw) [
  | none ↦ none
  | some claims ↦ (if text_eq claims.claim_type want then path_id claims.subject else none)
]

-- A request: the Authorization header, the path values, the address and the agent.
pub record Request : Type 0 where
  pub authorization : Text
  pub org_id : Text
  pub store_id : Text
  pub ip : Text
  pub user_agent : Text

-- What a permission is asked for.
pub data Scope : Type 0 where
  org_scope store_scope : Scope

-- orgScopeFromPath and storeScopeFromPath.
abbrev pub scope_from_path : Scope → Request → Option (ℕ × Option ℕ)
scope_from_path org_scope r = elim (path_id r.org_id) [ none ↦ none | some org ↦ some (org, none) ]
scope_from_path store_scope r = elim (path_id r.org_id) [
  | none ↦ none
  | some org ↦ elim (path_id r.store_id) [ none ↦ none | some s ↦ some (org, some s) ]
]

abbrev pub principal_of : Resolution → Option (List StaffMembership)
principal_of (principal held) = some held
principal_of staff_not_found = none
principal_of disabled = none
principal_of unreadable = none

-- The token's user, when there is a token and it is a valid one for staff.
unfoldable pub token_user : (Text → Option AccessClaims) → Request → Option ℕ
token_user jwt_parse r =
    let token = trim_prefix bearer r.authorization in
    if text_eq token [] then none else parse_access_token jwt_parse token_type_staff_access token

-- The loop of RequireGlobalStaffPermission.
unfoldable pub any_grants : Permission → List StaffMembership → Bool
any_grants perm [] = false
any_grants perm (m ∷ ms) = grants m.role perm || any_grants perm ms

abbrev pub caller_of : Request → ℕ → List StaffMembership → Caller
caller_of r id held = record {
  staff_user_id = id;
  held = held;
  ip = r.ip;
  user_agent = r.user_agent;
}

module _ (jwt_parse : Text → Option AccessClaims) (up : AdminCall → Bool) where
  unfoldable pub identify : Request → AdminDb → Option Caller
  identify r d = elim (token_user jwt_parse r) [
    | none ↦ none
    | some id ↦
        elim (principal_of
          (resolve_principal (up load_user, up list_memberships) id d.users d.memberships)) [
            | none ↦ none
            | some held ↦ some (caller_of r id held)
          ]
  ]

  -- RequireStaffIdentity
  unfoldable pub require_staff_identity : {A : Type 0} → Request → (Caller → Handler A) → Handler A
  unfolding ◌>>=◌
  require_staff_identity r next = do caller ← gets (identify r) >>= present 401; next caller

  -- RequireStaff
  unfoldable pub require_staff :
      {A : Type 0} → Permission → Scope → Request → (Caller → Handler A) → Handler A
  unfolding ◌>>=◌
  require_staff perm kind r next = do
    caller ← gets (identify r) >>= present 401
    scope ← present 400 (scope_from_path kind r)
    require (has_permission perm scope.0 scope.1 caller.held) 403
    next caller

  -- RequireGlobalStaffPermission
  unfoldable pub require_global_staff_permission :
      {A : Type 0} → Permission → Request → (Caller → Handler A) → Handler A
  unfolding ◌>>=◌
  require_global_staff_permission perm r next = do
    caller ← gets (identify r) >>= present 401
    require (any_grants perm caller.held) 403
    next caller
