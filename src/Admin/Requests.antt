-- ===== src/Admin/Requests.antt =====
-- Requests as internal/httpserver/routes.go takes them: to Admin/Members, each behind RequireStaff, and
-- those to Admin/Stores that write, by callers whom the middleware has let through.
use promo_go.Base.{ℕ, Bool, Option, List, [], ◌∷◌, Text}
use promo_go.Domain.Rbac.{staff_manage}
use promo_go.Admin.Stores.{
  StoreProfileBody, handle_create_organization, handle_create_store, handle_update_store,
}
use promo_go.Admin.Handler.{AdminDb, AdminCall, Caller}
use promo_go.Admin.Gate.{AccessClaims, Request, org_scope, require_staff}
use promo_go.Admin.Members.{
  CreateMembershipBody, UpdateMembershipBody, handle_list_staff_memberships,
  handle_create_staff_membership, handle_update_staff_membership,
}

pub data StaffRoute : Type 0 where
  list_staff : StaffRoute
  create_staff : Option CreateMembershipBody → StaffRoute
  update_staff : Text → Option UpdateMembershipBody → StaffRoute

-- A request, when it comes, and which of its calls work.
pub record StaffCall : Type 0 where
  pub request : Request
  pub route : StaffRoute
  pub at : ℕ
  pub up : AdminCall → Bool

module _ (jwt_parse : Text → Option AccessClaims) where
  unfoldable pub serve_route : (AdminCall → Bool) → Request → StaffRoute → AdminDb → AdminDb
  serve_route up r list_staff d =
      (require_staff jwt_parse up staff_manage org_scope r
        (handle_list_staff_memberships up r.org_id) d).1
  serve_route up r (create_staff body) d =
      (require_staff jwt_parse up staff_manage org_scope r
        (handle_create_staff_membership up r.org_id body) d).1
  serve_route up r (update_staff id body) d =
      (require_staff jwt_parse up staff_manage org_scope r
        (handle_update_staff_membership up r.org_id id body) d).1

  abbrev pub serve : StaffCall → AdminDb → AdminDb
  serve c d = serve_route c.up c.request c.route (record d { now = c.at })

  unfoldable pub serve_all : List StaffCall → AdminDb → AdminDb
  serve_all [] d = d
  serve_all (c ∷ cs) d = serve_all cs (serve c d)

-- The requests on organizations and stores that write.
pub data StoreRequest : Type 0 where
  create_organization_request : Option Text → StoreRequest
  create_store_request : Text → Option StoreProfileBody → StoreRequest
  update_store_request : Text → Text → Option StoreProfileBody → StoreRequest

-- A request, its caller, and which of its calls work.
pub record StoreCall : Type 0 where
  pub request : StoreRequest
  pub caller : Caller
  pub up : AdminCall → Bool

unfoldable pub run_store_request : (AdminCall → Bool) → Caller → StoreRequest → AdminDb → AdminDb
run_store_request up caller (create_organization_request name) d =
    (handle_create_organization up name caller d).1
run_store_request up caller (create_store_request org body) d =
    (handle_create_store up org body caller d).1
run_store_request up caller (update_store_request org id body) d =
    (handle_update_store up org id body caller d).1

unfoldable pub run_store_requests : List StoreCall → AdminDb → AdminDb
run_store_requests [] d = d
run_store_requests (c ∷ cs) d = run_store_requests cs (run_store_request c.up c.caller c.request d)
