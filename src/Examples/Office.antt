-- ===== src/Examples/Office.antt =====
-- A small office: two organizations, a store, a platform admin and a retailer's admin; and the
-- theorems on staff and on the bootstrap at work on it.
use promo_go.Base.{
  ℕ, Bool, true, false, Option, none, some, List, [], ◌∷◌, Text, codes, refl, arith, ◌≡◌, text_eq,
  All, ◌≢◌,
}
use promo_go.Domain.Rbac.{
  Role, platform_admin, retailer_admin, StaffMembership, StaffUser, staff_active, staff_manage,
}
use promo_go.Admin.Handler.{AdminDb, AdminCall, Caller}
use promo_go.Admin.Gate.{
  AccessClaims, Request, org_scope, trim_prefix, token_user, parse_access_token, parse_int,
  digits_value,
}
use promo_go.Admin.GateLaws.{Admitted, require_staff-Admitted}
use promo_go.Admin.Rows.{select}
use promo_go.Admin.Members.{handle_list_staff_memberships, handle_update_staff_membership}
use promo_go.Admin.Requests.{
  StaffCall, create_staff, update_staff, serve_all, StoreCall, create_store_request,
  run_store_requests, update_store_request,
}
use promo_go.Admin.Escalation.{
  is_admin_row, is_own_row, is_foreign_row, serve_all_admins, update_staff_own, acts_as_admin,
}
use promo_go.Admin.Bootstrap.{BootstrapInput, bootstrap_platform_admin}
use promo_go.Admin.BootstrapLaws.{Bootstrapped, bootstrap-Bootstrapped}
use promo_go.Staff.Principal.{is_platform_admin, load_principal}
use promo_go.Admin.Stores.{StoreProfileBody}
use promo_go.Admin.StoreCodes.{StoresOk}
use promo_go.Admin.StoreProfiles.{ProfileOk}
use promo_go.Admin.StoreRows.{stores_in}
use promo_go.Admin.StoresOwn.{run_store_requests_kept}
use promo_go.Admin.Strings.{normalize_name, trim_space, trim_left, trim_right, is_space}
use promo_go.Admin.Gate.{path_id}

abbrev pub works : AdminCall → Bool
works _ = true

-- Tokens that are their user's id.
abbrev pub open_tokens : Text → Option AccessClaims
open_tokens raw = some (record { claim_type = codes "staff_access"; subject = raw })

abbrev user : ℕ → Text → StaffUser
user id subject = record {
  id = id;
  external_subject = subject;
  email = [];
  display_name = [];
  status = staff_active;
  created_at = 0;
}

abbrev row : ℕ → ℕ → ℕ → Role → StaffMembership
row id user_id org role = record {
  id = id;
  staff_user_id = user_id;
  organization_id = org;
  store_id = none;
  role = role;
  status = staff_active;
  created_at = 0;
  updated_at = 0;
}

abbrev pub office : AdminDb
office = record {
  organizations =
      record { id = 1; name = codes "North"; created_at = 0 }
      ∷ record { id = 2; name = codes "South"; created_at = 0 }
      ∷ [];
  stores =
      record {
        id = 5;
        organization_id = 1;
        name = codes "Shop";
        address = [];
        external_code = none;
        sms_invite_enabled = false;
        api_key_hash = [];
      }
      ∷ [];
  api_keys = [];
  users = user 3 (codes "root") ∷ user 2 (codes "boss") ∷ [];
  memberships = row 8 3 1 platform_admin ∷ row 7 2 1 retailer_admin ∷ [];
  audit = [];
  next_id = 10;
  now = 100;
}

abbrev pub boss_request : Request
boss_request = record {
  authorization = codes "Bearer 2";
  org_id = codes "1";
  store_id = codes "5";
  ip = codes "10.0.0.1";
  user_agent = codes "test";
}

abbrev pub boss : Caller
boss = record {
  staff_user_id = 2;
  held = row 7 2 1 retailer_admin ∷ [];
  ip = codes "10.0.0.1";
  user_agent = codes "test";
}

-- The boss tries to become a platform admin, to disable the one there is, and hires a manager.
abbrev attempts : List StaffCall
attempts =
    record {
      request = boss_request;
      route = create_staff (
          some (record {
            external_subject = codes "boss";
            store_id = none;
            role = codes "platform_admin";
          }));
      at = 101;
      up = works;
    }
    ∷ record {
      request = boss_request;
      route = update_staff (codes "8") (some (record { role = []; status = codes "disabled" }));
      at = 102;
      up = works;
    }
    ∷ record {
      request = boss_request;
      route = create_staff (
          some (record {
            external_subject = codes " new ";
            store_id = some 5;
            role = codes "store_manager";
          }));
      at = 103;
      up = works;
    }
    ∷ []

require_staff-Admitted_example :
    Admitted open_tokens works staff_manage org_scope boss_request
      (handle_list_staff_memberships works (codes "1"))
      office
require_staff-Admitted_example =
    require_staff-Admitted open_tokens works staff_manage org_scope boss_request
      (handle_list_staff_memberships works (codes "1")) office

serve_all_admins_example :
    select is_admin_row (serve_all open_tokens attempts office).memberships
    ≡ select is_admin_row office.memberships
unfolding acts_as_admin token_user text_eq trim_prefix parse_access_token parse_int
    is_platform_admin load_principal
serve_all_admins_example =
    serve_all_admins open_tokens attempts office (omega arith, (omega arith, tt))
      (refl, (refl, (refl, tt)))

update_staff_own_example :
    let e =
      (handle_update_staff_membership works
        (codes "1")
        (codes "8")
        (some (record { role = []; status = codes "disabled" }))
        boss
        office).1 in
    (select (is_own_row boss) e.memberships ≡ select (is_own_row boss) office.memberships)
    × (select (is_foreign_row 1) e.memberships ≡ select (is_foreign_row 1) office.memberships)
unfolding parse_int text_eq
update_staff_own_example =
    update_staff_own works (codes "1") (codes "8") 1
      (some (record { role = []; status = codes "disabled" })) boss office
      (omega arith, (omega arith, tt)) refl

abbrev ivan : BootstrapInput
ivan = record {
  subject = codes "ivan";
  email = [];
  display_name = codes "Ivan";
  org_name = codes "North";
  org_id = 0;
}

-- Nobody else is at work.
abbrev alone : ℕ → Bool → AdminDb → AdminDb
alone n b d = d

bootstrap-Bootstrapped_example : Bootstrapped (bootstrap_platform_admin works alone ivan office)
bootstrap-Bootstrapped_example =
    bootstrap-Bootstrapped works alone ivan office (λ n b user org d h. h)

abbrev shop_body : Text → StoreProfileBody
shop_body code = record {
  name = some (codes " Kiosk ");
  address = none;
  external_code = some code;
  sms_invite_enabled = none;
}

-- The second kiosk takes the first one's code, and then the shop does.
abbrev kiosks : List StoreCall
kiosks =
    record {
      request = create_store_request (codes "1") (some (shop_body (codes "K1")));
      caller = boss;
      up = works;
    }
    ∷ record {
      request = create_store_request (codes "1") (some (shop_body (codes " K1")));
      caller = boss;
      up = works;
    }
    ∷ record {
      request = update_store_request (codes "1") (codes "5") (some (shop_body (codes "K1")));
      caller = boss;
      up = works;
    }
    ∷ []

-- A shop of the other organization, whose id the last request tries.
abbrev two_shops : AdminDb
two_shops = record office {
  stores =
      record {
        id = 6;
        organization_id = 2;
        name = codes "Far";
        address = [];
        external_code = some (codes "F");
        sms_invite_enabled = false;
        api_key_hash = [];
      }
      ∷ office.stores;
}

abbrev more_kiosks : List StoreCall
more_kiosks =
    record {
      request = update_store_request (codes "1") (codes "6") (some (shop_body (codes "K2")));
      caller = boss;
      up = works;
    }
    ∷ kiosks

not_two : path_id (codes "1") ≢ some 2
unfolding parse_int digits_value
not_two h = ground arith

run_store_requests_kept_example :
    let e = run_store_requests more_kiosks two_shops in
    StoresOk e × All ProfileOk e.stores × (stores_in 2 e.stores ≡ stores_in 2 two_shops.stores)
unfolding parse_int digits_value normalize_name trim_space trim_left trim_right is_space text_eq
run_store_requests_kept_example =
    run_store_requests_kept more_kiosks 2 two_shops (not_two, (not_two, (not_two, (not_two, tt))))
      ((((refl, refl), tt), (tt, tt)), (omega arith, (omega arith, tt)))
      (
        ((codes "Far", refl), omega arith, (λ h. absurd (ground arith), omega arith)),
        (((codes "Shop", refl), omega arith, tt), tt),
      )
