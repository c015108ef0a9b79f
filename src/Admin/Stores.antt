-- ===== src/Admin/Stores.antt =====
-- internal/httpserver/admin_organizations.go and admin_staff_me.go, store_repository.go and
-- organization_repository.go, with the unique index on (organization_id, external_code).
use promo_go.Base.{
  ℕ, suc, Bool, true, false, Option, none, some, List, [], ◌∷◌, ◌++◌, Text, text_eq, codes, ltb,
  not, ◌&&◌, ◌||◌, ◌==◌, if◌then◌else◌, length,
}
use promo_go.Domain.{Store, Organization, Meta, meta_text, meta_flag}
use promo_go.Domain.Rbac.{Permission, StaffMembership, StaffUser, role_permissions}
use promo_go.Staff.Principal.{is_platform_admin, find_user}
use promo_go.Loyalty.Queries.{find_store}
use promo_go.Admin.Handler.{
  AdminDb, AdminCall, load_user, create_organization, create_store, save_store, list_stores,
  list_organizations, Reply, done, refused, Caller, Handler, pure, gets, modify, ◌>>=◌, ◌>>◌,
  require, present, audit_create,
}
use promo_go.Admin.Gate.{path_id}
use promo_go.Admin.Staff.{Insert, inserted, conflict, broken, find_organization, is_some}
use promo_go.Admin.Strings.{trim_space, normalize_name}
use promo_go.Admin.Keys.{resolve_scoped_store}

abbrev pub max_address_length : ℕ
max_address_length = 500

abbrev pub max_external_code_length : ℕ
max_external_code_length = 64

-- A field left out of the body is none.
pub record StoreProfileBody : Type 0 where
  pub name : Option Text
  pub address : Option Text
  pub external_code : Option Text
  pub sms_invite_enabled : Option Bool

abbrev pub named : Store → Option Text → Option Store
named s none = none
named s (some name) = some (record s { name = name })

unfoldable pub apply_name : Option Text → Store → Option Store
apply_name none s = some s
apply_name (some raw) s = named s (normalize_name raw)

unfoldable pub apply_address : Option Text → Store → Option Store
apply_address none s = some s
apply_address (some raw) s =
    if ltb max_address_length (length (trim_space raw))
    then none
    else some (record s { address = trim_space raw })

abbrev pub code_or_none : Text → Option Text
code_or_none [] = none
code_or_none (c ∷ s) = some (c ∷ s)

unfoldable pub apply_external_code : Option Text → Store → Option Store
apply_external_code none s = some s
apply_external_code (some raw) s =
    if ltb max_external_code_length (length (trim_space raw))
    then none
    else some (record s { external_code = code_or_none (trim_space raw) })

abbrev pub apply_sms : Option Bool → Store → Store
apply_sms none s = s
apply_sms (some b) s = record s { sms_invite_enabled = b }

abbrev pub then_apply : (Store → Option Store) → Option Store → Option Store
then_apply f none = none
then_apply f (some s) = f s

-- applyTo; none where it returns a message.
unfoldable pub apply_to : StoreProfileBody → Store → Option Store
apply_to b s =
    then_apply (λ t. some (apply_sms b.sms_invite_enabled t))
      (then_apply (apply_external_code b.external_code)
        (then_apply (apply_address b.address) (apply_name b.name s)))

abbrev pub same_code : Option Text → Option Text → Bool
same_code (some a) (some b) = text_eq a b
same_code _ _ = false

abbrev pub clashes : Store → Store → Bool
clashes s t = (s.organization_id == t.organization_id) && same_code s.external_code t.external_code

-- Whether the index holds the store's code for another row.
unfoldable pub code_taken : Store → List Store → Bool
code_taken s [] = false
code_taken s (t ∷ ts) = (not (s.id == t.id) && clashes s t) || code_taken s ts

abbrev pub add_store : Store → AdminDb → AdminDb
add_store s d = record d { stores = s ∷ d.stores; next_id = suc d.next_id }

abbrev pub add_organization : Organization → AdminDb → AdminDb
add_organization o d = record d { organizations = o ∷ d.organizations; next_id = suc d.next_id }

-- StoreRepository.Create; the organization must exist.
unfoldable pub insert_store : Bool → Store → AdminDb → Insert Store × AdminDb
insert_store works draft d =
    let s = record draft { id = d.next_id } in
    elim works [
      | false ↦ (broken, d)
      | true ↦
          (if code_taken s d.stores
            then (conflict, d)
            else if not (is_some (find_organization s.organization_id d.organizations))
            then (broken, d)
            else (inserted s, add_store s d))
    ]

abbrev pub with_profile : Store → Store → Store
with_profile s t = record t {
  name = s.name;
  address = s.address;
  external_code = s.external_code;
  sms_invite_enabled = s.sms_invite_enabled;
}

-- UPDATE stores SET name = $2, address = $3, external_code = $4, sms_invite_enabled = $5 WHERE id = $1
unfoldable pub save_profile : Store → List Store → List Store
save_profile s [] = []
save_profile s (t ∷ ts) = (if t.id == s.id then with_profile s t else t) ∷ save_profile s ts

-- ListByOrganization and ListAll, in the order of ids.
unfoldable pub stores_of : ℕ → List Store → List Store
stores_of org [] = []
stores_of org (s ∷ ss) =
    let rest = stores_of org ss in if s.organization_id == org then rest ++ s ∷ [] else rest

unfoldable pub in_id_order : List Organization → List Organization
in_id_order [] = []
in_id_order (o ∷ os) = in_id_order os ++ o ∷ []

unfoldable pub holds_organization : ℕ → List StaffMembership → Bool
holds_organization org [] = false
holds_organization org (m ∷ ms) = (m.organization_id == org) || holds_organization org ms

-- ListByIDs, for the organizations of the memberships.
unfoldable pub organizations_of : List StaffMembership → List Organization → List Organization
organizations_of ms [] = []
organizations_of ms (o ∷ os) =
    let rest = organizations_of ms os in if holds_organization o.id ms then rest ++ o ∷ [] else rest

-- orgWide of handleListStores, from a membership without a store.
unfoldable pub org_wide : ℕ → List StaffMembership → Bool
org_wide org [] = false
org_wide org (m ∷ ms) = ((m.organization_id == org) && not (is_some m.store_id)) || org_wide org ms

abbrev pub is_store : ℕ → Option ℕ → Bool
is_store id none = false
is_store id (some s) = s == id

-- allowedStoreIDs
unfoldable pub allowed_store : ℕ → ℕ → List StaffMembership → Bool
allowed_store org id [] = false
allowed_store org id (m ∷ ms) =
    ((m.organization_id == org) && is_store id m.store_id) || allowed_store org id ms

unfoldable pub visible_stores : Bool → ℕ → List StaffMembership → List Store → List Store
visible_stores wide org ms [] = []
visible_stores wide org ms (s ∷ ss) =
    let rest = visible_stores wide org ms ss in
    if not wide && not (allowed_store org s.id ms) then rest else s ∷ rest

abbrev pub created_store : Insert Store × AdminDb → Reply Store × AdminDb
created_store (inserted s, d) = (done s, d)
created_store (conflict, d) = (refused 409, d)
created_store (broken, d) = (refused 500, d)

abbrev pub new_store : ℕ → Store
new_store org = record {
  id = 0;
  organization_id = org;
  name = [];
  address = [];
  external_code = none;
  sms_invite_enabled = false;
  api_key_hash = [];
}

abbrev pub updated_metadata : Store → Option Bool → List (Text × Meta)
updated_metadata s none = (codes "name", meta_text s.name) ∷ []
updated_metadata s (some _) =
    (codes "name", meta_text s.name)
    ∷ (codes "sms_invite_enabled", meta_flag s.sms_invite_enabled)
    ∷ []

-- A membership with the permissions of its role.
pub record StaffMeMembership : Type 0 where
  pub membership : StaffMembership
  pub permissions : List Permission

unfoldable pub with_permissions : List StaffMembership → List StaffMeMembership
with_permissions [] = []
with_permissions (m ∷ ms) =
    record { membership = m; permissions = role_permissions m.role } ∷ with_permissions ms

module _ (up : AdminCall → Bool) where
  unfoldable pub save_organization : Text → Handler Organization
  unfolding ◌>>=◌
  save_organization name = do
    require (up create_organization) 500
    org ← gets (λ d. record { id = d.next_id; name = name; created_at = d.now })
    modify (add_organization org)
    pure org

  -- handleCreateOrganization, on the body's name.
  unfoldable pub handle_create_organization : Option Text → Caller → Handler Organization
  unfolding ◌>>=◌
  handle_create_organization sent caller = do
    raw ← present 400 sent
    name ← present 400 (normalize_name raw)
    org ← save_organization name
    audit_create up caller (codes "organization.created") (some org.id) none (codes "organization")
        (some org.id) ((codes "name", meta_text org.name) ∷ [])
    pure org

  unfoldable pub store_created : Store → Handler Store
  store_created draft d = created_store (insert_store (up create_store) draft d)

  -- handleCreateStore
  unfoldable pub handle_create_store : Text → Option StoreProfileBody → Caller → Handler Store
  unfolding ◌>>=◌
  handle_create_store org_path sent caller = do
    org ← present 400 (path_id org_path)
    body ← present 400 sent
    require (is_some body.name) 400
    draft ← present 400 (apply_to body (new_store org))
    store ← store_created draft
    audit_create up caller (codes "store.created") (some org) (some store.id) (codes "store")
        (some store.id) ((codes "name", meta_text store.name) ∷ [])
    pure store

  -- UpdateProfile
  unfoldable pub update_profile : Store → Handler (Unit {0})
  unfolding ◌>>=◌
  update_profile s = do
    require (up save_store) 500
    found ← gets (λ d. find_store s.id d.stores)
    row ← present 404 found
    taken ← gets (λ d. code_taken (with_profile s row) d.stores)
    require (not taken) 409
    modify (λ d. record d { stores = save_profile s d.stores })

  -- handleUpdateStore
  unfoldable pub handle_update_store :
      Text → Text → Option StoreProfileBody → Caller → Handler Store
  unfolding ◌>>=◌
  handle_update_store org_path store_path sent caller = do
    scoped ← resolve_scoped_store up org_path store_path
    body ← present 400 sent
    store ← present 400 (apply_to body scoped.0)
    update_profile store
    audit_create up caller (codes "store.updated") (some scoped.1) (some store.id) (codes "store")
        (some store.id) (updated_metadata store body.sms_invite_enabled)
    pure store

  -- handleListStores
  unfoldable pub handle_list_stores : Text → Caller → Handler (List Store)
  unfolding ◌>>=◌
  handle_list_stores org_path caller = do
    org ← present 400 (path_id org_path)
    require (is_platform_admin caller.held || holds_organization org caller.held) 403
    require (up list_stores) 500
    gets (λ d.
        visible_stores (is_platform_admin caller.held || org_wide org caller.held) org caller.held
          (stores_of org d.stores))

  -- handleGetStore, which has the steps of resolveScopedStore.
  unfoldable pub handle_get_store : Text → Text → Caller → Handler Store
  unfolding ◌>>=◌
  handle_get_store org_path store_path caller = do
    scoped ← resolve_scoped_store up org_path store_path
    pure scoped.0

  abbrev pub no_memberships : List StaffMembership → Bool
  no_memberships [] = true
  no_memberships (_ ∷ _) = false

  -- handleListOrganizations; a list of no ids is not asked for.
  unfoldable pub handle_list_organizations : Caller → Handler (List Organization)
  unfolding ◌>>=◌
  handle_list_organizations caller = do
    require
        (up list_organizations
          || (not (is_platform_admin caller.held) && no_memberships caller.held))
        500
    gets (λ d.
        if is_platform_admin caller.held
        then in_id_order d.organizations
        else organizations_of caller.held d.organizations)

  -- handleGetStaffMe
  unfoldable pub handle_get_staff_me : Caller → Handler (StaffUser × List StaffMeMembership)
  unfolding ◌>>=◌
  handle_get_staff_me caller = do
    require (up load_user) 500
    found ← gets (λ d. find_user caller.staff_user_id d.users)
    user ← present 500 found
    pure (user, with_permissions caller.held)
