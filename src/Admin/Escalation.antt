-- ===== src/Admin/Escalation.antt =====
-- Proofs about Admin/Requests: rows that requests on memberships cannot reach.
use promo_go.Base.{
  ℕ, ◌≡◌, refl, Bool, true, false, Option, none, some, List, [], ◌∷◌, inl, inr, arith, Text, All,
  not, ◌==◌, Bool-cases, Option-cases, All-map, subst, sym, ◌∙◌,
}
use promo_go.Domain.Rbac.{Role, StaffStatus, StaffMembership, staff_manage}
use promo_go.Staff.Principal.{is_platform_admin, is_admin_role, load_principal}
use promo_go.Admin.Handler.{AdminDb, AdminCall, Caller, Handler, list_memberships}
use promo_go.Admin.Gate.{AccessClaims, Request, org_scope, require_staff, token_user, path_id}
use promo_go.Admin.GateLaws.{ActsAs, require_staff-Admitted}
use promo_go.Admin.Keeps.{
  Keeps, Keeps->>=, Keeps-require, Keeps-present, Keeps-gets, Keeps-run, Keeps-last_present,
}
use promo_go.Admin.Staff.{with_status, member_row}
use promo_go.Admin.Rows.{select, Below, Steady}
use promo_go.Admin.Members.{
  CreateMembershipBody, UpdateMembershipBody, handle_create_staff_membership,
  handle_update_staff_membership, handle_list_staff_memberships, may_grant, absent_or, valid_role,
  valid_status,
}
use promo_go.Admin.MembersKept.{Selected, Spares, target-Keeps}
use promo_go.Admin.MembersAdded.{add_member-Keeps}
use promo_go.Admin.Requests.{
  StaffRoute, list_staff, create_staff, update_staff, StaffCall, serve_route, serve, serve_all,
}
use promo_go.Admin.Strings.{trim_space}

module _ (up : AdminCall → Bool) (keep : StaffMembership → Bool) (rows : List StaffMembership) where
  pub list_staff-Keeps :
      (org : Text) (caller : Caller)
      → Keeps (Selected keep rows) (handle_list_staff_memberships up org caller)
  unfolding handle_list_staff_memberships
  list_staff-Keeps org caller = Keeps-present _ (path_id org) 400 _ λ org_id _.
      Keeps-require _ (up list_memberships) 500 _
        λ _. Keeps->>= _ _ _ (Keeps-gets _ _) λ bodies. Keeps-last_present _ 500 bodies

  pub create_staff-Keeps :
      (org_path : Text) (body : Option CreateMembershipBody) (caller : Caller)
      → ((now id user org : ℕ) (store : Option ℕ) (role : Role)
          → path_id org_path ≡ some org
          → may_grant caller role ≡ true
          → keep (member_row now id user org store role) ≡ false)
      → Keeps (Selected keep rows) (handle_create_staff_membership up org_path body caller)
  unfolding handle_create_staff_membership
  create_staff-Keeps org_path sent caller unkept =
      Keeps-present _ (path_id org_path) 400 _ λ org here. Keeps-present _ sent 400 _ λ body _.
        Keeps-require _ _ 400 _ λ _. Keeps-require _ _ 400 _ λ _.
          Keeps-present _ (valid_role body.role) 400 _ λ role _.
            add_member-Keeps up keep rows org (trim_space body.external_subject) body.store_id role
              caller (λ now id user. unkept now id user org body.store_id role here)

  pub update_staff-Keeps :
      (org_path id_path : Text) (body : Option UpdateMembershipBody) (caller : Caller)
      → ((now : ℕ) (s : StaffStatus) → Steady keep (with_status now s))
      → ((org : ℕ) → path_id org_path ≡ some org → Spares keep org caller)
      → Keeps (Selected keep rows) (handle_update_staff_membership up org_path id_path body caller)
  unfolding handle_update_staff_membership
  update_staff-Keeps org_path id_path sent caller steady spares =
      Keeps-present _ (path_id org_path) 400 _ λ org here.
        Keeps-present _ (path_id id_path) 400 _ λ id _. Keeps-present _ sent 400 _ λ body _.
          Keeps-require _ _ 400 _ λ _.
            Keeps-present _ (absent_or valid_role body.role) 400 _ λ role _.
              Keeps-present _ (absent_or valid_status body.status) 400 _ λ status _.
                Keeps-require _ _ 500 _
                  λ _. target-Keeps up keep rows steady org id role status caller (spares org here)

pub some-injective : (a b : ℕ) → some a ≡ some b → a ≡ b
some-injective a b e = ground arith

abbrev pub is_admin_row : StaffMembership → Bool
is_admin_row m = is_admin_role m.role

abbrev pub is_own_row : Caller → StaffMembership → Bool
is_own_row caller m = m.staff_user_id == caller.staff_user_id

abbrev pub is_foreign_row : ℕ → StaffMembership → Bool
is_foreign_row org m = not (m.organization_id == org)

pub admin_Spares :
    (org : ℕ) (caller : Caller)
    → is_platform_admin caller.held ≡ false
    → Spares is_admin_row org caller
admin_Spares org caller plain target none (_, _, allowed) =
    (ground arith, λ now r e m. ground arith)
admin_Spares org caller plain target (some role) (_, _, allowed) =
    (ground arith, λ now r e m. (refl, ground arith))

pub own_Spares : (org : ℕ) (caller : Caller) → Spares (is_own_row caller) org caller
own_Spares org caller target role (_, other, _) =
    (ground arith, λ now r e m. (refl, ground (arith, Bool-cases (is_own_row caller m))))

pub foreign_Spares : (org : ℕ) (caller : Caller) → Spares (is_foreign_row org) org caller
foreign_Spares org caller target role (here, _, _) =
    (ground arith, λ now r e m. (refl, ground (arith, Bool-cases (is_foreign_row org m))))

pub is_platform_admin-select :
    (user : ℕ) (ms : List StaffMembership)
    → is_platform_admin (load_principal user (select is_admin_row ms))
      ≡ is_platform_admin (load_principal user ms)
unfolding is_platform_admin load_principal select
is_platform_admin-select user [] = refl
is_platform_admin-select user (m ∷ ms) = ground (arith, is_platform_admin-select user ms)

module _ (jwt_parse : Text → Option AccessClaims) where
  pub require_staff-Keeps :
      {A : Type 0} (P : AdminDb → Type 0) (up : AdminCall → Bool) (r : Request)
      → (next : Caller → Handler A) (d : AdminDb)
      → ((caller : Caller) → ActsAs jwt_parse r d caller → Keeps P (next caller))
      → P d
      → P (require_staff jwt_parse up staff_manage org_scope r next d).1
  require_staff-Keeps P up r next d keeps p =
      elim (require_staff-Admitted jwt_parse up staff_manage org_scope r next d) [
        | inl (caller, scope, acts, _, _, runs) ↦
            subst (λ out. P out.1) (sym runs) (Keeps-run P (next caller) d (keeps caller acts) p)
        | inr (status, stays) ↦ subst (λ out. P out.1) (sym stays) p
      ]

  -- Whether the request's token is of a user that is a platform admin.
  unfoldable pub acts_as_admin : Request → List StaffMembership → Bool
  acts_as_admin r ms = elim (token_user jwt_parse r) [
    | none ↦ false
    | some user ↦ is_platform_admin (load_principal user ms)
  ]

  pub acts_as_admin-select :
      (r : Request) (ms : List StaffMembership)
      → acts_as_admin r (select is_admin_row ms) ≡ acts_as_admin r ms
  unfolding acts_as_admin
  acts_as_admin-select r ms = elim (Option-cases (token_user jwt_parse r)) [
    | inl none' ↦ ground arith
    | inr (user, e) ↦ ground (arith, is_platform_admin-select user ms)
  ]

  pub ActsAs-plain :
      (r : Request) (d : AdminDb) (caller : Caller)
      → acts_as_admin r d.memberships ≡ false
      → ActsAs jwt_parse r d caller
      → is_platform_admin caller.held ≡ false
  unfolding acts_as_admin
  ActsAs-plain r d caller plain (user, _, held) = ground arith

  pub serve_route-Selected :
      (up : AdminCall → Bool) (r : Request) (route : StaffRoute) (d : AdminDb)
      → (rows : List StaffMembership) → acts_as_admin r d.memberships ≡ false
      → Selected is_admin_row rows d
      → Selected is_admin_row rows (serve_route jwt_parse up r route d)
  unfolding serve_route
  serve_route-Selected up r list_staff d rows plain =
      require_staff-Keeps _ up r _ d
        λ caller acts. list_staff-Keeps up is_admin_row rows r.org_id caller
  serve_route-Selected up r (create_staff body) d rows plain =
      require_staff-Keeps _ up r _ d λ caller acts.
        let no_admin = ActsAs-plain r d caller plain acts in
        create_staff-Keeps up is_admin_row rows r.org_id body caller
          (λ now id user org store role _ may. ground arith)
  serve_route-Selected up r (update_staff id body) d rows plain =
      require_staff-Keeps _ up r _ d λ caller acts.
        update_staff-Keeps up is_admin_row rows r.org_id id body caller
          (λ now s m. (refl, ground (arith, Bool-cases (is_admin_row m))))
          (λ org _. admin_Spares org caller (ActsAs-plain r d caller plain acts))

  pub serve_all-Selected :
      (cs : List StaffCall) (d : AdminDb) (rows : List StaffMembership)
      → All (λ c. acts_as_admin c.request rows ≡ false) cs
      → Selected is_admin_row rows d
      → Selected is_admin_row rows (serve_all jwt_parse cs d)
  unfolding serve_all
  serve_all-Selected [] d rows _ p = p
  serve_all-Selected (c ∷ cs) d rows (plain, rest) p =
      let plain_now : acts_as_admin c.request d.memberships ≡ false =
        ground (arith, acts_as_admin-select c.request d.memberships, p.0) in
      serve_all-Selected cs (serve jwt_parse c d) rows rest
        (serve_route-Selected c.up c.request c.route (record d { now = c.at }) rows plain_now p)

  pub All-acts_as_admin :
      (cs : List StaffCall) (ms : List StaffMembership)
      → All (λ c. acts_as_admin c.request ms ≡ false) cs
      → All (λ c. acts_as_admin c.request (select is_admin_row ms) ≡ false) cs
  All-acts_as_admin cs ms = All-map cs (λ c h. acts_as_admin-select c.request ms ∙ h)

  -- Requests by users who are not platform admins at the start, in any number and with any failing
  -- calls, change no row with the role of platform admin, when ids fall from the newest row on.
  pub serve_all_admins :
      (cs : List StaffCall) (d : AdminDb)
      → Below d.next_id d.memberships
      → All (λ c. acts_as_admin c.request d.memberships ≡ false) cs
      → select is_admin_row (serve_all jwt_parse cs d).memberships
        ≡ select is_admin_row d.memberships
  serve_all_admins cs d below plain =
      (serve_all-Selected cs d (select is_admin_row d.memberships)
        (All-acts_as_admin cs d.memberships plain) (refl, below)).0

module _ (up : AdminCall → Bool) where
  -- An update of a membership leaves alone every row of the caller and every row of another
  -- organization than the path's, when ids fall from the newest row on.
  pub update_staff_own :
      (org_path id_path : Text) (org : ℕ) (body : Option UpdateMembershipBody) (caller : Caller)
      → (d : AdminDb) → Below d.next_id d.memberships
      → path_id org_path ≡ some org
      → let e = (handle_update_staff_membership up org_path id_path body caller d).1 in
        (select (is_own_row caller) e.memberships ≡ select (is_own_row caller) d.memberships)
        × (select (is_foreign_row org) e.memberships ≡ select (is_foreign_row org) d.memberships)
  update_staff_own org_path id_path org body caller d below here = (
    (Keeps-run _ _ d
        (update_staff-Keeps up (is_own_row caller) (select (is_own_row caller) d.memberships)
          org_path id_path body caller
          (λ now s m. (refl, ground (arith, Bool-cases (is_own_row caller m))))
          (λ o _. own_Spares o caller))
        (refl, below)).0,
    (Keeps-run _ _ d
        (update_staff-Keeps up (is_foreign_row org) (select (is_foreign_row org) d.memberships)
          org_path id_path body caller
          (λ now s m. (refl, ground (arith, Bool-cases (is_foreign_row org m))))
          (λ o e.
            subst (λ x. Spares (is_foreign_row x) o caller) (some-injective o org (sym e ∙ here))
              (foreign_Spares o caller)))
        (refl, below)).0,
  )
