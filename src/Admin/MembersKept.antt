-- ===== src/Admin/MembersKept.antt =====
-- Proofs about Admin/Members: the rows of staff_memberships that its handlers leave alone.
use promo_go.Base.{
  ℕ, ◌≡◌, refl, Bool, true, false, Option, none, some, List, inl, inr, arith, not, ◌||◌, ◌==◌, ◌∙◌,
  Option-cases,
}
use promo_go.Domain.Rbac.{Role, StaffStatus, StaffMembership}
use promo_go.Staff.Principal.{is_platform_admin, is_admin_role}
use promo_go.Admin.Handler.{
  AdminDb, AdminCall, Caller, pure, ◌>>=◌, present, change_role, change_status, insert_event,
  refuse,
}
use promo_go.Admin.Keeps.{
  Keeps, Keeps->>=, Keeps-require, Keeps-modify, Keeps-audit_create, require_leads, Keeps-pure,
  Keeps-run,
}
use promo_go.Admin.Staff.{amend, find_membership, with_role, with_status, set_role, set_status}
use promo_go.Admin.Rows.{
  select, Below, Off, Steady, Below-suc, find_membership-Off, amend-Below, amend-Off, select-amend,
}
use promo_go.Admin.Members.{update_role, update_status, change_member, grants_admin, find_target}
use promo_go.Domain.{AuditEvent}

-- The selected rows are `rows`, and ids are below the counter.
abbrev pub Selected : (StaffMembership → Bool) → List StaffMembership → AdminDb → Type 0
Selected keep rows d = (select keep d.memberships ≡ rows) × Below d.next_id d.memberships

-- Moreover no selected row has the id.
abbrev pub SelectedOff : (StaffMembership → Bool) → ℕ → List StaffMembership → AdminDb → Type 0
SelectedOff keep id rows d = Selected keep rows d × Off keep id d.memberships

module _ (keep : StaffMembership → Bool) (rows : List StaffMembership) where
  pub insert_event-Selected :
      (event : AdminDb → AuditEvent) (d : AdminDb)
      → Selected keep rows d
      → Selected keep rows (insert_event event d)
  insert_event-Selected event d (s, b) = (s, Below-suc d.next_id d.memberships b)

  module _ (id : ℕ) where
    pub amend-SelectedOff :
        (f : StaffMembership → StaffMembership)
        → Steady keep f
        → (d : AdminDb) → SelectedOff keep id rows d
        → SelectedOff keep id rows (record d { memberships = amend id f d.memberships })
    amend-SelectedOff f steady d ((s, b), off) = (
      (
        select-amend keep id f steady d.memberships off ∙ s,
        amend-Below keep id f steady d.next_id d.memberships b,
      ),
      amend-Off keep id f steady d.memberships off,
    )

    pub insert_event-SelectedOff :
        (event : AdminDb → AuditEvent) (d : AdminDb)
        → SelectedOff keep id rows d
        → SelectedOff keep id rows (insert_event event d)
    insert_event-SelectedOff event d (s, off) = (insert_event-Selected event d s, off)

    module _ (up : AdminCall → Bool) (caller : Caller) (org : ℕ) (target : StaffMembership) where
      pub update_role-Keeps :
          (role : Option Role)
          → ((now : ℕ) (r : Role) → role ≡ some r → Steady keep (with_role now r))
          → Keeps (SelectedOff keep id rows) (update_role up org id target role caller)
      unfolding update_role
      update_role-Keeps none steady = Keeps-pure _ tt
      update_role-Keeps (some role) steady = Keeps-require _ (up change_role) 500 _ (λ _.
          Keeps->>= _ _ _
            (Keeps-modify _ (set_role id role)
              (λ e. amend-SelectedOff (with_role e.now role) (steady e.now role refl) e))
            λ _. Keeps-audit_create _ up caller _ _ _ _ _ _ insert_event-SelectedOff)

      pub update_status-Keeps :
          (status : Option StaffStatus)
          → ((now : ℕ) (s : StaffStatus) → Steady keep (with_status now s))
          → Keeps (SelectedOff keep id rows) (update_status up org id target status caller)
      unfolding update_status
      update_status-Keeps none steady = Keeps-pure _ tt
      update_status-Keeps (some status) steady = Keeps-require _ (up change_status) 500 _ (λ _.
          Keeps->>= _ _ _
            (Keeps-modify _ (set_status id status)
              (λ e. amend-SelectedOff (with_status e.now status) (steady e.now status) e))
            λ _. Keeps-audit_create _ up caller _ _ _ _ _ _ insert_event-SelectedOff)

-- The checks that a change of a membership passes.
abbrev pub Permitted : ℕ → Option Role → StaffMembership → Caller → Type 0
Permitted org role target caller =
    ((target.organization_id == org) ≡ true)
    × (not (caller.staff_user_id == target.staff_user_id) ≡ true)
    × ((not (grants_admin role || is_admin_role target.role) || is_platform_admin caller.held)
        ≡ true)

-- What a permitted change leaves alone.
abbrev pub Spares : (StaffMembership → Bool) → ℕ → Caller → Type 0
Spares keep org caller =
    (target : StaffMembership) (role : Option Role)
    → Permitted org role target caller
    → (keep target ≡ false) × ((now : ℕ) (r : Role) → role ≡ some r → Steady keep (with_role now r))

module _ (up : AdminCall → Bool) (keep : StaffMembership → Bool) (rows : List StaffMembership)
    (steady : (now : ℕ) (s : StaffStatus) → Steady keep (with_status now s)) where
  pub change_member-Selected :
      (org id : ℕ) (role : Option Role) (status : Option StaffStatus) (target : StaffMembership)
      → (caller : Caller) → Spares keep org caller
      → (d : AdminDb) → find_membership id d.memberships ≡ some target
      → Selected keep rows d
      → Selected keep rows (change_member up org id role status target caller d).1
  unfolding change_member
  change_member-Selected org id role status target caller spares d found =
      require_leads (Selected keep rows) (Selected keep rows) _ 404 _ d (λ p. p)
        λ here.
          require_leads (Selected keep rows) (Selected keep rows) _ 400 _ d (λ p. p)
            λ other.
              require_leads (Selected keep rows) (Selected keep rows) _ 403 _ d (λ p. p)
                λ allowed p.
                  let (off, steady_role) = spares target role (here, other, allowed) in
                  (Keeps-run (SelectedOff keep id rows) _ d
                    (Keeps->>= _ (update_role up org id target role caller) _
                      (update_role-Keeps keep rows id up caller org target role steady_role)
                      (λ _. update_status-Keeps keep rows id up caller org target status steady))
                    (p, find_membership-Off keep d.next_id id d.memberships target p.1 found off)).0

  pub target-Keeps :
      (org id : ℕ) (role : Option Role) (status : Option StaffStatus) (caller : Caller)
      → Spares keep org caller
      → Keeps
          (Selected keep rows)
          (find_target id >>= λ target. change_member up org id role status target caller)
  unfolding Keeps ◌>>=◌ present pure refuse
  target-Keeps org id role status caller spares d p =
      elim (Option-cases (find_membership id d.memberships)) [
        | inl none' ↦ ground arith
        | inr (target, e) ↦
            ground (arith, change_member-Selected org id role status target caller spares d e p)
      ]
