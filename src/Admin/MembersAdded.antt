-- ===== src/Admin/MembersAdded.antt =====
-- Proofs about Admin/Members: the rows that a new membership and a whole request leave alone.
use promo_go.Base.{ℕ, ◌≡◌, Bool, true, false, Option, none, some, List, arith, Text, ◌==◌}
use promo_go.Domain.Rbac.{Role, StaffMembership, StaffUser}
use promo_go.Admin.Handler.{AdminDb, AdminCall, Caller, pure, find_subject}
use promo_go.Admin.Keeps.{
  Keeps, Keeps->>=, Keeps-require, Keeps-present, Keeps-gets, Keeps-audit_create, Keeps-pure,
  Keeps-last_require,
}
use promo_go.Admin.Staff.{insert_membership, insert_user, member_row, find_by_subject}
use promo_go.Loyalty.Queries.{find_store}
use promo_go.Admin.Rows.{select, Below-suc}
use promo_go.Admin.Members.{
  may_grant, check_store, user_or_create, resolve_user, create_for, add_member,
}
use promo_go.Admin.MembersKept.{Selected, insert_event-Selected}

module _ (up : AdminCall → Bool) (keep : StaffMembership → Bool) (rows : List StaffMembership) where
  pub check_store-Keeps :
      (P : AdminDb → Type 0) (org : ℕ) (store : Option ℕ) → Keeps P (check_store up org store)
  unfolding check_store
  check_store-Keeps P org none = Keeps-pure P tt
  check_store-Keeps P org (some id) = Keeps-require P _ 500 _ λ _.
      Keeps->>= P _ _ (Keeps-gets P (λ d. find_store id d.stores)) λ found.
        Keeps-present P found 400 _
          (λ store _. Keeps-last_require P (store.organization_id == org) 400)

  pub user_or_create-Keeps :
      (subject : Text) (found : Option StaffUser)
      → Keeps (Selected keep rows) (user_or_create up subject found)
  unfolding Keeps insert_user pure
  user_or_create-Keeps subject (some u) d p = p
  user_or_create-Keeps subject none d p = ground (arith, Below-suc d.next_id d.memberships p.1)

  pub resolve_user-Keeps : (subject : Text) → Keeps (Selected keep rows) (resolve_user up subject)
  unfolding resolve_user
  resolve_user-Keeps subject = Keeps-require _ (up find_subject) 500 _ λ _.
      Keeps->>= _ _ _ (Keeps-gets _ (λ d. find_by_subject subject d.users))
        λ found. user_or_create-Keeps subject found

  pub create_for-Keeps :
      (user org : ℕ) (store : Option ℕ) (role : Role)
      → ((now id : ℕ) → keep (member_row now id user org store role) ≡ false)
      → Keeps (Selected keep rows) (create_for up user org store role)
  unfolding Keeps create_for insert_membership select
  create_for-Keeps user org store role unkept d p =
      ground (arith, Below-suc d.next_id d.memberships p.1, unkept d.now d.next_id)

  pub add_member-Keeps :
      (org : ℕ) (subject : Text) (store : Option ℕ) (role : Role) (caller : Caller)
      → ((now id user : ℕ)
          → may_grant caller role ≡ true
          → keep (member_row now id user org store role) ≡ false)
      → Keeps (Selected keep rows) (add_member up org subject store role caller)
  unfolding add_member
  add_member-Keeps org subject store role caller unkept =
      Keeps-require _ (may_grant caller role) 403 _ λ may.
        Keeps->>= _ _ _ (check_store-Keeps (Selected keep rows) org store) λ _.
          Keeps->>= _ _ _ (resolve_user-Keeps subject) λ user.
            Keeps->>= _ _ _
              (create_for-Keeps user.id org store role (λ now id. unkept now id user.id may))
              λ m.
                Keeps->>= _ _ _
                  (Keeps-audit_create _ up caller _ _ _ _ _ _ (insert_event-Selected keep rows))
                  λ _. Keeps-pure _ _
