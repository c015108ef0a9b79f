-- ===== src/Admin/Handler.antt =====
-- What the handlers of internal/httpserver/admin_*.go share: the tables, requests, answers and
-- audit_helper.go. A handler is a function of the tables; an error response is its status.
use promo_go.Base.{ℕ, suc, Bool, true, false, Option, none, some, List, ◌∷◌, Text}
use promo_go.Domain.{Store, Organization, AuditEvent, Meta, AuditActorType, staff_actor}
use promo_go.Domain.Rbac.{StaffMembership, StaffUser}
use promo_go.Domain.ApiKey.{ApiKey}

-- One counter gives the ids of all tables; `now` is the clock.
pub record AdminDb : Type 0 where
  pub organizations : List Organization
  pub stores : List Store
  pub api_keys : List ApiKey
  pub users : List StaffUser
  pub memberships : List StaffMembership
  pub audit : List AuditEvent
  pub next_id : ℕ
  pub now : ℕ

-- The calls of repositories and generators that can fail.
pub data AdminCall : Type 0 where
  list_memberships load_membership create_membership change_role change_status : AdminCall
  load_user find_subject create_user load_store create_store save_store list_stores : AdminCall
  load_organization create_organization list_organizations : AdminCall
  generate_key create_key list_keys revoke_key find_key touch_key find_legacy : AdminCall
  load_config save_config list_history write_audit : AdminCall

pub data Reply (A : Type 0) : Type 0 where
  done : A → Reply A
  refused : ℕ → Reply A

-- A request that has passed its middleware: path values as strconv.ParseInt gives them (0, which no
-- row has, for a negative id), and the authenticated caller.
pub record Caller : Type 0 where
  pub staff_user_id : ℕ
  pub held : List StaffMembership
  pub ip : Text
  pub user_agent : Text

abbrev pub Handler : Type 0 → Type 0
Handler A = AdminDb → Reply A × AdminDb

unfoldable pub pure : {A : Type 0} → A → Handler A
pure a d = (done a, d)

unfoldable pub refuse : {A : Type 0} → ℕ → Handler A
refuse status d = (refused status, d)

-- The rest of a handler after an answer of its first part.
abbrev pub resume : {A B : Type 0} → (A → Handler B) → Reply A → Handler B
resume f (done a) = f a
resume f (refused status) = refuse status

infixl 5 ◌>>=◌ ◌>>◌
unfoldable pub ◌>>=◌ : {A B : Type 0} → Handler A → (A → Handler B) → Handler B
m >>= f = λ d. resume f (m d).0 (m d).1

abbrev pub ◌>>◌ : {B : Type 0} → Handler (Unit {0}) → Handler B → Handler B
m >> k = m >>= λ _. k

unfoldable pub gets : {A : Type 0} → (AdminDb → A) → Handler A
gets f d = (done (f d), d)

unfoldable pub modify : (AdminDb → AdminDb) → Handler (Unit {0})
modify f d = (done tt, f d)

-- Go on if the test holds, else answer with the status.
unfoldable pub require : Bool → ℕ → Handler (Unit {0})
require true status = pure tt
require false status = refuse status

unfoldable pub present : {A : Type 0} → ℕ → Option A → Handler A
present status (some a) = pure a
present status none = refuse status

abbrev pub new_event :
    AuditActorType
    → Option ℕ
    → Text
    → Option ℕ
    → Option ℕ
    → Text
    → Option ℕ
    → List (Text × Meta)
    → Text
    → Text
    → AdminDb
    → AuditEvent
new_event actor_type actor_id action organization_id store_id target_type target_id metadata ip
      user_agent d =
    record {
      id = d.next_id;
      occurred_at = d.now;
      actor_type = actor_type;
      actor_id = actor_id;
      organization_id = organization_id;
      store_id = store_id;
      action = action;
      target_type = target_type;
      target_id = target_id;
      metadata = metadata;
      ip = ip;
      user_agent = user_agent;
    }

abbrev pub insert_event : (AdminDb → AuditEvent) → AdminDb → AdminDb
insert_event event d = record d { audit = event d ∷ d.audit; next_id = suc d.next_id }

-- auditCreateWithMetadata by a member of staff; a failure is only logged.
unfoldable pub audit_create :
    (AdminCall → Bool)
    → Caller
    → Text
    → Option ℕ
    → Option ℕ
    → Text
    → Option ℕ
    → List (Text × Meta)
    → Handler (Unit {0})
audit_create up caller action organization_id store_id target_type target_id metadata =
    elim (up write_audit) [
      | true ↦ modify (
          insert_event (
            new_event staff_actor (some caller.staff_user_id) action organization_id store_id
              target_type target_id metadata caller.ip caller.user_agent))
      | false ↦ pure tt
    ]
