-- ===== src/Admin/Keeps.antt =====
-- Proofs about handlers: what a handler keeps of the tables, step by step.
use promo_go.Base.{
  ℕ, Bool, true, false, ◌≡◌, refl, Option, none, some, arith, Text, List, Bool-cases, inl, inr,
}
use promo_go.Admin.Handler.{
  AdminDb, AdminCall, Reply, done, refused, Caller, Handler, pure, refuse, gets, modify, ◌>>=◌,
  ◌>>◌, require, present, audit_create, resume, insert_event, write_audit, new_event,
}
use promo_go.Domain.{Meta, AuditEvent, staff_actor}

-- Every run from tables with `P` ends in tables with `P`.
unfoldable pub Keeps : {A : Type 0} → (AdminDb → Type 0) → Handler A → Type 0
Keeps P h = (d : AdminDb) → P d → P (h d).1

module _ (P : AdminDb → Type 0) where
  pub Keeps-resume :
      {A B : Type 0} (f : A → Handler B) (r : Reply A)
      → ((a : A) → (r ≡ done a) → Keeps P (f a))
      → Keeps P (resume f r)
  unfolding Keeps refuse
  Keeps-resume f (done a) hf d p = hf a refl d p
  Keeps-resume f (refused status) hf d p = p

  pub Keeps->>= :
      {A B : Type 0} (m : Handler A) (f : A → Handler B)
      → Keeps P m
      → ((a : A) → Keeps P (f a))
      → Keeps P (m >>= f)
  unfolding Keeps ◌>>=◌
  Keeps->>= m f hm hf d p = Keeps-resume f (m d).0 (λ a _. hf a) (m d).1 (hm d p)

  -- A step that passes a test may use it.
  pub Keeps-require :
      {B : Type 0} (b : Bool) (status : ℕ) (k : Handler B)
      → ((b ≡ true) → Keeps P k)
      → Keeps P (require b status >> k)
  unfolding Keeps ◌>>=◌ require pure refuse
  Keeps-require true status k h d p = h refl d p
  Keeps-require false status k h d p = p

  pub Keeps-last_require : (b : Bool) (status : ℕ) → Keeps P (require b status)
  unfolding Keeps require pure refuse
  Keeps-last_require true status d p = p
  Keeps-last_require false status d p = p

  pub Keeps-present :
      {A B : Type 0} (o : Option A) (status : ℕ) (k : A → Handler B)
      → ((a : A) → (o ≡ some a) → Keeps P (k a))
      → Keeps P (present status o >>= k)
  unfolding Keeps ◌>>=◌ present pure refuse
  Keeps-present (some a) status k h d p = h a refl d p
  Keeps-present none status k h d p = p

  pub Keeps-last_present : {A : Type 0} (status : ℕ) (o : Option A) → Keeps P (present status o)
  unfolding Keeps present pure refuse
  Keeps-last_present status (some a) d p = p
  Keeps-last_present status none d p = p

  pub Keeps-gets : {A : Type 0} (f : AdminDb → A) → Keeps P (gets f)
  unfolding Keeps gets
  Keeps-gets f d p = p

  pub Keeps-modify : (f : AdminDb → AdminDb) → ((d : AdminDb) → P d → P (f d)) → Keeps P (modify f)
  unfolding Keeps modify
  Keeps-modify f hf d p = hf d p

  pub Keeps-pure : {A : Type 0} (a : A) → Keeps P (pure a)
  unfolding Keeps pure
  Keeps-pure a d p = p

  -- Auditing keeps what does not depend on the audit table and the counter.
  pub Keeps-audit_create :
      (up : AdminCall → Bool) (caller : Caller) (action : Text) (org store : Option ℕ)
      (target : Text)
      → (id : Option ℕ) (metadata : List (Text × Meta))
      → ((event : AdminDb → AuditEvent) (d : AdminDb) → P d → P (insert_event event d))
      → Keeps P (audit_create up caller action org store target id metadata)
  unfolding Keeps audit_create pure modify
  Keeps-audit_create up caller action org store target id metadata h d p =
      elim (Bool-cases (up write_audit)) [
        | inl yes' ↦ ground (
          arith,
          h
              (new_event staff_actor (some caller.staff_user_id) action org store target id metadata
                caller.ip caller.user_agent)
              d p,
        )
        | inr no' ↦ ground arith
      ]

pub Keeps-run :
    (P : AdminDb → Type 0) {A : Type 0} (h : Handler A) (d : AdminDb) → Keeps P h → P d → P (h d).1
unfolding Keeps
Keeps-run P h d keeps p = keeps d p

-- A test before a step that leads from `P` to `Q`.
pub require_leads :
    (P Q : AdminDb → Type 0) {B : Type 0} (b : Bool) (status : ℕ) (k : Handler B) (d : AdminDb)
    → (P d → Q d)
    → ((b ≡ true) → P d → Q (k d).1)
    → P d
    → Q ((require b status >> k) d).1
unfolding ◌>>=◌ require pure refuse
require_leads P Q true status k d weaken h p = h refl p
require_leads P Q false status k d weaken h p = weaken p
