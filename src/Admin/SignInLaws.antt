-- ===== src/Admin/SignInLaws.antt =====
-- What a sign-in of staff comes to (Admin/SignIn).
use promo_go.Base.{
  ℕ, Bool, true, Option, none, some, List, [], ◌∷◌, Text, text_eq, text_eq_refl, ◌≡◌, ◌≢◌, refl,
  arith, Bool-cases, Option-cases, inl, inr, codes,
}
use promo_go.Domain.Rbac.{StaffMembership, StaffUser}
use promo_go.Staff.Principal.{is_active_status, load_principal}
use promo_go.Admin.Handler.{AdminDb, AdminCall, audit_create, write_audit, modify, pure, Caller}
use promo_go.Admin.Staff.{Insert, inserted, conflict, broken, find_by_subject, insert_user}
use promo_go.Admin.Gate.{AccessClaims}
use promo_go.Admin.Oidc.{OidcClaims}
use promo_go.Admin.SignIn.{
  Pause, before_create, before_read_again, before_memberships, before_token, before_audit,
  signed_in, SignInCall, read_user, read_memberships, resolve_or_create_user, refreshed,
  new_or_read_again, issue_staff_access_token, with_token, with_held, sign_in_as, authenticate_oidc,
  create_new,
}

abbrev pub HasSubject : Text → StaffUser → Type 0
HasSubject subject u = text_eq u.external_subject subject ≡ true

pub find_by_subject-HasSubject :
    (subject : Text) (us : List StaffUser) (u : StaffUser)
    → find_by_subject subject us ≡ some u
    → HasSubject subject u
unfolding find_by_subject
find_by_subject-HasSubject subject [] u h = absurd (ground arith)
find_by_subject-HasSubject subject (v ∷ us) u h =
    elim (Bool-cases (text_eq v.external_subject subject)) [
      | inl same ↦ ground arith
      | inr other' ↦ find_by_subject-HasSubject subject us u (ground arith)
    ]

pub insert_user-HasSubject :
    (works : Bool) (subject email name : Text) (d e : AdminDb) (u : StaffUser)
    → insert_user works subject email name d ≡ (inserted u, e)
    → HasSubject subject u
unfolding insert_user
insert_user-HasSubject works subject email name d e u h = ground (arith, text_eq_refl subject)

module _ (up : SignInCall → Bool) (other : Pause → AdminDb → AdminDb) where
  pub refreshed-HasSubject :
      (c : OidcClaims) (u v : StaffUser) (d e : AdminDb)
      → HasSubject c.subject u
      → refreshed up other c u d ≡ (some v, e)
      → HasSubject c.subject v
  refreshed-HasSubject c u v d e same h = ground arith

  pub new_or_read_again-HasSubject :
      (c : OidcClaims) (r : Insert StaffUser × AdminDb) (v : StaffUser) (e : AdminDb)
      → ((u : StaffUser) (d : AdminDb) → r ≡ (inserted u, d) → HasSubject c.subject u)
      → new_or_read_again up other c r ≡ (some v, e)
      → HasSubject c.subject v
  new_or_read_again-HasSubject c (inserted u, d) v e fresh h =
      let same = fresh u d refl in ground arith
  new_or_read_again-HasSubject c (broken, d) v e fresh h = absurd (ground arith)
  new_or_read_again-HasSubject c (conflict, d) v e fresh h =
      find_by_subject-HasSubject c.subject (other before_read_again d).users v (ground arith)

  -- The user of a sign-in is the one that the claims are about.
  pub resolve_or_create_user-HasSubject :
      (c : OidcClaims) (d e : AdminDb) (v : StaffUser)
      → resolve_or_create_user up other c d ≡ (some v, e)
      → HasSubject c.subject v
  unfolding resolve_or_create_user
  resolve_or_create_user-HasSubject c d e v h = elim (Bool-cases (up read_user)) [
    | inr down ↦ absurd (ground arith)
    | inl works ↦ elim (Option-cases (find_by_subject c.subject d.users)) [
      | inr (u, found) ↦
          refreshed-HasSubject c u v d e (find_by_subject-HasSubject c.subject d.users u found)
            (ground arith)
      | inl none' ↦
          new_or_read_again-HasSubject c
            (insert_user (up create_new) c.subject c.email c.name (other before_create d)) v e
            (λ u x.
              insert_user-HasSubject (up create_new) c.subject c.email c.name
                (other before_create d) x u)
            (ground arith)
    ]
  ]

-- The log of audit events is all that writing to it changes.
pub audit_create-memberships :
    (admin_up : AdminCall → Bool) (caller : Caller) (action : Text) (d : AdminDb)
    → (audit_create admin_up caller action none none [] none [] d).1.memberships ≡ d.memberships
unfolding audit_create modify pure
audit_create-memberships admin_up caller action d = elim (Bool-cases (admin_up write_audit)) [
  | inl works ↦ ground arith
  | inr down ↦ ground arith
]

-- What the answer to a sign-in as a user stands on, from the tables `d` that the user was found in.
abbrev pub SignsIn :
    (ℕ → Text)
    → (AccessClaims → ℕ → Option Text)
    → ℕ
    → (Pause → AdminDb → AdminDb)
    → StaffUser
    → Text
    → List StaffMembership
    → AdminDb
    → AdminDb
    → Type 0
SignsIn format_id sign ttl other u token held d e =
    let read = other before_memberships d in
    let signed = other before_token read in
    (is_active_status u.status ≡ true)
    × (held ≡ load_principal u.id read.memberships)
    × (held ≢ [])
    × (issue_staff_access_token format_id sign signed.now ttl u.id ≡ some token)
    × (e.memberships ≡ (other before_audit signed).memberships)

module _ (format_id : ℕ → Text) (sign : AccessClaims → ℕ → Option Text) (ttl : ℕ)
    (verify_id_token : Text → Option OidcClaims) (up : SignInCall → Bool)
    (admin_up : AdminCall → Bool) (other : Pause → AdminDb → AdminDb) where
  pub with_token-SignsIn :
      (u : StaffUser) (ip user_agent token : Text) (m : StaffMembership)
      (ms held : List StaffMembership) (issued : Option Text) (d e : AdminDb)
      → is_active_status u.status ≡ true
      → load_principal u.id (other before_memberships d).memberships ≡ m ∷ ms
      → issue_staff_access_token format_id sign
          (other before_token (other before_memberships d)).now
          ttl
          u.id
        ≡ issued
      → with_token verify_id_token format_id sign ttl up admin_up other u ip user_agent
          (m ∷ ms)
          issued
          (other before_token (other before_memberships d))
        ≡ (signed_in token held, e)
      → SignsIn format_id sign ttl other u token held d e
  with_token-SignsIn u ip user_agent token m ms held none d e live loaded signed h =
      absurd (ground arith)
  with_token-SignsIn u ip user_agent token m ms held (some t) d e live loaded signed h =
      let kept =
        audit_create-memberships admin_up
          (record { staff_user_id = u.id; held = m ∷ ms; ip = ip; user_agent = user_agent })
          (codes "staff.login")
          (other before_audit (other before_token (other before_memberships d))) in
      (live, grind arith, λ none'. absurd (ground arith), grind arith, grind arith)

  pub with_held-SignsIn :
      (u : StaffUser) (ip user_agent token : Text) (held all : List StaffMembership) (d e : AdminDb)
      → is_active_status u.status ≡ true
      → load_principal u.id (other before_memberships d).memberships ≡ all
      → with_held verify_id_token format_id sign ttl up admin_up other u ip user_agent all
          (other before_memberships d)
        ≡ (signed_in token held, e)
      → SignsIn format_id sign ttl other u token held d e
  with_held-SignsIn u ip user_agent token held [] d e live loaded h = absurd (ground arith)
  with_held-SignsIn u ip user_agent token held (m ∷ ms) d e live loaded h =
      with_token-SignsIn u ip user_agent token m ms held
        (issue_staff_access_token format_id sign
          (other before_token (other before_memberships d)).now ttl u.id)
        d e live loaded refl h

  pub sign_in_as-SignsIn :
      (ip user_agent token : Text) (held : List StaffMembership)
      (found : Option StaffUser × AdminDb) (e : AdminDb)
      → sign_in_as verify_id_token format_id sign ttl up admin_up other ip user_agent found
        ≡ (signed_in token held, e)
      → (u : StaffUser) × (found.0 ≡ some u)
        × SignsIn format_id sign ttl other u token held found.1 e
  unfolding sign_in_as
  sign_in_as-SignsIn ip user_agent token held (none, d) e h = absurd (ground arith)
  sign_in_as-SignsIn ip user_agent token held (some u, d) e h =
      elim (Bool-cases (is_active_status u.status)) [
        | inr ended ↦ absurd (ground arith)
        | inl live ↦ elim (Bool-cases (up read_memberships)) [
          | inr down ↦ absurd (ground arith)
          | inl works ↦ (
            u,
            refl,
            with_held-SignsIn u ip user_agent token held
                (load_principal u.id (other before_memberships d).memberships) d e live refl
                (ground arith),
          )
        ]
      ]

  -- A sign-in that gives a token was with an ID token that the verifier accepts, of a user that was
  -- found or made for the subject of its claims and was active then; the token is one for that
  -- user's id, and the memberships told with it are all the active ones of the user when they were
  -- read, of which there is at least one; and the memberships that it leaves are those that other
  -- requests made them, which may act before each statement after the first and before the token.
  -- Any of the calls may fail.
  pub authenticate_oidc-SignedIn :
      (raw ip user_agent token : Text) (held : List StaffMembership) (d e : AdminDb)
      → authenticate_oidc verify_id_token format_id sign ttl up admin_up other raw ip user_agent d
        ≡ (signed_in token held, e)
      → (c : OidcClaims) × (u : StaffUser) × (verify_id_token raw ≡ some c)
        × HasSubject c.subject u
        × ((resolve_or_create_user up other c d).0 ≡ some u)
        × SignsIn format_id sign ttl other u token held (resolve_or_create_user up other c d).1 e
  unfolding authenticate_oidc
  authenticate_oidc-SignedIn raw ip user_agent token held d e h =
      elim (Option-cases (verify_id_token raw)) [
        | inl bad ↦ absurd (ground arith)
        | inr (c, good) ↦
            let (u, found, signs) =
              sign_in_as-SignsIn ip user_agent token held (resolve_or_create_user up other c d) e
                (ground arith) in
            let same =
              resolve_or_create_user-HasSubject up other c d (resolve_or_create_user up other c d).1
                u (ground arith) in
            (c, u, good, same, found, signs)
      ]
