-- ===== src/Login/Laws.antt =====
-- Proofs about Login/Verify: what a login has checked, and what its tokens are good for.
use promo_go.Base.{
  ℕ, ◌+◌, ◌≤◌, ◌≡◌, refl, subst, Bool, true, Option, none, some, Text, text_eq_refl, arith,
  Bool-cases, Option-cases, inl, inr,
}
use promo_go.Domain.{CustomerAccount}
use promo_go.Phone.{normalize_phone}
use promo_go.Qr.Resolve.{is_active, find_account_by_id}
use promo_go.Sessions.Table.{Session, find_session, claim_for_rotation}
use promo_go.Sessions.Refresh.{Tokens, refresh, granted}
use promo_go.Otp.Store.{OtpConfig, OtpState, OtpCall, OtpError, verify}
use promo_go.Login.Account.{
  LoginDb, LoginCall, Attempt, got, broke, issue_tokens, resolve_or_create_account, session_of,
  insert_consent, link_existing_clients,
}
use promo_go.Login.Verify.{
  VerifyOtpRequest, logged_in, verify_otp, login_as, finish_login, issued, after_code, is_empty,
  add_consent, with_links, consent_row,
}

-- A live session of the account under the tokens' refresh token.
abbrev pub SessionFor : (Text → Text) → ℕ → Tokens → CustomerAccount → LoginDb → Type 0
SessionFor hash expires_at t a db =
    (t.account ≡ a.id)
    × (is_active a.status ≡ true)
    × ((s : Session) × (find_session (hash t.refresh_token) db.customers.sessions ≡ some s)
        × (s.customer_account_id ≡ a.id)
        × (s.revoked_at ≡ none)
        × (s.expires_at ≡ expires_at))

module _ (hash : Text → Text) (ttl : ℕ) (up : LoginCall → Bool) where
  pub issue_tokens-SessionFor :
      (now : ℕ) (generated : Option Text) (ip user_agent : Text) (a : CustomerAccount)
      (db e : LoginDb) (t : Tokens)
      → is_active a.status ≡ true
      → issue_tokens hash ttl up now generated ip user_agent a.id db ≡ (got t, e)
      → SessionFor hash (now + ttl) t a e
  unfolding issue_tokens find_session
  issue_tokens-SessionFor now none ip user_agent a db e t live h = absurd (ground arith)
  issue_tokens-SessionFor now (some token) ip user_agent a db e t live h =
      elim (Option-cases (find_session (hash token) db.customers.sessions)) [
        | inr (old, there) ↦ absurd (ground arith)
        | inl free ↦ (
          ground arith,
          live,
          (
            session_of hash ttl up now token ip user_agent a.id db,
            ground (arith, text_eq_refl (hash token)),
            refl,
            refl,
            refl,
          ),
        )
      ]

pub issued-logged_in :
    (a b : CustomerAccount) (t : Tokens) (r : Attempt Tokens × LoginDb) (e : LoginDb)
    → issued a r ≡ (logged_in t b, e)
    → (r ≡ (got t, e)) × (a ≡ b)
issued-logged_in a b t (got u, d) e h = (ground arith, ground arith)
issued-logged_in a b t (broke, d) e h = absurd (ground arith)

module _ (hash : Text → Text) (cfg : OtpConfig) (ttl : ℕ) (io : OtpCall → Bool)
    (up : LoginCall → Bool) where
  pub issued-SessionFor :
      (now : ℕ) (generated : Option Text) (ip user_agent : Text) (a b : CustomerAccount)
      (db e : LoginDb) (t : Tokens)
      → is_active a.status ≡ true
      → issued a (issue_tokens hash ttl up now generated ip user_agent a.id db) ≡ (logged_in t b, e)
      → SessionFor hash (now + ttl) t b e
  issued-SessionFor now generated ip user_agent a b db e t live h =
      let (ran, same) = issued-logged_in a b t _ e h in
      subst (λ x. SessionFor hash (now + ttl) t x e) same
        (issue_tokens-SessionFor hash ttl up now generated ip user_agent a db e t live ran)

  pub finish_login-SessionFor :
      (now : ℕ) (generated : Option Text) (r : VerifyOtpRequest) (a b : CustomerAccount)
      (db e : LoginDb) (t : Tokens)
      → is_active a.status ≡ true
      → finish_login hash cfg ttl io up now generated r a db ≡ (logged_in t b, e)
      → SessionFor hash (now + ttl) t b e
  unfolding finish_login
  finish_login-SessionFor now generated r a b db e t live h =
      elim (Bool-cases (is_empty r.consent_document_version)) [
        | inl none' ↦
            issued-SessionFor now generated r.ip r.user_agent a b db e t live (ground arith)
        | inr some' ↦ elim (Bool-cases (up insert_consent)) [
          | inl works ↦
              issued-SessionFor now generated r.ip r.user_agent a b
                (add_consent (consent_row now db.customers.next_id a.id r) db) e t live
                (ground arith)
          | inr down ↦ absurd (ground arith)
        ]
      ]

  pub login_as-SessionFor :
      (now : ℕ) (generated : Option Text) (r : VerifyOtpRequest) (phone : Text)
      → (found : Attempt CustomerAccount × LoginDb) (b : CustomerAccount) (e : LoginDb) (t : Tokens)
      → login_as hash cfg ttl io up now generated r phone found ≡ (logged_in t b, e)
      → SessionFor hash (now + ttl) t b e
  unfolding login_as
  login_as-SessionFor now generated r phone (broke, db) b e t h = absurd (ground arith)
  login_as-SessionFor now generated r phone (got a, db) b e t h =
      elim (Bool-cases (is_active a.status)) [
        | inl live ↦
            finish_login-SessionFor now generated r a b
              (with_links (link_existing_clients up phone a.id db.clients) db) e t live
              (ground arith)
        | inr ended ↦ absurd (ground arith)
      ]

  -- What a login has checked and left: the code that the store accepts for the normalized phone, and
  -- a live session.
  abbrev pub LoggedInBy :
      ℕ → VerifyOtpRequest → OtpState → Tokens → CustomerAccount → LoginDb → Type 0
  LoggedInBy now r s t a db =
      ((phone : Text) × (normalize_phone r.phone ≡ some phone)
        × ((verify hash cfg io now phone r.code s).0 ≡ none))
      × SessionFor hash (now + ttl) t a db

  pub after_code-LoggedIn :
      (other : LoginDb → LoginDb) (now : ℕ) (generated : Option Text) (r : VerifyOtpRequest)
      (phone : Text)
      → (checked : Option OtpError × OtpState) (db e : LoginDb) (s : OtpState) (t : Tokens)
        (a : CustomerAccount)
      → after_code hash cfg ttl io up other now generated r phone checked db ≡ (logged_in t a, s, e)
      → (checked.0 ≡ none) × SessionFor hash (now + ttl) t a e
  after_code-LoggedIn other now generated r phone (some x, s0) db e s t a h = absurd (ground arith)
  after_code-LoggedIn other now generated r phone (none, s0) db e s t a h = (
    refl,
    login_as-SessionFor now generated r phone (resolve_or_create_account up other phone db) a e t
        (ground arith),
  )

  -- A login that gives tokens was for a phone whose code the store accepted, by an active account, and
  -- leaves a session of that account under the refresh token, not revoked and to end after its
  -- time; whatever another request does between the lookup of the account and its creation.
  pub verify_otp-LoggedIn :
      (other : LoginDb → LoginDb) (now : ℕ) (generated : Option Text) (r : VerifyOtpRequest)
      → (s u : OtpState) (db e : LoginDb) (t : Tokens) (a : CustomerAccount)
      → verify_otp hash cfg ttl io up other now generated r s db ≡ (logged_in t a, u, e)
      → LoggedInBy now r s t a e
  unfolding verify_otp
  verify_otp-LoggedIn other now generated r s u db e t a h =
      elim (Option-cases (normalize_phone r.phone)) [
        | inl bad ↦ absurd (ground arith)
        | inr (phone, good) ↦
            let run : after_code hash cfg ttl io up other now generated r phone
                  (verify hash cfg io now phone r.code s) db
                ≡ (logged_in t a, u, e) =
              ground arith in
            let (accepted, session) =
              after_code-LoggedIn other now generated r phone _ db e u t a run in
            ((phone, good, accepted), session)
      ]

  -- The refresh token of a login, presented before it ends and with no other request in between,
  -- gives new tokens for the account, if the account is found by its id, every call works and the new
  -- token is not in use.
  pub verify_otp-refresh :
      (other : LoginDb → LoginDb) (now later : ℕ) (generated : Option Text) (r : VerifyOtpRequest)
      → (s u : OtpState) (db e : LoginDb) (t : Tokens) (a : CustomerAccount)
        (token ip user_agent : Text)
      → verify_otp hash cfg ttl io up other now generated r s db ≡ (logged_in t a, u, e)
      → later ≤ now + ttl
      → find_account_by_id a.id e.customers.accounts ≡ some a
      → find_session (hash token) e.customers.sessions ≡ none
      → (refresh hash ttl
          (λ _. true)
          later
          (some token)
          t.refresh_token
          ip
          user_agent
          e.customers).0
        ≡ granted (record {
          account = a.id;
          refresh_token = token;
          refresh_token_expires_at = later + ttl;
        })
  unfolding refresh claim_for_rotation
  verify_otp-refresh other now later generated r s u db e t a token ip user_agent h within found
        fresh =
      let (_, (_, live, (old, there, mine, unrevoked, ends))) =
        verify_otp-LoggedIn other now generated r s u db e t a h in
      ground arith
