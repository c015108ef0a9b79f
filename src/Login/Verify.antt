-- ===== src/Login/Verify.antt =====
-- VerifyOTP of internal/service/customerauth.go. The audit events, whose failure is only logged, and
-- the metrics are left out.
use promo_go.Base.{
  ℕ, suc, Bool, true, false, Option, none, some, List, [], ◌∷◌, Text, if◌then◌else◌,
}
use promo_go.Domain.{Client, CustomerAccount}
use promo_go.Phone.{normalize_phone}
use promo_go.Qr.Resolve.{is_active}
use promo_go.Sessions.Refresh.{Tokens}
use promo_go.Otp.Store.{
  OtpConfig, OtpState, OtpCall, OtpError, rate_limited, cooldown, otp_not_found, locked, redis_down,
  verify,
}
use promo_go.Login.Account.{
  CustomerConsent, LoginDb, LoginCall, insert_consent, Attempt, got, broke,
  resolve_or_create_account, link_existing_clients, issue_tokens,
}

pub record VerifyOtpRequest : Type 0 where
  pub phone : Text
  pub code : Text
  pub ip : Text
  pub user_agent : Text
  pub consent_document_version : Text
  pub consent_source : Text

pub data LoggedIn : Type 0 where
  logged_in : Tokens → CustomerAccount → LoggedIn
  invalid_phone otp_locked otp_invalid account_blocked failed : LoggedIn

-- The errors of the one-time code store.
abbrev pub otp_refusal : OtpError → LoggedIn
otp_refusal locked = otp_locked
otp_refusal rate_limited = otp_invalid
otp_refusal cooldown = otp_invalid
otp_refusal otp_not_found = otp_invalid
otp_refusal redis_down = otp_invalid

abbrev pub consent_row : ℕ → ℕ → ℕ → VerifyOtpRequest → CustomerConsent
consent_row now id account r = record {
  id = id;
  customer_account_id = account;
  document_version = r.consent_document_version;
  granted_at = now;
  source = r.consent_source;
  ip = r.ip;
  user_agent = r.user_agent;
}

abbrev pub add_consent : CustomerConsent → LoginDb → LoginDb
add_consent c db = record db {
  customers = record db.customers { next_id = suc db.customers.next_id };
  consents = c ∷ db.consents;
}

abbrev pub with_links : List Client → LoginDb → LoginDb
with_links cs db = record db { clients = cs }

abbrev pub is_empty : Text → Bool
is_empty [] = true
is_empty (_ ∷ _) = false

abbrev pub issued : CustomerAccount → Attempt Tokens × LoginDb → LoggedIn × LoginDb
issued a (got t, db) = (logged_in t a, db)
issued a (broke, db) = (failed, db)

module _ (hash : Text → Text) (cfg : OtpConfig) (ttl : ℕ) (io : OtpCall → Bool)
    (up : LoginCall → Bool) where
  -- The consent, when one was given, and then the tokens.
  unfoldable pub finish_login :
      ℕ → Option Text → VerifyOtpRequest → CustomerAccount → LoginDb → LoggedIn × LoginDb
  finish_login now generated r a db =
      if is_empty r.consent_document_version
      then issued a (issue_tokens hash ttl up now generated r.ip r.user_agent a.id db)
      else if up insert_consent
      then issued a (
          issue_tokens hash ttl up now generated r.ip r.user_agent a.id
            (add_consent (consent_row now db.customers.next_id a.id r) db))
      else (failed, db)

  -- From the account on.
  unfoldable pub login_as :
      ℕ
      → Option Text
      → VerifyOtpRequest
      → Text
      → Attempt CustomerAccount × LoginDb
      → LoggedIn × LoginDb
  login_as now generated r phone (broke, db) = (failed, db)
  login_as now generated r phone (got a, db) =
      if is_active a.status
      then finish_login now generated r a
          (with_links (link_existing_clients up phone a.id db.clients) db)
      else (account_blocked, db)

  abbrev pub after_code :
      (LoginDb → LoginDb)
      → ℕ
      → Option Text
      → VerifyOtpRequest
      → Text
      → Option OtpError × OtpState
      → LoginDb
      → LoggedIn × OtpState × LoginDb
  after_code other now generated r phone (some e, s) db = (otp_refusal e, s, db)
  after_code other now generated r phone (none, s) db =
      let out = login_as now generated r phone (resolve_or_create_account up other phone db) in
      (out.0, s, out.1)

  -- VerifyOTP; `other` is what another request does between the lookup of the account and its insert.
  unfoldable pub verify_otp :
      (LoginDb → LoginDb)
      → ℕ
      → Option Text
      → VerifyOtpRequest
      → OtpState
      → LoginDb
      → LoggedIn × OtpState × LoginDb
  verify_otp other now generated r s db = elim (normalize_phone r.phone) [
    | none ↦ (invalid_phone, s, db)
    | some phone ↦ after_code other now generated r phone (verify hash cfg io now phone r.code s) db
  ]
