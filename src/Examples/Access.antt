-- ===== src/Examples/Access.antt =====
-- Phones, codes, QR tokens, sessions and staff, on concrete inputs. The hash is the text itself.
use promo_go.Base.{
  ℕ, ◌≡◌, ◌≢◌, refl, Bool, true, false, Option, none, some, List, [], ◌∷◌, Text, codes, inl, inr,
  arith, text_eq,
}
use promo_go.Domain.{CustomerAccount, active, blocked, AccountStatus}
use promo_go.Phone.{normalize_phone}
use promo_go.Otp.Store.{
  exec_store, OtpCall, OtpConfig, OtpState, verify, store, otp_not_found, acquire_cooldown,
  check_rate_limit,
}
use promo_go.Otp.Request.{
  Outside, request_otp, otp_cooldown, request_otp_cooldown, request_otp_keeps_cooldown,
  request_otp_releases,
}
use promo_go.Qr.Store.{QrCall, QrConfig, QrState, claim, refused, release, done, gone, finalize}
use promo_go.Sessions.Table.{Session, SessionCall, SessionDb, find_session, claim_for_rotation}
use promo_go.Sessions.Refresh.{Tokens, logout, refresh, granted, session_invalid}
use promo_go.Domain.Rbac.{
  Role, StaffMembership, stores_manage, platform_admin, staff_active, grants, store_manager,
}
use promo_go.Staff.Principal.{has_permission, is_platform_admin}
use promo_go.Phone.Laws.{normalize_phone_spellings}
use promo_go.Otp.Verify.{verify_all, verify_bounded, verify_once}
use promo_go.Redis.{get, put}
use promo_go.Sessions.Reuse.{AllRevoked, logout-refresh, refresh_blocked, refresh_reuse}
use promo_go.Qr.OneTime.{claim-after_release, claim_once}
use promo_go.Staff.Scope.{has_permission-Elsewhere}
use promo_go.Qr.Resolve.{find_account_by_id}

abbrev plain : Text → Text
plain t = t

abbrev raw_phone : Text
raw_phone = codes "8 (912) 345-67-89"

abbrev phone : Text
phone = codes "+79123456789"

normalize_phone_spellings_example :
    (normalize_phone (codes "9123456789") ≡ some phone)
    × (normalize_phone (codes "89123456789") ≡ some phone)
    × (normalize_phone (codes "79123456789") ≡ some phone)
    × (normalize_phone phone ≡ some phone)
normalize_phone_spellings_example =
    normalize_phone_spellings (codes "123456789")
      (refl, (refl, (refl, (refl, (refl, (refl, (refl, (refl, (refl, tt))))))))) refl

abbrev otp_rules : OtpConfig
otp_rules = record {
  code_ttl = 300;
  resend_cooldown = 60;
  max_attempts = 2;
  rate_limit_window = 600;
  max_requests_per_phone = 1;
  max_requests_per_ip = 9;
}

abbrev otp_up : OtpCall → Bool
otp_up c = true

abbrev otp_no_store : OtpCall → Bool
otp_no_store exec_store = false
otp_no_store _ = true

abbrev empty_otp : OtpState
empty_otp = record { phone_counts = []; ip_counts = []; cooldowns = []; challenges = [] }

abbrev with_code : OtpState
with_code = (store plain otp_rules otp_up 5 phone (codes "1234") empty_otp).1

verify_once_example :
    (verify plain otp_rules otp_up 7 phone
      (codes "1234")
      (verify plain otp_rules otp_up 6 phone (codes "1234") with_code).1).0
    ≡ some otp_not_found
unfolding verify store get put text_eq
verify_once_example =
    verify_once plain otp_rules otp_up refl 6 7 phone (codes "1234") (codes "1234") with_code refl

abbrev guesses : List (ℕ × Text)
guesses = (6, codes "1111") ∷ (7, codes "2222") ∷ []

verify_bounded_example :
    (verify plain otp_rules otp_up 8 phone
      (codes "1234")
      (verify_all plain otp_rules otp_up refl phone guesses with_code)).0
    ≢ none
verify_bounded_example =
    verify_bounded plain otp_rules otp_up refl phone (codes "1234") 5 guesses empty_otp
      (codes "1234") 8 refl
      (omega arith, (λ e. ground arith), (omega arith, (λ e. ground arith), tt)) (omega arith)
      (omega arith)

abbrev gateway : Outside
gateway = record { code = some (codes "1234"); sms_sent = true }

abbrev gateway_down : Outside
gateway_down = record { code = some (codes "1234"); sms_sent = false }

abbrev ip : Text
ip = codes "10.0.0.1"

request_otp_cooldown_example :
    request_otp plain otp_rules otp_up 30 gateway phone ip
      (request_otp plain otp_rules otp_up 5 gateway raw_phone ip empty_otp).1
    ≡ (otp_cooldown, (request_otp plain otp_rules otp_up 5 gateway raw_phone ip empty_otp).1)
unfolding request_otp normalize_phone acquire_cooldown get check_rate_limit store
request_otp_cooldown_example =
    request_otp_cooldown plain otp_rules otp_up 5 30 gateway gateway raw_phone ip ip empty_otp refl
      (omega arith)

request_otp_releases_example :
    get 6 phone
      (request_otp plain otp_rules otp_up 5 gateway_down raw_phone ip empty_otp).1.cooldowns
    ≡ none
unfolding request_otp normalize_phone acquire_cooldown get check_rate_limit store
request_otp_releases_example =
    request_otp_releases plain otp_rules otp_up 5 6 gateway_down raw_phone phone ip empty_otp refl
      refl (inr (refl, refl, (λ e. ground arith), refl))

request_otp_keeps_cooldown_example :
    (request_otp plain otp_rules otp_no_store 30 gateway raw_phone ip
      (request_otp plain otp_rules otp_no_store 5 gateway raw_phone ip empty_otp).1).0
    ≡ otp_cooldown
unfolding request_otp normalize_phone acquire_cooldown get check_rate_limit store
request_otp_keeps_cooldown_example =
    request_otp_keeps_cooldown plain otp_rules otp_no_store 5 30 gateway gateway raw_phone ip ip
      empty_otp refl (inr refl) (omega arith)

abbrev qr_rules : QrConfig
qr_rules = record { ttl = 60000; issue_cooldown = 0; consume_cooldown = 0 }

abbrev qr_up : QrCall → Bool
qr_up c = true

abbrev payload : Text
payload = codes "v1.abc"

abbrev qr_issued : QrState
qr_issued = record {
  tokens = put (codes "abc") 3 60000 [];
  claims = [];
  issue_cooldowns = [];
  consume_cooldowns = [];
}

abbrev qr_claimed : QrState
qr_claimed = (claim plain qr_rules qr_up 5 payload qr_issued).1

claim_once_example :
    ((claim plain qr_rules qr_up 6 payload qr_claimed).0 ≡ refused gone)
    × ((claim plain qr_rules qr_up 6 payload
          (finalize plain qr_rules qr_up (codes "abc") qr_claimed)).0
        ≡ refused gone)
unfolding claim text_eq get put
claim_once_example = claim_once plain qr_rules qr_up 5 6 payload 3 (codes "abc") qr_issued refl refl

claim-after_release_example :
    (claim plain qr_rules qr_up 7 payload
      (release plain qr_rules qr_up 6 (codes "abc") qr_claimed)).0
    ≡ done (3, codes "abc")
unfolding claim text_eq get put
claim-after_release_example =
    claim-after_release plain qr_rules qr_up 5 6 7 payload 3 (codes "abc") qr_issued refl refl refl
      (omega arith) (omega arith) (omega arith)

abbrev up : SessionCall → Bool
up c = true

abbrev account_of : AccountStatus → CustomerAccount
account_of status = record { id = 3; phone = phone; status = status }

abbrev session : Session
session = record {
  id = 11;
  customer_account_id = 3;
  refresh_token_hash = codes "t1";
  replaced_by_id = none;
  issued_at = 1;
  expires_at = 500;
  revoked_at = none;
  user_agent = [];
  ip = [];
}

abbrev logged_in : AccountStatus → SessionDb
logged_in status = record {
  sessions = session ∷ [];
  accounts = account_of status ∷ [];
  next_id = 12;
}

abbrev tokens : Tokens
tokens = record { account = 3; refresh_token = codes "t2"; refresh_token_expires_at = 410 }

refresh_reuse_example :
    ((refresh plain 400 up 20
        (some (codes "t3"))
        (codes "t1")
        ip
        []
        (refresh plain 400 up 10 (some (codes "t2")) (codes "t1") ip [] (logged_in active)).1).0
      ≡ session_invalid)
    × AllRevoked 3
        (refresh plain 400 up 20
          (some (codes "t3"))
          (codes "t1")
          ip
          []
          (refresh plain 400 up 10
            (some (codes "t2"))
            (codes "t1")
            ip
            []
            (logged_in active)).1).1.sessions
unfolding refresh claim_for_rotation find_session text_eq find_account_by_id
refresh_reuse_example =
    refresh_reuse plain 400 up 10 20 (codes "t2") (codes "t3") (codes "t1") ip ip [] [] tokens
      (logged_in active) refl refl refl refl

refresh_blocked_example :
    (old : Session) × (find_session (codes "t1") (logged_in blocked).sessions ≡ some old)
    × AllRevoked old.customer_account_id
        (refresh plain 400 up 10
          (some (codes "t2"))
          (codes "t1")
          ip
          []
          (logged_in blocked)).1.sessions
unfolding refresh claim_for_rotation find_session text_eq find_account_by_id
refresh_blocked_example =
    refresh_blocked plain 400 up 10 (codes "t2") (codes "t1") ip [] (logged_in blocked) refl refl

logout-refresh_example :
    (refresh plain 400 up 20
      (some (codes "t2"))
      (codes "t1")
      ip
      []
      (logout plain 400 up 10 (codes "t1") (logged_in active)).1).0
    ≢ granted tokens
unfolding logout find_session text_eq
logout-refresh_example =
    logout-refresh plain 400 up 10 20 (codes "t2") (codes "t1") ip [] (logged_in active) refl tokens

abbrev member : Role → ℕ → Option ℕ → StaffMembership
member role org store = record {
  id = 1;
  staff_user_id = 2;
  organization_id = org;
  store_id = store;
  role = role;
  status = staff_active;
  created_at = 0;
  updated_at = 0;
}

has_permission-Elsewhere_example :
    is_platform_admin (member platform_admin 1 none ∷ member store_manager 2 (some 6) ∷ []) ≡ true
unfolding has_permission grants
has_permission-Elsewhere_example =
    has_permission-Elsewhere stores_manage 2 (some 5)
      (member platform_admin 1 none ∷ member store_manager 2 (some 6) ∷ [])
      (inl (λ e. ground arith), (inr (λ e. ground arith), tt)) refl
