-- ===== src/Examples/Logins.antt =====
-- A login with a code, and addresses behind proxies: the theorems at work on them.
use promo_go.Base.{
  Bool, true, false, none, some, List, [], ◌∷◌, ◌++◌, Text, codes, text_eq, refl, arith, ◌≡◌, ◌⊎◌,
}
use promo_go.Domain.{CustomerAccount, active}
use promo_go.Otp.Store.{OtpConfig, OtpState, OtpCall, verify}
use promo_go.Sessions.Refresh.{Tokens, refresh, granted}
use promo_go.Login.Account.{
  LoginDb, LoginCall, create_account, resolve_or_create_account, issue_tokens,
}
use promo_go.Login.Verify.{
  VerifyOtpRequest, LoggedIn, logged_in, verify_otp, finish_login, login_as,
}
use promo_go.Login.Laws.{LoggedInBy, verify_otp-LoggedIn, verify_otp-refresh}
use promo_go.ClientIp.{comma, or_host, peer_trusted, resolve_client_ip, resolve_client_ip_forwarded}
use promo_go.Admin.Strings.{trim_space}
use promo_go.Phone.{normalize_phone}
use promo_go.Redis.{get}
use promo_go.Loyalty.Queries.{find_account}
use promo_go.Sessions.Table.{find_session}
use promo_go.Qr.Resolve.{find_account_by_id}

abbrev same : Text → Text
same s = s

abbrev rules : OtpConfig
rules = record {
  code_ttl = 300;
  resend_cooldown = 60;
  max_attempts = 3;
  rate_limit_window = 600;
  max_requests_per_phone = 5;
  max_requests_per_ip = 20;
}

abbrev otp_works : OtpCall → Bool
otp_works _ = true

abbrev login_works : LoginCall → Bool
login_works _ = true

abbrev caller : Text
caller = codes "+79161234567"

abbrev code_sent : OtpState
code_sent = record {
  phone_counts = [];
  ip_counts = [];
  cooldowns = [];
  challenges =
      record {
        key = caller;
        value = record { code_hash = codes "1234"; attempts = 1 };
        expires_at = 300;
      }
      ∷ [];
}

abbrev asked : VerifyOtpRequest
asked = record {
  phone = caller;
  code = codes "1234";
  ip = codes "10.0.0.1";
  user_agent = codes "app";
  consent_document_version = codes "v1";
  consent_source = codes "app";
}

-- A client of a store that has the phone already.
abbrev start : LoginDb
start = record {
  customers = record { sessions = []; accounts = []; next_id = 1 };
  clients = record { id = 9; store_id = 5; phone = caller; customer_account_id = none } ∷ [];
  consents = [];
}

abbrev nobody : LoginDb → LoginDb
nobody db = db

abbrev account : CustomerAccount
account = record { id = 1; phone = caller; status = active }

abbrev issued_tokens : Tokens
issued_tokens = record { account = 1; refresh_token = codes "t1"; refresh_token_expires_at = 500 }

abbrev run : LoggedIn × OtpState × LoginDb
run =
    verify_otp same rules 400 otp_works login_works nobody 100 (some (codes "t1")) asked code_sent
      start

entered : run ≡ (logged_in issued_tokens account, run.1, run.2)
unfolding verify_otp normalize_phone verify get text_eq login_as resolve_or_create_account
    find_account create_account finish_login issue_tokens find_session
entered = refl

verify_otp-LoggedIn_example :
    LoggedInBy same rules 400 otp_works login_works 100 asked code_sent issued_tokens account run.2
verify_otp-LoggedIn_example =
    verify_otp-LoggedIn same rules 400 otp_works login_works nobody 100 (some (codes "t1")) asked
      code_sent run.1 start run.2 issued_tokens account entered

verify_otp-refresh_example :
    (refresh same 400
      (λ _. true)
      450
      (some (codes "t2"))
      (codes "t1")
      (codes "10.0.0.1")
      (codes "app")
      run.2.customers).0
    ≡ granted (record { account = 1; refresh_token = codes "t2"; refresh_token_expires_at = 850 })
unfolding find_account_by_id verify_otp normalize_phone verify get text_eq login_as
    resolve_or_create_account find_account create_account finish_login issue_tokens find_session
verify_otp-refresh_example =
    verify_otp-refresh same rules 400 otp_works login_works nobody 100 450 (some (codes "t1")) asked
      code_sent run.1 start run.2 issued_tokens account (codes "t2") (codes "10.0.0.1")
      (codes "app") entered (omega arith) refl refl

-- Texts as addresses; the balancer at 10.0.0.9 is trusted.
abbrev proxies : List Text
proxies = codes "10.0.0.9" ∷ []

resolve_client_ip_forwarded_example :
    ((peer_trusted some some text_eq proxies (some (codes "10.0.0.9")) ≡ false)
      × (resolve_client_ip some some text_eq proxies
            (codes "10.0.0.9")
            (codes "1.1.1.1" ++ comma ∷ codes " 7.7.7.7")
          ≡ resolve_client_ip some some text_eq proxies (codes "10.0.0.9") []))
    ⊎ ((peer_trusted some some text_eq proxies (some (codes "10.0.0.9")) ≡ true)
        × (resolve_client_ip some some text_eq proxies
              (codes "10.0.0.9")
              (codes "1.1.1.1" ++ comma ∷ codes " 7.7.7.7")
            ≡ or_host (codes "10.0.0.9") (trim_space (codes "1.1.1.1"))))
resolve_client_ip_forwarded_example =
    resolve_client_ip_forwarded some some text_eq proxies (codes "10.0.0.9") (codes "1.1.1.1")
      (codes " 7.7.7.7") [] (refl, (refl, (refl, (refl, (refl, (refl, (refl, tt)))))))
