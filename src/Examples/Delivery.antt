-- ===== src/Examples/Delivery.antt =====
-- The outbox, its worker and the limiter, on concrete inputs.
use promo_go.Base.{ℕ, ◌≡◌, refl, true, false, none, some, [], ◌∷◌, codes, arith, Text, ◌≢◌, ◌+◌}
use promo_go.Domain.{OutboxEntry, pending, push}
use promo_go.Outbox.Queue.{Outbox, claim_batch, mark_failed, has_id, due}
use promo_go.Outbox.Worker.{WorkerConfig, World, poll_once}
use promo_go.Outbox.Attempts.{Budget}
use promo_go.Redis.{get, put, get-put_self}
use promo_go.RateLimit.Guard.{redis_key, wrap, passed}
use promo_go.RateLimit.Spent.{wrap-Spent}
use promo_go.RateLimit.Rules.{
  RateLimitConfig, LimitedRequest, client_lookup, ip_rule, principal_rule, phone_query_rule,
  rate_limit_rules_for,
}
use promo_go.RateLimit.Window.{admitted, fewer, admitted_window}
use promo_go.Outbox.Lease.{claim_batch_exclusive, here, next, claims, fails}
use promo_go.Outbox.Budget.{poll_once-Budget}

abbrev note : ℕ → ℕ → OutboxEntry
note id attempts = record {
  id = id;
  client_id = 7;
  channel = push;
  template_id = [];
  template_version = 1;
  message = codes "hi";
  dedupe_key = [];
  status = pending;
  attempts = attempts;
  next_attempt_at = 10;
  last_error = [];
  created_at = 1;
  delivered_at = none;
}

abbrev queue : Outbox
queue = note 1 0 ∷ note 2 1 ∷ []

-- Another worker claims too and fails to deliver the other entry.
abbrev claimed_once : Outbox
claimed_once = (claim_batch 20 1 queue).1

abbrev later_queue : Outbox
later_queue = mark_failed 2 (codes "down") 40 (claim_batch 25 5 claimed_once).1

claim_batch_exclusive_example : has_id 1 (claim_batch 50 9 later_queue).0 ≡ false
unfolding claim_batch has_id due
claim_batch_exclusive_example =
    claim_batch_exclusive 20 50 1 9 1 queue later_queue refl
      (next (next here (claims claimed_once 25 5 (omega arith)))
        (fails (claim_batch 25 5 claimed_once).1 2 40 (codes "down") (λ h. absurd (omega arith))))
      (omega arith)

abbrev worker : WorkerConfig
worker = record { batch_size = 5; max_attempts = 2; base_backoff = 1000; max_backoff = 1500 }

abbrev broken_push : World
broken_push = record {
  notify = λ now e. some (codes "down");
  send_sms = λ now p e. none;
  load_client = λ now e. true;
  load_error = λ e. [];
  marks = λ now e. true;
}

poll_once-Budget_example : Budget 2 (poll_once worker broken_push true [] 20 queue)
poll_once-Budget_example =
    poll_once-Budget worker broken_push true [] 20 queue (((λ e. ground arith), tt), (tt, tt))
      (((λ e. omega arith), omega arith), (((λ e. omega arith), omega arith), tt))

admitted_window_example : admitted (5 ∷ 6 ∷ 7 ∷ []) (codes "k") 2 60 [] ≡ fewer 2 3
unfolding get
admitted_window_example =
    admitted_window 5 (6 ∷ 7 ∷ []) (codes "k") 2 60 [] refl (omega arith, (omega arith, tt))

abbrev spacious : RateLimitConfig
spacious = record {
  staff_login_ip_limit = 10;
  staff_login_ip_window = 1000;
  admin_ip_limit = 10;
  admin_ip_window = 1000;
  admin_staff_limit = 10;
  admin_staff_window = 1000;
  client_lookup_ip_limit = 10;
  client_lookup_ip_window = 1000;
  client_lookup_principal_limit = 5;
  client_lookup_principal_window = 1000;
  client_lookup_phone_limit = 3;
  client_lookup_phone_window = 1000;
  accrual_ip_limit = 10;
  accrual_ip_window = 1000;
  accrual_principal_limit = 10;
  accrual_principal_window = 1000;
}

abbrev unhashed : Text → Text
unhashed s = s

abbrev one_digit : ℕ → Text
one_digit n = (48 + n) ∷ []

-- A customer's look at a balance.
abbrev looking : LimitedRequest
looking = record {
  client_ip = codes "10.0.0.1";
  staff = none;
  api_key = none;
  resolved_store = none;
  customer = some 7;
  phone = [];
}

abbrev customer_key : Text
customer_key = redis_key (codes "client_lookup") (codes "principal") (codes "customer:7")

wrap-Spent_example :
    (wrap
      (λ i. true)
      (λ i. 2)
      (codes "client_lookup")
      looking
      0
      (rate_limit_rules_for unhashed one_digit spacious client_lookup).1
      (put customer_key 5 1000 [])).0
    ≢ passed
unfolding rate_limit_rules_for
wrap-Spent_example =
    wrap-Spent (λ i. true) (λ i. 2) (codes "client_lookup") looking
      (ip_rule unhashed one_digit (codes "ip") 10 1000 ∷ [])
      (principal_rule unhashed one_digit (codes "principal") 5 1000)
      (phone_query_rule unhashed one_digit (codes "phone") 3 1000 ∷ []) 0 customer_key 1000
      (put customer_key 5 1000 []) (λ j. omega arith) (codes "customer:7", refl, refl)
      (5, omega arith, λ t lt. ground (arith, get-put_self {V = ℕ} t customer_key 5 1000 []))
