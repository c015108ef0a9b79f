-- ===== src/RateLimit/Guard.antt =====
-- internal/ratelimit/middleware.go: the rules of a profile before a handler. Logs and metrics are left
-- out. Redis and the clock may differ from rule to rule: `up` and `at` tell of the i-th rule whether
-- the script runs and when, in milliseconds.
use promo_go.Base.{
  ℕ, suc, ◌+◌, ◌/◌, Bool, Option, none, some, List, [], ◌∷◌, ◌++◌, Text, codes, ltb, if◌then◌else◌,
}
use promo_go.Redis.{Keys}
use promo_go.RateLimit.{Verdict, allowed, unavailable, limited, allow}

pub record Rule (Request : Type 0) : Type 0 where
  pub name : Text
  pub limit : ℕ
  pub window : ℕ
  pub key_of : Request → Option Text  -- none when the rule does not apply

-- The request goes on to the handler, or is answered with 429 and Retry-After, or with 503.
pub data GuardAnswer : Type 0 where
  passed rate_limiter_unavailable : GuardAnswer
  rate_limit_exceeded : ℕ → GuardAnswer

-- time.Duration.Round to seconds, and at least one.
unfoldable pub retry_seconds : ℕ → ℕ
retry_seconds left = let seconds = (left + 500) / 1000 in if ltb seconds 1 then 1 else seconds

abbrev pub redis_key : Text → Text → Text → Text
redis_key profile name raw = codes "ratelimit:" ++ profile ++ codes ":" ++ name ++ codes ":" ++ raw

-- After one rule's verdict: the rest of the rules, or an answer.
abbrev pub go_on : (Keys ℕ → GuardAnswer × Keys ℕ) → Verdict × Keys ℕ → GuardAnswer × Keys ℕ
go_on rest (allowed, m) = rest m
go_on rest (unavailable, m) = (rate_limiter_unavailable, m)
go_on rest (limited left, m) = (rate_limit_exceeded (retry_seconds left), m)

module _ {Request : Type 0} (up : ℕ → Bool) (at : ℕ → ℕ) (profile : Text) (r : Request) where
  abbrev pub count_rule :
      ℕ
      → Rule Request
      → (Keys ℕ → GuardAnswer × Keys ℕ)
      → Option Text
      → Keys ℕ
      → GuardAnswer × Keys ℕ
  count_rule i rule rest none m = rest m
  count_rule i rule rest (some raw) m =
      go_on rest (allow (up i) (at i) (redis_key profile rule.name raw) rule.limit rule.window m)

  -- The loop of Wrap, from the i-th rule on.
  unfoldable pub wrap : ℕ → List (Rule Request) → Keys ℕ → GuardAnswer × Keys ℕ
  unfolding allow retry_seconds
  wrap i [] m = (passed, m)
  wrap i (rule ∷ rules) m = count_rule i rule (wrap (suc i) rules) (rule.key_of r) m
