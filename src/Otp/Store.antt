-- ===== src/Otp/Store.antt =====
-- `otpStore`: rate limits, the resend cooldown and the stored challenge. Each Lua script and each
-- command is one step, as Redis runs them; the prefixes of the keys ("otp:rl:phone", "otp:rl:ip",
-- "otp:cooldown", "otp:code") keep the four kinds apart, so they are four key spaces.
use promo_go.Base.{
  ℕ, suc, ◌+◌, Bool, true, false, Option, none, some, Text, text_eq, ltb, leb, ◌||◌, if◌then◌else◌,
}
use promo_go.Redis.{Keys, Slot, get, put, del}

pub record OtpConfig : Type 0 where
  pub code_ttl : ℕ
  pub resend_cooldown : ℕ
  pub max_attempts : ℕ
  pub rate_limit_window : ℕ
  pub max_requests_per_phone : ℕ
  pub max_requests_per_ip : ℕ

pub record Challenge : Type 0 where
  pub code_hash : Text
  pub attempts : ℕ

pub record OtpState : Type 0 where
  pub phone_counts : Keys ℕ
  pub ip_counts : Keys ℕ
  pub cooldowns : Keys (Unit {0})
  pub challenges : Keys Challenge

-- The commands that can fail.
pub data OtpCall : Type 0 where
  incr_phone incr_ip set_cooldown del_cooldown exec_store run_verify : OtpCall

pub data OtpError : Type 0 where
  rate_limited cooldown otp_not_found locked redis_down : OtpError

abbrev pub Answer : Type 0
Answer = Option OtpError

-- incrWithExpiryScript: the counter's new value, the expiry set by the first increment.
unfoldable pub incr_with_window : ℕ → ℕ → Text → Keys ℕ → ℕ × Keys ℕ
incr_with_window now window k m = elim (get now k m) [
  | none ↦ (1, put k 1 (now + window) m)
  | some s ↦ (suc s.value, put k (suc s.value) s.expires_at m)
]

module _ (hash : Text → Text) (cfg : OtpConfig) (io : OtpCall → Bool) where
  -- Both counters are incremented before either is compared.
  unfoldable pub check_rate_limit : ℕ → Text → Text → OtpState → Answer × OtpState
  unfolding incr_with_window
  check_rate_limit now phone ip s =
      let (phone_count, phones) =
        incr_with_window now cfg.rate_limit_window (hash phone) s.phone_counts in
      let (ip_count, ips) = incr_with_window now cfg.rate_limit_window (hash ip) s.ip_counts in
      elim (io incr_phone) [
        | false ↦ (some redis_down, s)
        | true ↦ elim (io incr_ip) [
          | false ↦ (some redis_down, record s { phone_counts = phones })
          | true ↦ (
            if ltb cfg.max_requests_per_phone phone_count || ltb cfg.max_requests_per_ip ip_count
                then some rate_limited
                else none,
            record s { phone_counts = phones; ip_counts = ips },
          )
        ]
      ]

  -- SET NX
  unfoldable pub acquire_cooldown : ℕ → Text → OtpState → Answer × OtpState
  acquire_cooldown now phone s = elim (io set_cooldown) [
    | false ↦ (some redis_down, s)
    | true ↦ elim (get now (hash phone) s.cooldowns) [
      | some _ ↦ (some cooldown, s)
      | none ↦ (
        none,
        record s { cooldowns = put (hash phone) tt (now + cfg.resend_cooldown) s.cooldowns },
      )
    ]
  ]

  unfoldable pub release_cooldown : Text → OtpState → Answer × OtpState
  release_cooldown phone s = elim (io del_cooldown) [
    | false ↦ (some redis_down, s)
    | true ↦ (none, record s { cooldowns = del (hash phone) s.cooldowns })
  ]

  unfoldable pub store : ℕ → Text → Text → OtpState → Answer × OtpState
  store now phone code s = elim (io exec_store) [
    | false ↦ (some redis_down, s)
    | true ↦ (
      none,
      record s {
        challenges =
            put (hash phone) (record { code_hash = hash code; attempts = 0 }) (now + cfg.code_ttl)
              s.challenges;
      },
    )
  ]

  -- verifyOTPScript on the challenge that it found.
  unfoldable pub judge : Text → Text → Slot Challenge → OtpState → Answer × OtpState
  judge phone code c s =
      let without = record s { challenges = del (hash phone) s.challenges } in
      if leb cfg.max_attempts c.value.attempts
      then (some locked, without)
      else if text_eq c.value.code_hash (hash code)
      then (none, without)
      else if leb cfg.max_attempts (suc c.value.attempts)
      then (some locked, without)
      else (
        some otp_not_found,
        record s {
          challenges =
              put (hash phone)
                (record { code_hash = c.value.code_hash; attempts = suc c.value.attempts })
                c.expires_at s.challenges;
        },
      )

  unfoldable pub verify : ℕ → Text → Text → OtpState → Answer × OtpState
  unfolding judge
  verify now phone code s = elim (io run_verify) [
    | false ↦ (some redis_down, s)
    | true ↦ elim (get now (hash phone) s.challenges) [
      | none ↦ (some otp_not_found, s)
      | some c ↦ judge phone code c s
    ]
  ]
