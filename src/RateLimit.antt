-- ===== src/RateLimit.antt =====
-- internal/ratelimit/limiter.go: the counters in Redis and `Limiter.Allow`. Times are milliseconds.
pub mod Window
pub mod Guard
pub mod Spent
pub mod Rules
use promo_go.Base.{
  ℕ, suc, ◌+◌, ◌-◌, Bool, true, false, Option, none, some, Text, ltb, if◌then◌else◌,
}
use promo_go.Redis.{Keys, Slot, get, put}

-- What `Allow` answers: pass, wait this long, or an error of Redis.
pub data Verdict : Type 0 where
  allowed unavailable : Verdict
  limited : ℕ → Verdict

-- checkAndIncrScript: the counter's new value and the time that is left, and the keys. INCR keeps
-- the expiry of a key that is there; a new key has none, so PTTL is negative and PEXPIRE runs.
unfoldable pub check_and_incr : ℕ → Text → ℕ → Keys ℕ → (ℕ × ℕ) × Keys ℕ
check_and_incr now key window m = elim (get now key m) [
  | some s ↦ ((suc s.value, s.expires_at - now), put key (suc s.value) s.expires_at m)
  | none ↦ ((1, window), put key 1 (now + window) m)
]

-- `up` tells whether the script runs.
unfoldable pub allow : Bool → ℕ → Text → ℕ → ℕ → Keys ℕ → Verdict × Keys ℕ
unfolding check_and_incr
allow up now key limit window m = elim up [
  | false ↦ (unavailable, m)
  | true ↦
      (let ((count, left), m') = check_and_incr now key window m in
        ((if ltb limit count then limited left else allowed), m'))
]
