-- ===== src/RateLimit/Window.antt =====
-- The requests that `Limiter.Allow` passes in one window.
use promo_go.Base.{
  ℕ, suc, ◌+◌, ◌-◌, if◌then◌else◌, ◌<◌, ◌≡◌, true, none, some, List, [], ◌∷◌, Text, arith, All,
  length, ltb,
}
use promo_go.Redis.{Keys, get, put, get-put_self}
use promo_go.RateLimit.{Verdict, allowed, unavailable, limited, allow, check_and_incr}

-- The requests of one key at the given times, and how many of them pass.
abbrev pub one_if_allowed : Verdict → ℕ
one_if_allowed allowed = 1
one_if_allowed unavailable = 0
one_if_allowed (limited _) = 0

unfoldable pub admitted : List ℕ → Text → ℕ → ℕ → Keys ℕ → ℕ
admitted [] key limit window m = 0
admitted (now ∷ times) key limit window m =
    let (v, m') = allow true now key limit window m in
    one_if_allowed v + admitted times key limit window m'

abbrev pub fewer : ℕ → ℕ → ℕ
fewer a b = if ltb a b then a else b

-- The counter stands at `n` and expires at `e`.
abbrev pub Live : Text → ℕ → ℕ → Keys ℕ → Type 0
Live key n e m =
    (t : ℕ) → t < e → get t key m ≡ some (record { key = key; value = n; expires_at = e })

pub put-Live : (key : Text) (n e : ℕ) (m : Keys ℕ) → Live key n e (put key n e m)
put-Live key n e m t lt = ground (arith, get-put_self t key n e m)

-- A request that meets a live counter passes if it stands below the limit, and counts.
pub allow-Live :
    (t : ℕ) (key : Text) (limit window n e : ℕ) (m : Keys ℕ)
    → t < e
    → Live key n e m
    → (one_if_allowed (allow true t key limit window m).0 ≡ (if ltb n limit then 1 else 0))
      × Live key (suc n) e (allow true t key limit window m).1
unfolding allow check_and_incr
allow-Live t key limit window n e m lt live = ground (arith, live t lt, put-Live key (suc n) e m)

pub admitted-Live :
    (times : List ℕ) (key : Text) (limit window n e : ℕ) (m : Keys ℕ)
    → All (λ t. t < e) times
    → Live key n e m
    → admitted times key limit window m ≡ fewer (limit - n) (length times)
unfolding admitted
admitted-Live [] key limit window n e m before live = ground arith
admitted-Live (t ∷ times) key limit window n e m (lt, before) live = ground (
  arith,
  allow-Live t key limit window n e m lt live,
  admitted-Live times key limit window (suc n) e (allow true t key limit window m).1 before,
)

-- Of the requests for one key that a window sees, from the one that opens it to its end, the first
-- ones up to the limit pass and no others, if Redis answers them all.
pub admitted_window :
    (now : ℕ) (times : List ℕ) (key : Text) (limit window : ℕ) (m : Keys ℕ)
    → get now key m ≡ none
    → All (λ t. t < now + window) times
    → admitted (now ∷ times) key limit window m ≡ fewer limit (suc (length times))
unfolding admitted allow check_and_incr
admitted_window now times key limit window m fresh before = ground (
  arith,
  admitted-Live times key limit window 1 (now + window) (put key 1 (now + window) m) before
      (put-Live key 1 (now + window) m),
)
