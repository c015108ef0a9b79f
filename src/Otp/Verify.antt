-- ===== src/Otp/Verify.antt =====
-- Uses of one code, and guesses at it.
use promo_go.Base.{
  ℕ, suc, ◌+◌, ◌≤◌, ◌≡◌, ◌≢◌, Bool, true, Option, none, some, List, [], ◌∷◌, Text, arith, length,
  Option-cases, inl, inr, eq_of_text_eq,
}
use native.Mathlib.Nat.{add-zero, add-suc, suc-add}
use promo_go.Redis.{get, get-put_self, get-del_self, Slot, get_expired}
use promo_go.Otp.Store.{
  OtpConfig, OtpState, OtpCall, run_verify, otp_not_found, Challenge, verify, exec_store, store,
}

module _ (hash : Text → Text) (cfg : OtpConfig) (io : OtpCall → Bool)
    (up : io run_verify ≡ true) where
  -- After a code has been accepted, no code is accepted for that phone until a new one is stored.
  pub verify_once :
      (now later : ℕ) (phone code again : Text) (s : OtpState)
      → (verify hash cfg io now phone code s).0 ≡ none
      → (verify hash cfg io later phone again (verify hash cfg io now phone code s).1).0
        ≡ some otp_not_found
  unfolding verify
  verify_once now later phone code again s h =
      ground (arith, get-del_self later (hash phone) s.challenges)

  -- A run of guesses, each at its own time.
  unfoldable pub verify_all : Text → List (ℕ × Text) → OtpState → OtpState
  verify_all phone [] s = s
  verify_all phone ((now, code) ∷ gs) s =
      verify_all phone gs (verify hash cfg io now phone code s).1

  -- A challenge for the code that hashes to `secret`, with `n` attempts or more behind it; or none.
  abbrev Spent : Text → ℕ → Option (Slot Challenge) → Type 0
  Spent secret n none = Unit
  Spent secret n (some c) = (c.value.code_hash ≡ secret) × (n ≤ c.value.attempts)

  -- From time `t` on.
  abbrev Tried : Text → Text → ℕ → ℕ → OtpState → Type 0
  Tried phone secret t n s =
      (now : ℕ) → t ≤ now → Spent secret n (get now (hash phone) s.challenges)

  -- The guesses come one after another, and none of them is the code.
  abbrev pub Wrong : Text → ℕ → List (ℕ × Text) → Type 0
  Wrong secret t [] = Unit
  Wrong secret t ((now, code) ∷ gs) = (t ≤ now) × (hash code ≢ secret) × Wrong secret now gs

  verify-Tried :
      (phone secret code : Text) (t now n : ℕ) (s : OtpState)
      → Tried phone secret t n s
      → t ≤ now
      → hash code ≢ secret
      → Tried phone secret now (suc n) (verify hash cfg io now phone code s).1
  unfolding verify
  verify-Tried phone secret code t now n s h le wrong later after =
      elim (Option-cases (get now (hash phone) s.challenges)) [
        | inl gone ↦ ground (arith, get_expired now later (hash phone) s.challenges)
        | inr (c, there) ↦ ground (
          arith,
          h now le,
          get-del_self later (hash phone) s.challenges,
          eq_of_text_eq c.value.code_hash (hash code),
          get-put_self later (hash phone)
              (record { code_hash = c.value.code_hash; attempts = suc c.value.attempts })
              c.expires_at s.challenges,
        )
      ]

  -- The time of the last guess.
  abbrev pub last_time : ℕ → List (ℕ × Text) → ℕ
  last_time t [] = t
  last_time t ((now, code) ∷ gs) = last_time now gs

  verify_all-Tried :
      (phone secret : Text) (t n : ℕ) (gs : List (ℕ × Text)) (s : OtpState)
      → Tried phone secret t n s
      → Wrong secret t gs
      → Tried phone secret (last_time t gs) (n + length gs) (verify_all phone gs s)
  unfolding verify_all
  verify_all-Tried phone secret t n [] s h w = rw add-zero h
  verify_all-Tried phone secret t n ((now, code) ∷ gs) s h w =
      rw (add-suc, ← suc-add)
        (verify_all-Tried phone secret now (suc n) gs (verify hash cfg io now phone code s).1
          (verify-Tried phone secret code t now n s h w.0 w.1) w.2)

  exhausted :
      (phone secret code : Text) (t now : ℕ) (s : OtpState)
      → Tried phone secret t cfg.max_attempts s
      → t ≤ now
      → (verify hash cfg io now phone code s).0 ≢ none
  unfolding verify
  exhausted phone secret code t now s h le = ground (arith, h now le)

  stored-Tried :
      (phone code : Text) (t : ℕ) (s : OtpState)
      → io exec_store ≡ true
      → Tried phone (hash code) t 0 (store hash cfg io t phone code s).1
  unfolding store
  stored-Tried phone code t s e now le = ground (
    arith,
    get-put_self now (hash phone) (record { code_hash = hash code; attempts = 0 })
        (t + cfg.code_ttl) s.challenges,
  )

  Tried-weaken :
      (phone secret : Text) (t n m : ℕ) (s : OtpState)
      → m ≤ n
      → Tried phone secret t n s
      → Tried phone secret t m s
  Tried-weaken phone secret t n m s le h now after = ground (arith, h now after)

  -- A new code survives fewer than `max_attempts` wrong guesses: after that many, one after
  -- another, nothing is accepted for the phone, not even the code itself.
  pub verify_bounded :
      (phone code : Text) (t : ℕ) (gs : List (ℕ × Text)) (s : OtpState) (again : Text) (now : ℕ)
      → io exec_store ≡ true
      → Wrong (hash code) t gs
      → cfg.max_attempts ≤ length gs
      → last_time t gs ≤ now
      → (verify hash cfg io now phone again
          (verify_all phone gs (store hash cfg io t phone code s).1)).0
        ≢ none
  verify_bounded phone code t gs s again now e w enough le =
      exhausted phone (hash code) again (last_time t gs) now
        (verify_all phone gs (store hash cfg io t phone code s).1)
        (Tried-weaken phone (hash code) (last_time t gs) (0 + length gs) cfg.max_attempts
          (verify_all phone gs (store hash cfg io t phone code s).1) (omega arith)
          (verify_all-Tried phone (hash code) t 0 gs (store hash cfg io t phone code s).1
            (stored-Tried phone code t s e) w))
        le
