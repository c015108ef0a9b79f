-- ===== src/Otp/Request.antt =====
-- `CustomerAuthService.RequestOTP`, and how it leaves the resend cooldown.
use promo_go.Base.{
  ℕ, ◌+◌, ◌<◌, ◌≡◌, ◌≢◌, Bool, true, false, Option, none, some, Text, arith, Option-cases, ◌⊎◌, inl,
  inr,
}
use promo_go.Phone.{normalize_phone}
use promo_go.Redis.{get, get-put_self, get-del_self, put}
use promo_go.Otp.Store.{
  OtpConfig, OtpState, OtpCall, del_cooldown, exec_store, check_rate_limit, acquire_cooldown,
  release_cooldown, store,
}

-- What the request ends in; `failed` wraps an error of the code generator, of Redis or of the SMS
-- gateway.
pub data Requested : Type 0 where
  sent invalid_phone otp_cooldown otp_rate_limited failed : Requested

-- What the parts outside this repository do: the generator's code, if it gives one, and whether
-- the gateway takes the message.
pub record Outside : Type 0 where
  pub code : Option Text
  pub sms_sent : Bool

module _ (hash : Text → Text) (cfg : OtpConfig) (io : OtpCall → Bool) where
  -- The message to the phone; a failed one releases the cooldown.
  unfoldable pub send_code : Outside → Text → OtpState → Requested × OtpState
  send_code out phone s = elim out.sms_sent [
    | true ↦ (sent, s)
    | false ↦ (failed, (release_cooldown hash cfg io phone s).1)
  ]

  -- From a code on: neither a failing generator nor a failing store releases the cooldown.
  unfoldable pub issue_code : ℕ → Outside → Text → OtpState → Requested × OtpState
  unfolding send_code
  issue_code now out phone s = elim out.code [
    | none ↦ (failed, s)
    | some code ↦
        (let (answer, stored) = store hash cfg io now phone code s in
          elim answer [ some _ ↦ (failed, stored) | none ↦ send_code out phone stored ])
  ]

  unfoldable pub request_for : ℕ → Outside → Text → Text → OtpState → Requested × OtpState
  unfolding issue_code
  request_for now out phone ip s =
      let (claimed, s1) = acquire_cooldown hash cfg io now phone s in
      elim claimed [
        | some _ ↦ (otp_cooldown, s1)
        | none ↦
            (let (limited, s2) = check_rate_limit hash cfg io now phone ip s1 in
              elim limited [
                | some _ ↦ (otp_rate_limited, (release_cooldown hash cfg io phone s2).1)
                | none ↦ issue_code now out phone s2
              ])
      ]

  unfoldable pub request_otp : ℕ → Outside → Text → Text → OtpState → Requested × OtpState
  unfolding request_for
  request_otp now out raw_phone ip s = elim (normalize_phone raw_phone) [
    | none ↦ (invalid_phone, s)
    | some phone ↦ request_for now out phone ip s
  ]

  -- After a code has gone out, a second request for the phone within the cooldown is refused and
  -- changes nothing.
  pub request_otp_cooldown :
      (now later : ℕ) (out out' : Outside) (raw_phone ip ip' : Text) (s : OtpState)
      → (request_otp now out raw_phone ip s).0 ≡ sent
      → later < now + cfg.resend_cooldown
      → request_otp later out' raw_phone ip' (request_otp now out raw_phone ip s).1
        ≡ (otp_cooldown, (request_otp now out raw_phone ip s).1)
  unfolding request_otp acquire_cooldown check_rate_limit store
  request_otp_cooldown now later out out' raw_phone ip ip' s h within =
      elim (Option-cases (normalize_phone raw_phone)) [
        | inl bad ↦ absurd (ground arith)
        | inr (phone, good) ↦
            ground
              (arith, get-put_self later (hash phone) tt (now + cfg.resend_cooldown) s.cooldowns)
      ]

  -- A request that was refused for its rate, or whose message could not be sent, leaves no
  -- cooldown behind, if Redis takes the release.
  pub request_otp_releases :
      (now later : ℕ) (out : Outside) (raw_phone phone ip : Text) (s : OtpState)
      → io del_cooldown ≡ true
      → normalize_phone raw_phone ≡ some phone
      → ((request_otp now out raw_phone ip s).0 ≡ otp_rate_limited)
        ⊎ (((request_otp now out raw_phone ip s).0 ≡ failed)
            × (out.sms_sent ≡ false)
            × (out.code ≢ none)
            × (io exec_store ≡ true))
      → get later (hash phone) (request_otp now out raw_phone ip s).1.cooldowns ≡ none
  unfolding request_otp acquire_cooldown check_rate_limit store release_cooldown
  request_otp_releases now later out raw_phone phone ip s up good h = ground (
    arith,
    get-del_self later (hash phone) (put (hash phone) tt (now + cfg.resend_cooldown) s.cooldowns),
  )

  -- A request that fails because no code could be made or stored keeps the cooldown that it took:
  -- until it ends, the phone gets no code.
  pub request_otp_keeps_cooldown :
      (now later : ℕ) (out out' : Outside) (raw_phone ip ip' : Text) (s : OtpState)
      → (request_otp now out raw_phone ip s).0 ≡ failed
      → (out.code ≡ none) ⊎ (io exec_store ≡ false)
      → later < now + cfg.resend_cooldown
      → (request_otp later out' raw_phone ip' (request_otp now out raw_phone ip s).1).0
        ≡ otp_cooldown
  unfolding request_otp acquire_cooldown check_rate_limit store
  request_otp_keeps_cooldown now later out out' raw_phone ip ip' s h broken within =
      elim (Option-cases (normalize_phone raw_phone)) [
        | inl bad ↦ absurd (ground arith)
        | inr (phone, good) ↦
            ground
              (arith, get-put_self later (hash phone) tt (now + cfg.resend_cooldown) s.cooldowns)
      ]
