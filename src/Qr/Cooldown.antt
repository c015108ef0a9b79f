-- ===== src/Qr/Cooldown.antt =====
-- The cooldown of `issue` in internal/service/qr_store.go.
use promo_go.Base.{
  ℕ, ◌+◌, ◌<◌, ◌≡◌, ◌==◌, Bool, true, false, none, Text, arith, Bool-cases, inl, inr,
}
use promo_go.Redis.{get, put, get-put_self}
use promo_go.Qr.Store.{
  QrConfig, QrState, QrCall, set_issue_cooldown, read_ttl, generate, set_token, refused,
  issue_cooldown_active, mint, issue,
}

module _ (hash : Text → Text) (cfg : QrConfig) where
  pub mint-issue_cooldowns :
      (io : QrCall → Bool) (now account : ℕ) (token : Text) (q : QrState)
      → (mint hash cfg io now account token q).1.issue_cooldowns ≡ q.issue_cooldowns
  unfolding mint
  mint-issue_cooldowns io now account token q = elim (Bool-cases (io generate)) [
    | inr down ↦ ground arith
    | inl up ↦ elim (Bool-cases (io set_token)) [
      | inl works ↦ ground arith
      | inr fails ↦ ground arith
    ]
  ]

  -- Once a request has taken the cooldown of an account, and whether it ended in a token or in an
  -- error, a later one for the account is refused and changes nothing until the cooldown ends, if
  -- Redis answers it.
  pub issue_keeps_cooldown :
      (io io' : QrCall → Bool) (now later account : ℕ) (account_key token token' : Text)
      (q : QrState)
      → io set_issue_cooldown ≡ true
      → (cfg.issue_cooldown == 0) ≡ false
      → get now account_key q.issue_cooldowns ≡ none
      → io' set_issue_cooldown ≡ true
      → io' read_ttl ≡ true
      → later < now + cfg.issue_cooldown
      → let q' = (issue hash cfg io now account account_key token q).1 in
        issue hash cfg io' later account account_key token' q' ≡ (refused issue_cooldown_active, q')
  unfolding issue
  issue_keeps_cooldown io io' now later account account_key token token' q set on free set' ttl'
        lt =
      let taken = record q {
        issue_cooldowns = put account_key tt (now + cfg.issue_cooldown) q.issue_cooldowns;
      } in
      ground (
        arith,
        mint-issue_cooldowns io now account token taken,
        get-put_self later account_key tt (now + cfg.issue_cooldown) q.issue_cooldowns,
      )
