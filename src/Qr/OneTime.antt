-- ===== src/Qr/OneTime.antt =====
-- The life of a token in the `qrStore`: claimed, finalized or released.
use promo_go.Base.{ℕ, ◌+◌, ◌<◌, ◌≤◌, ◌≡◌, Bool, true, Text, arith, Option-cases, inl, inr}
use promo_go.Redis.{get, del, get-put_self, get-del_self}
use promo_go.Qr.Store.{
  QrConfig, QrState, QrCall, done, refused, gone, claim, claim_hash, release, finalize, claim_ttl,
  parse_qr_payload, run_claim, run_release,
}

module _ (hash : Text → Text) (cfg : QrConfig) (io : QrCall → Bool) where
  -- A payload whose claim succeeded is gone for every later claim, of whatever time, before and
  -- after the claim is finalized, if Redis answers.
  pub claim_once :
      (now later : ℕ) (payload : Text) (account : ℕ) (h : Text) (q : QrState)
      → io run_claim ≡ true
      → (claim hash cfg io now payload q).0 ≡ done (account, h)
      → ((claim hash cfg io later payload (claim hash cfg io now payload q).1).0 ≡ refused gone)
        × ((claim hash cfg io later payload
              (finalize hash cfg io h (claim hash cfg io now payload q).1)).0
            ≡ refused gone)
  unfolding claim claim_hash finalize
  claim_once now later payload account h q up won = elim (Option-cases (parse_qr_payload payload)) [
    | inl bad ↦ absurd (ground arith)
    | inr (token, good) ↦ ground (arith, get-del_self later (hash token) q.tokens)
  ]

  -- A claim that is released before it expires can be made again, for the same account, until the
  -- time at which the claim would have expired.
  pub claim-after_release :
      (now mid later : ℕ) (payload : Text) (account : ℕ) (h : Text) (q : QrState)
      → io run_claim ≡ true
      → io run_release ≡ true
      → (claim hash cfg io now payload q).0 ≡ done (account, h)
      → mid < now + claim_ttl
      → later < now + claim_ttl
      → now ≤ mid
      → (claim hash cfg io later payload
          (release hash cfg io mid h (claim hash cfg io now payload q).1)).0
        ≡ done (account, h)
  unfolding claim claim_hash release
  claim-after_release now mid later payload account h q up up' won early within after =
      elim (Option-cases (parse_qr_payload payload)) [
        | inl bad ↦ absurd (ground arith)
        | inr (token, good) ↦ elim (Option-cases (get now (hash token) q.tokens)) [
          | inl dead ↦ absurd (ground arith)
          | inr (t, live) ↦ ground (
            arith,
            get-put_self mid (hash token) t.value (now + claim_ttl) q.claims,
            get-put_self later (hash token) t.value (now + claim_ttl) (del (hash token) q.tokens),
          )
        ]
      ]
