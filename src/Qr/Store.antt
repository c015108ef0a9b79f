-- ===== src/Qr/Store.antt =====
-- `qrStore`. `hash` is SHA-256 (auth.HashOpaqueToken), a parameter. The prefixes of the keys
-- ("qr:token:", "qr:claim:", "qr:issue-cooldown:", "qr:consume-cooldown:") keep four key spaces
-- apart. Durations are milliseconds.
use promo_go.Base.{
  ℕ, ◌+◌, ◌-◌, Bool, true, false, Option, none, some, ◌++◌, Text, text_eq, length, take, drop,
  codes, leb, ◌||◌, not, ◌==◌, if◌then◌else◌,
}
use promo_go.Redis.{Keys, get, put, del}

pub record QrConfig : Type 0 where
  pub ttl : ℕ
  pub issue_cooldown : ℕ
  pub consume_cooldown : ℕ

pub record QrState : Type 0 where
  pub tokens : Keys ℕ
  pub claims : Keys ℕ
  pub issue_cooldowns : Keys (Unit {0})
  pub consume_cooldowns : Keys (Unit {0})

-- The commands that can fail, and the token generator.
pub data QrCall : Type 0 where
  set_issue_cooldown read_ttl generate set_token : QrCall
  set_consume_cooldown run_claim run_release del_claim : QrCall

pub data QrError : Type 0 where
  issue_cooldown_active consume_cooldown_active gone malformed redis_failed : QrError

pub data Outcome {ℓ} (A : Type ℓ) : Type ℓ where
  done : A → Outcome A
  refused : QrError → Outcome A

-- 30 seconds
abbrev pub claim_ttl : ℕ
claim_ttl = 30000

abbrev pub payload_version : Text
payload_version = codes "v1."

unfoldable pub parse_qr_payload : Text → Option Text
parse_qr_payload payload =
    if leb (length payload) (length payload_version)
      || not (text_eq (take (length payload_version) payload) payload_version)
    then none
    else some (drop (length payload_version) payload)

pub record Issued : Type 0 where
  pub payload : Text
  pub expires_at : ℕ

module _ (hash : Text → Text) (cfg : QrConfig) (io : QrCall → Bool) where
  -- Minting and storing a token; `token` is the generator's.
  unfoldable pub mint : ℕ → ℕ → Text → QrState → Outcome Issued × QrState
  mint now account token q = elim (io generate) [
    | false ↦ (refused redis_failed, q)
    | true ↦ elim (io set_token) [
      | false ↦ (refused redis_failed, q)
      | true ↦ (
        done (record { payload = payload_version ++ token; expires_at = now + cfg.ttl }),
        record q { tokens = put (hash token) account (now + cfg.ttl) q.tokens },
      )
    ]
  ]

  -- `account_key` is the account's id, written out. The deferred closure tests the error of the
  -- SETNX, whose name hides the result's, so that it never deletes the cooldown.
  unfoldable pub issue : ℕ → ℕ → Text → Text → QrState → Outcome Issued × QrState
  unfolding mint
  issue now account account_key token q =
      if cfg.issue_cooldown == 0 then mint now account token q else elim (io set_issue_cooldown) [
        | false ↦ (refused redis_failed, q)
        | true ↦ elim (get now account_key q.issue_cooldowns) [
          | some _ ↦ (refused (if io read_ttl then issue_cooldown_active else redis_failed), q)
          | none ↦ mint now account token (record q {
            issue_cooldowns = put account_key tt (now + cfg.issue_cooldown) q.issue_cooldowns;
          })
        ]
      ]

  unfoldable pub check_consume_cooldown : ℕ → Text → QrState → Outcome (Unit {0}) × QrState
  check_consume_cooldown now principal q =
      if cfg.consume_cooldown == 0 then (done tt, q) else elim (io set_consume_cooldown) [
        | false ↦ (refused redis_failed, q)
        | true ↦ elim (get now (hash principal) q.consume_cooldowns) [
          | some _ ↦ (refused (if io read_ttl then consume_cooldown_active else redis_failed), q)
          | none ↦ (
            done tt,
            record q {
              consume_cooldowns =
                  put (hash principal) tt (now + cfg.consume_cooldown) q.consume_cooldowns;
            },
          )
        ]
      ]

  -- qrClaimScript
  unfoldable pub claim_hash : ℕ → Text → QrState → Outcome ℕ × QrState
  claim_hash now h q = elim (io run_claim) [
    | false ↦ (refused redis_failed, q)
    | true ↦ elim (get now h q.tokens) [
      | none ↦ (refused gone, q)
      | some t ↦ (
        done t.value,
        record q { tokens = del h q.tokens; claims = put h t.value (now + claim_ttl) q.claims },
      )
    ]
  ]

  abbrev pub with_hash : Text → Outcome ℕ × QrState → Outcome (ℕ × Text) × QrState
  with_hash h (done account, q) = (done (account, h), q)
  with_hash h (refused e, q) = (refused e, q)

  unfoldable pub claim : ℕ → Text → QrState → Outcome (ℕ × Text) × QrState
  unfolding claim_hash parse_qr_payload
  claim now payload q = elim (parse_qr_payload payload) [
    | none ↦ (refused malformed, q)
    | some token ↦ with_hash (hash token) (claim_hash now (hash token) q)
  ]

  unfoldable pub finalize : Text → QrState → QrState
  finalize h q = elim (io del_claim) [ true ↦ record q { claims = del h q.claims } | false ↦ q ]

  -- qrReleaseScript: PTTL of a claim that is there is positive.
  unfoldable pub release : ℕ → Text → QrState → QrState
  release now h q = elim (io run_release) [
    | false ↦ q
    | true ↦ elim (get now h q.claims) [
      | none ↦ q
      | some c ↦
          (let left = c.expires_at - now in
            record q {
              claims = del h q.claims;
              tokens = put h c.value (now + (if left == 0 then claim_ttl else left)) q.tokens;
            })
    ]
  ]
