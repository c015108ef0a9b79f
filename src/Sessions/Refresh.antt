-- ===== src/Sessions/Refresh.antt =====
-- `CustomerAuthService.Refresh`, `Logout` and `LogoutAll`. The audit events, whose failure is only
-- logged, are left out; `hash` is auth.HashOpaqueToken.
use promo_go.Base.{ℕ, ◌+◌, Bool, true, false, Option, none, some, Text, if◌then◌else◌}
use promo_go.Qr.Resolve.{find_account_by_id, is_active}
use promo_go.Sessions.Table.{
  Session, SessionDb, SessionCall, Claim, rotated, reused, not_found, broken, NewSession,
  claim_for_rotation, revoke_all_for_account, revoke, find_session, load_account, load_session,
  revoke_session, revoke_all, sign_token,
}

pub record Tokens : Type 0 where
  pub account : ℕ
  pub refresh_token : Text
  pub refresh_token_expires_at : ℕ

pub data Refreshed : Type 0 where
  granted : Tokens → Refreshed
  session_invalid account_blocked failed : Refreshed

module _ (hash : Text → Text) (ttl : ℕ) (io : SessionCall → Bool) where
  -- LogoutAll; its own error is the caller's to log or to return.
  unfoldable pub logout_all : ℕ → ℕ → SessionDb → Bool × SessionDb
  logout_all now account db = elim (io revoke_all) [
    | false ↦ (false, db)
    | true ↦ (true, record db { sessions = revoke_all_for_account now account db.sessions })
  ]

  -- The account's status, and the access token.
  unfoldable pub grant : ℕ → Text → Session → SessionDb → Refreshed × SessionDb
  unfolding logout_all
  grant now token new db = elim (io load_account) [
    | false ↦ (failed, db)
    | true ↦ elim (find_account_by_id new.customer_account_id db.accounts) [
      | none ↦ (failed, db)
      | some a ↦
          (if is_active a.status
            then (
              (if io sign_token
                  then granted (record {
                    account = new.customer_account_id;
                    refresh_token = token;
                    refresh_token_expires_at = new.expires_at;
                  })
                  else failed),
              db,
            )
            else (account_blocked, (logout_all now new.customer_account_id db).1))
    ]
  ]

  unfoldable pub after_claim : ℕ → Text → Claim × SessionDb → Refreshed × SessionDb
  unfolding grant logout_all
  after_claim now token (rotated old new, db) = grant now token new db
  after_claim now token (reused old, db) =
      (session_invalid, (logout_all now old.customer_account_id db).1)
  after_claim now token (not_found, db) = (session_invalid, db)
  after_claim now token (broken, db) = (failed, db)

  abbrev pub new_session : ℕ → Text → Text → Text → NewSession
  new_session now token ip user_agent = record {
    refresh_token_hash = hash token;
    expires_at = now + ttl;
    user_agent = user_agent;
    ip = ip;
  }

  -- `generated` is auth.GenerateRefreshToken's token, if it gives one.
  unfoldable pub refresh : ℕ → Option Text → Text → Text → Text → SessionDb → Refreshed × SessionDb
  unfolding after_claim
  refresh now none refresh_token ip user_agent db = (failed, db)
  refresh now (some token) refresh_token ip user_agent db =
      after_claim now token
        (claim_for_rotation io now (hash refresh_token) (new_session now token ip user_agent) db)

  -- Whether it ends without an error.
  unfoldable pub logout : ℕ → Text → SessionDb → Bool × SessionDb
  logout now refresh_token db = elim (io load_session) [
    | false ↦ (false, db)
    | true ↦ elim (find_session (hash refresh_token) db.sessions) [
      | none ↦ (true, db)
      | some s ↦ elim (io revoke_session) [
        | false ↦ (false, db)
        | true ↦ (true, record db { sessions = revoke now s.id db.sessions })
      ]
    ]
  ]
