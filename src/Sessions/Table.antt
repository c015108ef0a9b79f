-- ===== src/Sessions/Table.antt =====
-- `CustomerSessionRepository`. Rows stand newest first; refresh_token_hash is unique.
use promo_go.Base.{
  ℕ, suc, Bool, true, false, Option, none, some, List, [], ◌∷◌, Text, text_eq, ltb, ◌==◌,
  if◌then◌else◌,
}
use promo_go.Domain.{CustomerAccount}

pub record Session : Type 0 where
  pub id : ℕ
  pub customer_account_id : ℕ
  pub refresh_token_hash : Text
  pub replaced_by_id : Option ℕ
  pub issued_at : ℕ
  pub expires_at : ℕ
  pub revoked_at : Option ℕ
  pub user_agent : Text
  pub ip : Text

pub record SessionDb : Type 0 where
  pub sessions : List Session
  pub accounts : List CustomerAccount
  pub next_id : ℕ

-- The calls of the database that can fail, the generator of tokens and the signer of access
-- tokens.
pub data SessionCall : Type 0 where
  begin_tx lock_session insert_session link_session commit : SessionCall
  load_account load_session revoke_session revoke_all sign_token : SessionCall

-- SELECT ... FROM customer_sessions WHERE refresh_token_hash = $1
unfoldable pub find_session : Text → List Session → Option Session
find_session h [] = none
find_session h (s ∷ ss) = if text_eq s.refresh_token_hash h then some s else find_session h ss

-- UPDATE customer_sessions SET revoked_at = now(), replaced_by_id = $2 WHERE id = $1
unfoldable pub link : ℕ → ℕ → ℕ → List Session → List Session
link now id new_id [] = []
link now id new_id (s ∷ ss) =
    (if s.id == id then record s { revoked_at = some now; replaced_by_id = some new_id } else s)
    ∷ link now id new_id ss

abbrev pub revoke_row : ℕ → Session → Option ℕ → Session
revoke_row now s none = record s { revoked_at = some now }
revoke_row now s (some _) = s

-- UPDATE customer_sessions SET revoked_at = now() WHERE id = $1 AND revoked_at IS NULL
unfoldable pub revoke : ℕ → ℕ → List Session → List Session
revoke now id [] = []
revoke now id (s ∷ ss) =
    (if s.id == id then revoke_row now s s.revoked_at else s) ∷ revoke now id ss

-- UPDATE customer_sessions SET revoked_at = now() WHERE customer_account_id = $1 AND revoked_at IS NULL
unfoldable pub revoke_all_for_account : ℕ → ℕ → List Session → List Session
revoke_all_for_account now account [] = []
revoke_all_for_account now account (s ∷ ss) =
    (if s.customer_account_id == account then revoke_row now s s.revoked_at else s)
    ∷ revoke_all_for_account now account ss

-- What the caller gives of a session to be made.
pub record NewSession : Type 0 where
  pub refresh_token_hash : Text
  pub expires_at : ℕ
  pub user_agent : Text
  pub ip : Text

abbrev pub session_row : ℕ → ℕ → ℕ → NewSession → Session
session_row now id account n = record {
  id = id;
  customer_account_id = account;
  refresh_token_hash = n.refresh_token_hash;
  replaced_by_id = none;
  issued_at = now;
  expires_at = n.expires_at;
  revoked_at = none;
  user_agent = n.user_agent;
  ip = n.ip;
}

-- What a claim ends in: the old session and the one in its place, or an error; `reused` still
-- gives the old session.
pub data Claim : Type 0 where
  rotated : Session → Session → Claim
  reused : Session → Claim
  not_found broken : Claim

module _ (io : SessionCall → Bool) where
  -- The insert, the link and the commit; a failure of any rolls all back.
  unfoldable pub rotate : ℕ → Session → NewSession → SessionDb → Claim × SessionDb
  rotate now old n db =
      let new = session_row now db.next_id old.customer_account_id n in
      elim (io insert_session) [
        | false ↦ (broken, db)
        | true ↦ elim (find_session n.refresh_token_hash db.sessions) [
          | some _ ↦ (broken, db)
          | none ↦ elim (io link_session) [
            | false ↦ (broken, db)
            | true ↦ elim (io commit) [
              | false ↦ (broken, db)
              | true ↦ (
                rotated old new,
                record db {
                  sessions = link now old.id db.next_id (new ∷ db.sessions);
                  next_id = suc db.next_id;
                },
              )
            ]
          ]
        ]
      ]

  -- The guards on the locked row.
  unfoldable pub check_old : ℕ → Session → NewSession → SessionDb → Claim × SessionDb
  unfolding rotate
  check_old now old n db = elim old.revoked_at [
    | some _ ↦ (reused old, db)
    | none ↦ if ltb old.expires_at now then (not_found, db) else rotate now old n db
  ]

  unfoldable pub claim_for_rotation : ℕ → Text → NewSession → SessionDb → Claim × SessionDb
  unfolding check_old
  claim_for_rotation now old_hash n db = elim (io begin_tx) [
    | false ↦ (broken, db)
    | true ↦ elim (io lock_session) [
      | false ↦ (broken, db)
      | true ↦ elim (find_session old_hash db.sessions) [
        | none ↦ (not_found, db)
        | some old ↦ check_old now old n db
      ]
    ]
  ]
