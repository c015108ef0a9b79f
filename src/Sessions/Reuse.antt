-- ===== src/Sessions/Reuse.antt =====
-- Refresh tokens that are used again, and what a refresh or a logout leaves of the sessions.
use promo_go.Base.{
  ℕ, ◌≡◌, ◌≢◌, refl, Bool, true, none, some, List, [], ◌∷◌, Text, arith, All, Option-cases, inl,
  inr, eq_of_text_eq, subst,
}
use promo_go.Sessions.Table.{
  Session, SessionDb, SessionCall, Claim, NewSession, rotated, reused, not_found, broken,
  claim_for_rotation, check_old, rotate, link, revoke, revoke_all_for_account, find_session,
  session_row, begin_tx, lock_session, revoke_all, revoke_row,
}
use promo_go.Sessions.Refresh.{
  refresh, Tokens, granted, session_invalid, account_blocked, after_claim, grant, logout_all,
  logout, new_session,
}
use promo_go.Qr.Resolve.{find_account_by_id}

-- Every session of the account is revoked.
abbrev pub AllRevoked : ℕ → List Session → Type 0
AllRevoked account ss = All (λ s. s.customer_account_id ≡ account → s.revoked_at ≢ none) ss

pub revoke_all_for_account-AllRevoked :
    (now account : ℕ) (ss : List Session)
    → AllRevoked account (revoke_all_for_account now account ss)
unfolding revoke_all_for_account
revoke_all_for_account-AllRevoked now account [] = tt
revoke_all_for_account-AllRevoked now account (s ∷ ss) =
    (ground arith, revoke_all_for_account-AllRevoked now account ss)

-- A linked session is found under its hash, revoked.
pub find_session-link :
    (now new_id : ℕ) (h : Text) (old : Session) (ss : List Session)
    → find_session h ss ≡ some old
    → find_session h (link now old.id new_id ss)
      ≡ some (record old { revoked_at = some now; replaced_by_id = some new_id })
unfolding find_session link
find_session-link now new_id h old [] found = absurd (ground arith)
find_session-link now new_id h old (s ∷ ss) found =
    ground (arith, find_session-link now new_id h old ss)

pub find_session-revoke :
    (now : ℕ) (h : Text) (old : Session) (ss : List Session)
    → find_session h ss ≡ some old
    → find_session h (revoke now old.id ss) ≡ some (revoke_row now old old.revoked_at)
unfolding find_session revoke
find_session-revoke now h old [] found = absurd (ground arith)
find_session-revoke now h old (s ∷ ss) found = elim (Option-cases s.revoked_at) [
  | inl live ↦ ground (arith, find_session-revoke now h old ss)
  | inr (t, gone) ↦ ground (arith, find_session-revoke now h old ss)
]

-- A row with a hash that no row has hides none.
pub find_session-fresh :
    (h : Text) (new old : Session) (ss : List Session)
    → find_session new.refresh_token_hash ss ≡ none
    → find_session h ss ≡ some old
    → find_session h (new ∷ ss) ≡ some old
unfolding find_session
find_session-fresh h new old ss fresh found = ground (arith, eq_of_text_eq new.refresh_token_hash h)

module _ (hash : Text → Text) (ttl : ℕ) (io : SessionCall → Bool) where
  -- A token whose session is revoked gets nothing, and every session of its account ends.
  pub refresh-revoked :
      (now : ℕ) (token refresh_token ip user_agent : Text) (old : Session) (db : SessionDb)
      → io begin_tx ≡ true
      → io lock_session ≡ true
      → io revoke_all ≡ true
      → find_session (hash refresh_token) db.sessions ≡ some old
      → old.revoked_at ≢ none
      → ((refresh hash ttl io now (some token) refresh_token ip user_agent db).0 ≡ session_invalid)
        × AllRevoked old.customer_account_id
            (refresh hash ttl io now (some token) refresh_token ip user_agent db).1.sessions
  unfolding refresh after_claim claim_for_rotation check_old logout_all
  refresh-revoked now token refresh_token ip user_agent old db b l r found dead =
      ground (arith, revoke_all_for_account-AllRevoked now old.customer_account_id db.sessions)

  -- What a rotation leaves under the old hash.
  pub claim_for_rotation-rotated :
      (now : ℕ) (h : Text) (n : NewSession) (old new : Session) (db : SessionDb)
      → (claim_for_rotation io now h n db).0 ≡ rotated old new
      → (find_session h (claim_for_rotation io now h n db).1.sessions
          ≡ some (record old { revoked_at = some now; replaced_by_id = some db.next_id }))
        × (new.customer_account_id ≡ old.customer_account_id)
  unfolding claim_for_rotation check_old rotate
  claim_for_rotation-rotated now h n old new db won =
      elim (Option-cases (find_session h db.sessions)) [
        | inl lost ↦ absurd (ground arith)
        | inr (row, found) ↦ elim (Option-cases (find_session n.refresh_token_hash db.sessions)) [
          | inr (other, taken) ↦ absurd (ground arith)
          | inl fresh ↦
              (let made = session_row now db.next_id row.customer_account_id n in
                ground (
                  arith,
                  find_session-link now db.next_id h row (made ∷ db.sessions)
                      (find_session-fresh h made row db.sessions fresh found),
                ))
        ]
      ]

  -- Tokens come of a rotation alone, whose rows stay as they are.
  pub after_claim-granted :
      (now : ℕ) (token : Text) (t : Tokens) (c : Claim × SessionDb)
      → (after_claim hash ttl io now token c).0 ≡ granted t
      → (old : Session) × (new : Session) × (c.0 ≡ rotated old new)
        × (new.customer_account_id ≡ t.account)
        × ((after_claim hash ttl io now token c).1 ≡ c.1)
  unfolding after_claim grant
  after_claim-granted now token t (rotated old new, db) won =
      elim (Option-cases (find_account_by_id new.customer_account_id db.accounts)) [
        | inl lost ↦ absurd (ground arith)
        | inr (a, found) ↦ (old, new, refl, ground arith, ground arith)
      ]
  after_claim-granted now token t (reused old, db) won = absurd (ground arith)
  after_claim-granted now token t (not_found, db) won = absurd (ground arith)
  after_claim-granted now token t (broken, db) won = absurd (ground arith)

  -- A refresh that hands out tokens leaves the presented token behind revoked.
  pub refresh-granted :
      (now : ℕ) (token refresh_token ip user_agent : Text) (t : Tokens) (db : SessionDb)
      → (refresh hash ttl io now (some token) refresh_token ip user_agent db).0 ≡ granted t
      → (old : Session) × (find_session
            (hash refresh_token)
            (refresh hash ttl io now (some token) refresh_token ip user_agent db).1.sessions
          ≡ some old)
        × (old.revoked_at ≢ none)
        × (old.customer_account_id ≡ t.account)
  unfolding refresh
  refresh-granted now token refresh_token ip user_agent t db won =
      let n = new_session hash ttl io now token ip user_agent in
      let c = claim_for_rotation io now (hash refresh_token) n db in
      let (old, new, rot, same, kept) = after_claim-granted now token t c won in
      let (found, account) = claim_for_rotation-rotated now (hash refresh_token) n old new db rot in
      (record old { revoked_at = some now; replaced_by_id = some db.next_id }, cc, ground arith, cc)

  -- A refresh token gives tokens once: a second refresh with it is refused, and ends every session
  -- of the account, that of the first refresh included.
  pub refresh_reuse :
      (now later : ℕ) (token token' refresh_token ip ip' user_agent user_agent' : Text) (t : Tokens)
      (db : SessionDb)
      → io begin_tx ≡ true
      → io lock_session ≡ true
      → io revoke_all ≡ true
      → (refresh hash ttl io now (some token) refresh_token ip user_agent db).0 ≡ granted t
      → ((refresh hash ttl io later
            (some token')
            refresh_token
            ip'
            user_agent'
            (refresh hash ttl io now (some token) refresh_token ip user_agent db).1).0
          ≡ session_invalid)
        × AllRevoked t.account
            (refresh hash ttl io later
              (some token')
              refresh_token
              ip'
              user_agent'
              (refresh hash ttl io now (some token) refresh_token ip user_agent db).1).1.sessions
  refresh_reuse now later token token' refresh_token ip ip' user_agent user_agent' t db b l r won =
      let db' = (refresh hash ttl io now (some token) refresh_token ip user_agent db).1 in
      let (old, found, dead, same) =
        refresh-granted now token refresh_token ip user_agent t db won in
      let (refused, ended) =
        refresh-revoked later token' refresh_token ip' user_agent' old db' b l r found dead in
      (
        refused,
        subst
            (λ a.
              AllRevoked a
                (refresh hash ttl io later (some token') refresh_token ip' user_agent'
                  db').1.sessions)
            same ended,
      )

  -- A refresh for an account that is blocked or deleted leaves it no session, if the revocation is
  -- written.
  pub refresh_blocked :
      (now : ℕ) (token refresh_token ip user_agent : Text) (db : SessionDb)
      → io revoke_all ≡ true
      → (refresh hash ttl io now (some token) refresh_token ip user_agent db).0 ≡ account_blocked
      → (old : Session) × (find_session (hash refresh_token) db.sessions ≡ some old)
        × AllRevoked old.customer_account_id
            (refresh hash ttl io now (some token) refresh_token ip user_agent db).1.sessions
  unfolding refresh after_claim claim_for_rotation check_old rotate grant logout_all
  refresh_blocked now token refresh_token ip user_agent db up out =
      elim (Option-cases (find_session (hash refresh_token) db.sessions)) [
        | inl lost ↦ absurd (ground arith)
        | inr (old, found) ↦
            (let made =
                session_row now db.next_id old.customer_account_id
                  (new_session hash ttl io now token ip user_agent) in
              (
                old,
                found,
                ground (
                  arith,
                  revoke_all_for_account-AllRevoked now old.customer_account_id
                      (link now old.id db.next_id (made ∷ db.sessions)),
                ),
              ))
      ]

  -- After a logout that ends without an error, the token gives no tokens.
  pub logout-refresh :
      (now later : ℕ) (token refresh_token ip user_agent : Text) (db : SessionDb)
      → (logout hash ttl io now refresh_token db).0 ≡ true
      → (t : Tokens)
      → (refresh hash ttl io later
          (some token)
          refresh_token
          ip
          user_agent
          (logout hash ttl io now refresh_token db).1).0
        ≢ granted t
  unfolding refresh after_claim claim_for_rotation check_old logout
  logout-refresh now later token refresh_token ip user_agent db out t won =
      elim (Option-cases (find_session (hash refresh_token) db.sessions)) [
        | inl lost ↦ ground arith
        | inr (s, found) ↦ elim (Option-cases s.revoked_at) [
          | inl live ↦
              ground (arith, find_session-revoke now (hash refresh_token) s db.sessions found)
          | inr (at, gone) ↦
              ground (arith, find_session-revoke now (hash refresh_token) s db.sessions found)
        ]
      ]
