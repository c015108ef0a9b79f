-- ===== src/Login/Account.antt =====
-- What VerifyOTP does after the code: resolveOrCreateAccount, linkExistingClients and
-- issueTokensReturningID of internal/service/customerauth.go, with the statements of the repositories.
use promo_go.Base.{
  ℕ, suc, Bool, true, false, Option, none, some, List, [], ◌∷◌, Text, text_eq, ◌==◌, if◌then◌else◌,
}
use promo_go.Domain.{Client, CustomerAccount, active}
use promo_go.Loyalty.Queries.{find_account}
use promo_go.Sessions.Table.{Session, SessionDb, session_row, find_session}
use promo_go.Sessions.Refresh.{Tokens, new_session}

-- internal/domain/customer.go
pub record CustomerConsent : Type 0 where
  pub id : ℕ
  pub customer_account_id : ℕ
  pub document_version : Text
  pub granted_at : ℕ
  pub source : Text
  pub ip : Text
  pub user_agent : Text

-- The sessions and accounts, the clients and the consents; one counter gives the ids.
pub record LoginDb : Type 0 where
  pub customers : SessionDb
  pub clients : List Client
  pub consents : List CustomerConsent

-- The calls that can fail; a link by its client.
pub data LoginCall : Type 0 where
  find_by_phone insert_account find_again list_unlinked insert_consent create_session sign :
      LoginCall
  link_client : ℕ → LoginCall

pub data Attempt (A : Type 0) : Type 0 where
  got : A → Attempt A
  broke : Attempt A

abbrev pub new_account : ℕ → Text → CustomerAccount
new_account id phone = record { id = id; phone = phone; status = active }

abbrev pub add_account : CustomerAccount → LoginDb → LoginDb
add_account a db = record db {
  customers = record db.customers {
    accounts = a ∷ db.customers.accounts;
    next_id = suc db.customers.next_id;
  };
}

-- SELECT ... FROM clients WHERE phone = $1 AND customer_account_id IS NULL
abbrev pub is_unlinked : Text → Client → Option ℕ → Bool
is_unlinked phone c none = text_eq c.phone phone
is_unlinked phone c (some _) = false

unfoldable pub list_unlinked_by_phone : Text → List Client → List Client
list_unlinked_by_phone phone [] = []
list_unlinked_by_phone phone (c ∷ cs) =
    if is_unlinked phone c c.customer_account_id
    then c ∷ list_unlinked_by_phone phone cs
    else list_unlinked_by_phone phone cs

-- UPDATE clients SET customer_account_id = $2 WHERE id = $1
unfoldable pub link_customer_account : ℕ → ℕ → List Client → List Client
link_customer_account id account [] = []
link_customer_account id account (c ∷ cs) =
    (if c.id == id then record c { customer_account_id = some account } else c)
    ∷ link_customer_account id account cs

module _ (up : LoginCall → Bool) where
  -- resolveOrCreateAccount; `other` is what another request does between the lookup and the insert,
  -- which fails on a phone that is registered by then.
  unfoldable pub create_account : Text → LoginDb → Attempt CustomerAccount × LoginDb
  create_account phone db =
      let a = new_account db.customers.next_id phone in
      if up insert_account
      then elim (find_account phone db.customers.accounts) [
        | none ↦ (got a, add_account a db)
        | some b ↦ (if up find_again then (got b, db) else (broke, db))
      ]
      else (broke, db)

  unfoldable pub resolve_or_create_account :
      (LoginDb → LoginDb) → Text → LoginDb → Attempt CustomerAccount × LoginDb
  resolve_or_create_account other phone db =
      if up find_by_phone
      then elim (find_account phone db.customers.accounts) [
        | some a ↦ (got a, db)
        | none ↦ create_account phone (other db)
      ]
      else (broke, db)

  -- The loop of linkExistingClients over the clients found; it ends at the first error.
  unfoldable pub link_all : ℕ → List Client → List Client → List Client
  link_all account [] table = table
  link_all account (c ∷ cs) table =
      let rest = link_all account cs (link_customer_account c.id account table) in
      if up (link_client c.id) then rest else table

  -- linkExistingClients, whose error is only logged.
  unfoldable pub link_existing_clients : Text → ℕ → List Client → List Client
  link_existing_clients phone account table =
      if up list_unlinked
      then link_all account (list_unlinked_by_phone phone table) table
      else table

module _ (hash : Text → Text) (ttl : ℕ) (up : LoginCall → Bool) where
  abbrev pub session_of : ℕ → Text → Text → Text → ℕ → LoginDb → Session
  session_of now token ip user_agent account db =
      session_row now db.customers.next_id account
        (new_session hash ttl (λ _. true) now token ip user_agent)

  abbrev pub add_session : Session → LoginDb → LoginDb
  add_session s db = record db {
    customers = record db.customers {
      sessions = s ∷ db.customers.sessions;
      next_id = suc db.customers.next_id;
    };
  }

  abbrev pub tokens_of : ℕ → Text → Session → Tokens
  tokens_of account token s = record {
    account = account;
    refresh_token = token;
    refresh_token_expires_at = s.expires_at;
  }

  -- issueTokensReturningID; `generated` is auth.GenerateRefreshToken's token, if it gives one, and the
  -- hash of a token is unique in the table.
  unfoldable pub issue_tokens :
      ℕ → Option Text → Text → Text → ℕ → LoginDb → Attempt Tokens × LoginDb
  issue_tokens now none ip user_agent account db = (broke, db)
  issue_tokens now (some token) ip user_agent account db =
      let s = session_of now token ip user_agent account db in
      if up create_session
      then elim (find_session (hash token) db.customers.sessions) [
        | some _ ↦ (broke, db)
        | none ↦ ((if up sign then got (tokens_of account token s) else broke), add_session s db)
      ]
      else (broke, db)
