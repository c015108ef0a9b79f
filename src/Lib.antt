-- ===== src/Lib.antt =====
-- PromoGo: a loyalty programme's server. Tills accrue, redeem and refund points over an HTTP
-- interface; customers log in with one-time codes and identify themselves by QR; notifications go
-- out through an outbox; staff work under roles. This library models the server's core logic.
--
-- The parts, and how they interact:
--  Domain: the entities and errors of internal/domain, the configuration's Validate, roles and
--   permissions (rbac.go), and the interface of the decimal library (Domain/Decimals.antt).
--  Ledger: LedgerRepository of internal/repository/postgres/ledger_repository.go. Ledger/Tables.antt
--   has the tables and one function for each SQL statement, run in a database transaction that
--   commits whole or not at all; Post, Redeem and Refund are Post, PostRedeemChecked and PostRefund.
--  Loyalty: LoyaltyService of internal/service/loyalty.go (Accrue, Redeem, Refund) over the ledger and
--   the other repositories (Queries); outside the ledger's transactions what is written stays. Other
--   requests act between two of a request's steps by an arbitrary function of the tables.
--  Templates: internal/notifytemplates. Phone: internal/auth/phone.go.
--  Redis: the keys with expiry that Otp, Qr and RateLimit share.
--  Otp: internal/service/otp_store.go and RequestOTP of customerauth.go.
--  Qr: internal/service/qr_store.go and ResolveQR of qr.go.
--  Login: VerifyOTP of customerauth.go, over Otp, Sessions and the clients.
--  Sessions: internal/repository/postgres/customer_session_repository.go, and Refresh, Logout and
--   LogoutAll of internal/service/customerauth.go.
--  Outbox: internal/repository/postgres/notification_outbox_repository.go and
--   internal/service/outbox_worker.go.
--  RateLimit: internal/ratelimit/limiter.go; RateLimit/Guard is middleware.go there, RateLimit/Rules
--   internal/httpserver/ratelimit_rules.go.
--  ClientIp: internal/httpserver/remoteaddr.go.
--  Staff: internal/service/staffauth.go.
--  Admin: the administration's handlers of internal/httpserver, functions of the tables to a reply
--   (Handler): Gate has the middleware of staff, Members and Requests admin_staff.go and its routes,
--   Keys and KeyAuth admin_apikeys.go and middleware.go with Credentials, Configs
--   admin_loyaltyconfig.go, Stores admin_organizations.go and admin_staff_me.go, Staff and Strings
--   the tables of staff and the texts they share; Bootstrap is
--   internal/service/bootstrap.go, SignIn AuthenticateOIDC of internal/service/staffauth.go and Oidc
--   internal/auth/oidc.go. Keeps and Runs are for proofs about handlers.
--  Examples: concrete inputs.
--
-- Correspondence: a struct is a record and a nil pointer `none`; ids are natural numbers; points are
-- int64, integers with `wrap64` where the code computes; a table is a list of rows, newest first; a
-- text is the list of its codes; a time is a natural number. Whether a call of the database, of Redis
-- or of a generator succeeds is a function that each operation takes, so that what is said holds for
-- every pattern of failures. Hashes, decimals, number formatting and
-- the rounding of NUMERIC columns are parameters; the laws assumed
-- of decimals are in DecimalLaws and FormatLaws, which whole numbers meet (Examples/Whole.antt).
-- A request of the administration runs alone; other requests act between the
-- steps of the bootstrap and of a sign-in.
-- Only the bootstrap's call of itself runs on fuel, for two rounds, which Admin/BootstrapLaws shows to
-- be enough; every other loop of the code goes over a list.
--
-- Not modelled: the HTTP layer but for the administration's handlers, where JSON and the texts of error
-- messages are left out; configuration and wiring, logs, metrics, the audit events of the other parts,
-- the signing of tokens, the notification channels, migrations, and the command line tools.
pub mod Base
pub mod Admin
pub mod Domain
pub mod Ledger
pub mod Redis
pub mod Otp
pub mod Login
pub mod ClientIp
pub mod Qr
pub mod Phone
pub mod Templates
pub mod Loyalty
pub mod RateLimit
pub mod Outbox
pub mod Sessions
pub mod Staff
mod Examples
