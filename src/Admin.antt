-- ===== src/Admin.antt =====
-- The administration interface: internal/httpserver/admin_*.go behind middleware_staff.go, over the
-- tables of organizations, stores, keys and staff.
pub mod Handler
pub mod Keeps
pub mod Staff
pub mod Strings
pub mod Stores
pub mod GateLaws
pub mod Requests
pub mod Runs
mod CredentialLaws
mod KeyLaws
pub mod KeyRoundTrip
pub mod KeyRevoked
pub mod BootstrapLaws
pub mod ConfigLaws
pub mod StoreCodes
pub mod StoresKept
pub mod StoreProfiles
pub mod StoreRows
pub mod StoresOwn
pub mod Rows
mod MembersKept
mod MembersAdded
pub mod Escalation
pub mod Credentials
pub mod Keys
pub mod KeyAuth
pub mod Bootstrap
pub mod Oidc
pub mod OidcLaws
pub mod SignIn
pub mod SignInLaws
pub mod Configs
pub mod Gate
pub mod Members
