-- ===== src/Domain.antt =====
-- internal/domain: the entities and errors that every other part shares, and the two libraries
-- that the entities name (decimals and number formatting) as an interface.
pub mod Decimals
mod Errors
mod Records
pub mod Config
pub mod Rbac
pub mod ApiKey
pub use Errors.*
pub use Records.*
