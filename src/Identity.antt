-- ===== src/Identity.antt =====
-- The identity service: apps/identity/internal, its domain, application service and PostgreSQL store.
pub mod Model
pub mod Tables
pub mod Monad
pub mod Accounts
pub mod Sessions
pub mod Secrets
pub mod Store
pub mod Service
pub mod Ends
pub mod History
pub mod Requests
pub mod Rotation
pub mod Revocation
pub mod Opening
pub mod Samples
pub mod Tests
