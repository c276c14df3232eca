-- ===== src/Store.antt =====
-- The transactional store of the orders service (adapters/outbound/postgres/store.go, quote.go).
pub mod Payload
pub mod Workflow
pub mod Create
pub mod Cancel
pub mod Quotes
pub mod Reserve
pub mod Payments
pub mod Facts
pub mod Outbox
pub mod Atomic
pub mod Invariant
pub mod Requests
pub mod Once
pub mod Failure
pub mod Tests
pub mod Idempotency
