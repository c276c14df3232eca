-- ===== src/Orders.antt =====
-- The orders domain (apps/orders/internal/domain/orders): the aggregate, its creation, its pricing
-- by a quote and its life cycle. The proofs stand in the modules below each part.
pub mod Model
pub mod Create
pub mod Quote
pub mod Lifecycle
mod Tests
