-- ===== src/Idempotency.antt =====
-- Idempotency keys and the deduplication of webhooks: internal/modules/idempotency/service.go and
-- internal/modules/webhooks/deduplication.go.
pub mod Service
pub mod Webhooks
pub mod Keys
mod Memory
pub mod Spec
pub mod MapReads
pub mod Refinement
pub mod Handled
pub mod Claims
mod Examples
