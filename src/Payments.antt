-- ===== src/Payments.antt =====
-- Payments and refunds: internal/db/models/payment.go, internal/db/repo/payment.go and
-- internal/modules/payments/payment.go.
pub mod Model
pub mod Repo
pub mod Service
pub mod Refunds
pub mod Unique
mod Examples
