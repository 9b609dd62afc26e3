-- ===== src/Entitlements.antt =====
-- The entitlement timeline: internal/db/models/entitlement.go, the repository in
-- internal/db/repo/entitlement*.go and the service in internal/modules/entitlements.
pub mod Model
pub mod Timeline
pub mod Overlap
pub mod Shift
pub mod Ends
pub mod Later
pub mod Settle
pub mod Refused
pub mod Service
pub mod Push
pub mod Repo
pub mod Grace
pub mod Access
mod Examples
