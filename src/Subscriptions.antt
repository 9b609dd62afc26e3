-- ===== src/Subscriptions.antt =====
-- The life of a subscription: internal/db/models/subscription.go, internal/db/repo/subscription.go
-- and the services in internal/modules/subscriptions.
pub mod Model
pub mod Table
pub mod Row
pub mod Repo
pub mod Store
pub mod Create
pub mod Renew
pub mod End
pub mod Sound
pub mod Writes
pub mod Reach
pub mod Terminal
pub mod Once
pub mod Dunning
pub mod Refused
pub mod Ending
pub mod Accepted
pub mod Revoked
pub mod NilWindow
mod Examples
