-- ===== src/Credits.antt =====
-- Credit balances: internal/modules/credits, the models of internal/db/models/credits.go and the
-- two expiry workers of internal/river.
pub mod Model
pub mod Balance
pub mod Service
pub mod Holds
pub mod Grants
pub mod Posted
pub mod Granted
pub mod Reads
pub mod Types
pub mod TypeRows
pub mod Fixed
pub mod Accounts
pub mod Blocks
pub mod Taking
pub mod Withdraw
pub mod Invariant
pub mod Deposits
pub mod Withdrawals
pub mod Once
pub mod OpenHold
pub mod Ended
pub mod Reserved
pub mod Captures
pub mod Holding
pub mod Expiry
pub mod HoldExpiry
pub mod Totals
pub mod Emptied
pub mod Backed
pub mod Due
pub mod Expire
pub mod FreedHolds
pub mod Freeing
pub mod FreedKeys
pub mod HoldRounds
pub mod Stuck
mod Examples
mod ExpiryExamples
mod GrantExamples
