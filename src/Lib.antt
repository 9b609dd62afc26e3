-- ===== src/Lib.antt =====
-- OpenRails is a billing service: processors' webhooks, checkouts and administrators change
-- subscriptions and payments, and those give users entitlements (windows of access to a named
-- feature) and credits (balances that are deposited, held, captured, withdrawn and expire). The
-- service keeps both in Postgres. This library models the parts that decide who has access and
-- what was paid, operation by operation, and proves what makes them correct: entitlements,
-- credits, payments, the life of a subscription, and the idempotency of webhooks.
--
-- Base holds what the modules share: tests on the native natural numbers, `Result` for Go's
-- `(value, error)` pairs, integers with the wrap-around of `int64` (Base/Int), and a database
-- table as a list of rows with the statements that run on it (Base/Sql). Rows has the lemmas on
-- those statements.
--
-- Entitlements models internal/db/models/entitlement.go (Model), the timeline operations of
-- internal/db/repo/entitlement_timeline.go (Timeline: `LockEntitlementTimeline`,
-- `ShiftEntitlementTimeline`, `SetEntitlementEndAtTx`, `RevokeEntitlementNowTx`), the service in
-- internal/modules/entitlements/entitlement_service.go (Service: `PushNewEntitlement`,
-- `RevokeExistingEntitlement`), the queries and updates of internal/db/repo/entitlement.go (Repo)
-- and internal/db/repo/entitlement_grace.go (Grace). Overlap states the timeline's invariant,
-- Shift, Ends and Later carry it through a change of one window's end, Settle, Push, Access and
-- Refused hold the theorems.
--
-- Credits models internal/db/models/credits.go (Model) and
-- internal/modules/credits/credits_service.go (Balance: `lockBalance`, `withdrawBalanceAndBlocks`;
-- Service: `Deposit`, `Withdraw`, `GetBalance`; Holds: `Hold`, `CaptureHold`, `ReleaseHold`).
-- Accounts, Blocks, Taking and Withdraw say what the statements do to balances and blocks,
-- Invariant states when the tables are sound, and Deposits, Withdrawals, Holding, OpenHold,
-- Reserved, Captures, Once and Ended hold the theorems on the operations. Expiry and HoldExpiry
-- model the two workers of internal/river/jobs_credit_expiry.go and
-- internal/river/jobs_hold_expiry.go; Totals, Emptied, Backed, Due and Expire follow the sums of a
-- batch and the rounds of the credit worker, FreedHolds, Freeing, FreedKeys, HoldRounds and Stuck
-- those of the hold worker. Reads models `GetTransactions` and `GetTransactionBySource`. Grants
-- models `GrantSubscriptionCredits` of internal/modules/credits/subscription_credits.go, and
-- Posted and Granted follow what it leaves for its repetition. Types models the credit types
-- (internal/modules/credits/credit_type_service.go and internal/db/repo/credit_type.go); TypeRows
-- and Fixed say what their operations leave alone. The modules whose names end in Examples run the
-- operations on small tables.
--
-- Payments models internal/db/models/payment.go (Model), internal/db/repo/payment.go (Repo:
-- `Create`, `CreateIfNotExists`, `MarkFailed` and the lookups) and
-- internal/modules/payments/payment.go (Service: `Refund` and the checks before it). Refunds and
-- Unique hold the theorems.
--
-- Subscriptions models internal/db/models/subscription.go (Model has the row, Row its methods:
-- `ActivateWithPrice`, `ResetCurrentPeriods`, `Cancel`), the table with the checks and the unique
-- indexes that the migrations give it (Table), internal/db/repo/subscription.go (Repo), and
-- internal/modules/subscriptions/lifecycle_service.go with lifecycle_types.go and dunning.go:
-- Store has the tables that a call works on and `assertActiveTransitionAllowed`, Create
-- `CreateMembership`, Renew `RenewMembership` and `ReactivateMembership`, End `CancelMembership`,
-- `ExpireMembership`, `FailMembership` and `CancelUserSubscription`. A call reads the catalog,
-- writes the subscription, and goes on to the entitlement service and the payments, on one store.
-- Sound states when the table of subscriptions is sound, Writes which writes keep it so, Reach
-- follows the calls from an empty table, Accepted says what the entitlement calls come to on a
-- database that accepts their tables, and Terminal, Once, Dunning, Refused, Ending, Revoked and
-- NilWindow hold the theorems on the calls.
--
-- Idempotency models internal/modules/idempotency/service.go (Service: `Begin`, `Complete`,
-- `Fail`, `Get`, over Redis with the map behind it) and
-- internal/modules/webhooks/deduplication.go (Webhooks: `ProcessWebhook`). Memory and MapReads
-- say what the map answers, Spec states what the service promises and Refinement that the map keeps
-- it, Keys when two operations share a key, Handled follows one delivery, and Claims says how often
-- a handler runs.
--
-- The conventions. An operation is a function from the tables to a result; a Go error is a value,
-- and an error leaves no tables because the transaction is rolled back. Transactions on one user
-- and key run one at a time, as the advisory lock of the timeline and the row lock of the balance
-- make them; what two transactions do that share no lock is not modelled. Times are microseconds,
-- which is what Postgres stores, counted from Go's zero time. Identifiers and texts are only
-- compared, so they are numbers, with 0 for the empty text and the nil UUID; the identifiers that
-- `uuid.New` gives and the clock's time are arguments. The entitlement statements go through `Db`,
-- which stands for the database: whether it accepts the table that a statement produces, and
-- whether a plain read hides deleted rows. (Postgres may also refuse a statement for a state
-- between two of its rows; that is an error like any other.) The credit statements are taken to
-- succeed: a database error rolls the transaction back. So are the inserts of payments and
-- notifications, except for the unique index on a processor's transactions. The checks and unique
-- indexes of the subscriptions are executable, as the migrations state them. Where the lifecycle
-- only logs an error, the call that failed has run in the operation's own transaction: if the
-- database refused a statement, the transaction is aborted and the operation fails, at the latest
-- at its commit, and any other error comes before the call's first write, so that the tables stay
-- as they were. A pointer to the zero time is stored as NULL, as the columns' `nullzero` says.
-- `Cancel` and `ResetCurrentPeriods` read `time.Now()` on their own; the two readings are fields of
-- `Env`. The reading in `ActivateWithPrice`, of which only a subscription without a period takes
-- its start, is the call's time. Reading a field of a nil pointer is an error value. Texts
-- that the code looks into (a feedback, the keys of the idempotency service) are lists of bytes
-- and come trimmed; upper case is that of ASCII. `uuid.Parse`, `uuid.NewSHA1`, the order in which Go
-- visits a map, and the three Redis commands are parameters. Amounts are `int64` and wrap. The loops
-- over rows that were read are structural. The workers' outer loops take fuel, one unit for each
-- round, and return `none` where it runs out; the number of rows to expire, plus one, is enough.
-- What a round finds outside the tables (rows locked elsewhere, the order of Go's map, new
-- identifiers) is a parameter of the round.
--
-- Not modelled: the parsing of the processors' messages and their clients, checkout, the
-- administration of the catalog, the vault, analytics, audits, the HTTP layer
-- and configuration. They call the parts above or talk to other systems. Emails and the event log
-- in ClickHouse have no effect on the tables and are left out of the lifecycle, as are a
-- subscription's and a payment's Metadata and discount columns, which it only carries along. The
-- overflow of a `time.Duration` made from a number of days is not modelled. The paginated
-- lists of payments only read.
pub mod Base
pub mod Rows
pub mod Entitlements
pub mod Credits
pub mod Payments
pub mod Subscriptions
pub mod Idempotency
