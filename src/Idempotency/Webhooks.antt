-- ===== src/Idempotency/Webhooks.antt =====
-- internal/modules/webhooks/deduplication.go: a webhook's handler under an idempotency key.
use openrails.Base.{
  ℕ, Bool, true, false, ◌&&◌, ◌||◌, Option, none, some, [], ◌∷◌, ◌++◌, if◌then◌else◌,
}
use openrails.Payments.Model.{Time}
use openrails.Idempotency.Service.{
  IdempotencyStatus, pending, success, IdempotencyRecord, Bytes, Redis, Service, begin, complete,
  fail,
}

-- What a handler returns: nothing, an error, or an error that is marked as terminal.
pub data Outcome : Type 0 where
  done : Outcome
  retryable : Bytes → Outcome
  non_retryable : Bytes → Outcome

abbrev pub is_success : IdempotencyStatus → Bool
is_success success = true
is_success _ = false

abbrev pub is_pending : IdempotencyStatus → Bool
is_pending pending = true
is_pending _ = false

abbrev pub is_empty : Bytes → Bool
is_empty [] = true
is_empty (b ∷ bs) = false

-- "webhook." and ".".
abbrev pub webhook_operation : Bytes → Bytes → Bytes
webhook_operation processor event_type =
    (119 ∷ 101 ∷ 98 ∷ 104 ∷ 111 ∷ 111 ∷ 107 ∷ 46 ∷ []) ++ (processor ++ (46 ∷ event_type))

-- The error that goes back to the sender, if any.
abbrev pub answer : Outcome → Option Bytes
answer done = none
answer (non_retryable e) = none
answer (retryable e) = some e

module _ {S : Type 0} (commands : Redis S) (ttl : ℕ) where
  -- The record of the outcome. A terminal error counts as a success.
  abbrev pub record_outcome : Bytes → Bytes → Bytes → Time → Outcome → Service S → Service S
  record_outcome operation event payload now done s =
      complete commands ttl operation event payload now s
  record_outcome operation event payload now (non_retryable e) s =
      complete commands ttl operation event payload now s
  record_outcome operation event payload now (retryable e) s =
      fail commands ttl operation event e now s

  -- `IsDuplicate`: an event without an identifier is no duplicate.
  unfoldable pub is_duplicate : Bytes → Bytes → Time → Service S → Bool × Service S
  is_duplicate processor event now s =
      if is_empty event
      then (false, s)
      else (let (there, exists, s') =
            begin commands ttl (webhook_operation processor (101 ∷ 118 ∷ 101 ∷ 110 ∷ 116 ∷ []))
              event now s in
          (exists && is_success there.status, s'))

module _ {S W : Type 0} (commands : Redis S) (ttl : ℕ) where
  -- The handler runs, and its outcome is recorded at `finish`.
  abbrev pub handle :
      Bytes → Bytes → Bytes → Time → Outcome × W → Service S → Option Bytes × W × Service S
  handle operation event payload finish (outcome, w) s =
      (answer outcome, w, record_outcome commands ttl operation event payload finish outcome s)

  abbrev pub after_begin :
      Bytes
      → Bytes
      → Bytes
      → Time
      → (W → Outcome × W)
      → W
      → IdempotencyRecord × Bool × Service S
      → Option Bytes × W × Service S
  after_begin operation event payload finish handler w (there, exists, s) =
      if exists && (is_success there.status || is_pending there.status)
      then (none, w, s)
      else handle operation event payload finish (handler w) s

  abbrev pub without_key : Outcome × W → Service S → Option Bytes × W × Service S
  without_key (outcome, w) s = (answer outcome, w, s)

  -- `ProcessWebhook`: it begins at `now`, and the handler is done at `finish`. The event's
  -- identifier comes trimmed.
  unfoldable pub process_webhook :
      Bytes
      → Bytes
      → Bytes
      → Bytes
      → Time
      → Time
      → (W → Outcome × W)
      → W
      → Service S
      → Option Bytes × W × Service S
  process_webhook event event_type processor payload now finish handler w s =
      let operation = webhook_operation processor event_type in
      if is_empty event
      then without_key (handler w) s
      else after_begin operation event payload finish handler w
          (begin commands ttl operation event now s)
