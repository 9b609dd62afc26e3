-- ===== src/Idempotency/Claims.antt =====
-- internal/modules/idempotency/service.go and internal/modules/webhooks/deduplication.go: one
-- delivery of an event runs its handler.
use openrails.Base.{◌≡◌, refl, ap, sym, subst, ◌∙◌, true, false, Option, none, some, ℕ, ◌+◌, ltb}
use openrails.Payments.Model.{Time}
use openrails.Idempotency.Service.{
  pending_record, success_record, failed_record, IdempotencyRecord, Bytes, Redis, Service, begin,
  get_record, put, build_key, failure_ttl,
}
use openrails.Idempotency.Memory.{
  blocks, begin-claimed, get_memory-failed, with_map, get_memory_only, begin-recorded,
}
use openrails.Idempotency.Webhooks.{
  Outcome, retryable, is_empty, webhook_operation, process_webhook,
}
use openrails.Idempotency.Handled.{is_retryable, handled, settled_handle, failed_handle, skipped}

module _ {S W : Type 0} (commands : Redis S) (ttl : ℕ) where
  -- ProcessWebhook handles an event once. On a service without Redis, for an event that has an
  -- identifier and neither a success nor a pending record: if the handler returns no error or one
  -- marked as not retryable, then the sender gets no error, the handler ran once, and every further
  -- delivery of the event before the record's time is over changes nothing, whatever payload and
  -- handler it brings.
  pub process_webhook-once :
      (event event_type processor payload payload' : Bytes) (now finish later finish' : Time)
      (handler handler' : W → Outcome × W) (w w₁ : W) (s s₁ : Service S) (ans : Option Bytes)
      → s.has_client ≡ false
      → is_empty event ≡ false
      → blocks (get_record commands ttl (webhook_operation processor event_type) event now s)
        ≡ false
      → is_retryable ((handler w).0) ≡ false
      → ltb later (finish + ttl) ≡ true
      → process_webhook commands ttl event event_type processor payload now finish handler w s
        ≡ (ans, w₁, s₁)
      → (ans ≡ none)
        × (w₁ ≡ (handler w).1)
        × (process_webhook commands ttl event event_type processor payload' later finish' handler'
              w₁ s₁
            ≡ (none, w₁, s₁))
  process_webhook-once event event_type processor payload payload' now finish later finish' handler
        handler' w w₁ s s₁ ans memory named free settled live run =
      let operation = webhook_operation processor event_type in
      let (t, first) =
        handled commands ttl event event_type processor payload now finish handler w s memory named
          free in
      let recorded =
        settled_handle commands ttl operation event payload finish (handler w).0 (handler w).1
          (with_map s t) memory settled in
      let again =
        skipped commands ttl event event_type processor payload' later finish' handler'
          (handler w).1 _ (success_record payload finish) named
          (begin-recorded commands ttl operation event (success_record payload finish)
            (finish + ttl) later (with_map s t) memory live)
          refl in
      subst
        (λ (x : Option Bytes × W × Service S).
          (x.0 ≡ none)
          × (x.1 ≡ (handler w).1)
          × (process_webhook commands ttl event event_type processor payload' later finish' handler'
                x.1 x.2
              ≡ (none, x.1, x.2)))
        (sym (first ∙ recorded) ∙ run) (refl, refl, again)

  -- Two deliveries do not run side by side. On a service without Redis, after the Begin of one
  -- delivery has claimed the event, and before the claim's time is over, another delivery of it
  -- returns no error, runs no handler and changes nothing.
  pub process_webhook-concurrent :
      (event event_type processor payload : Bytes) (now later finish : Time)
      (handler : W → Outcome × W) (w : W) (s s₁ : Service S) (r : IdempotencyRecord)
      → s.has_client ≡ false
      → is_empty event ≡ false
      → begin commands ttl (webhook_operation processor event_type) event now s ≡ (r, false, s₁)
      → ltb later (now + ttl) ≡ true
      → process_webhook commands ttl event event_type processor payload later finish handler w s₁
        ≡ (none, w, s₁)
  process_webhook-concurrent event event_type processor payload now later finish handler w s s₁ r
        memory named claimed live =
      let operation = webhook_operation processor event_type in
      let held = begin-claimed commands ttl operation event now s r s₁ memory claimed in
      rw held (
        skipped commands ttl event event_type processor payload later finish handler w _
          (pending_record now) named
          (begin-recorded commands ttl operation event (pending_record now) (now + ttl) later s
            memory live)
          refl)

  -- A failure can be retried. On a service without Redis, if the handler of an event that has an
  -- identifier and neither a success nor a pending record returns a retryable error, then the
  -- sender gets that error, at no time is there a success or pending record that blocks the event,
  -- and a further delivery runs its handler, whether or not the failure's record is still there.
  pub process_webhook-retried :
      (event event_type processor payload payload' e : Bytes) (now finish later finish' : Time)
      (handler handler' : W → Outcome × W) (w w₁ : W) (s s₁ : Service S) (ans : Option Bytes)
      → s.has_client ≡ false
      → is_empty event ≡ false
      → blocks (get_record commands ttl (webhook_operation processor event_type) event now s)
        ≡ false
      → (handler w).0 ≡ retryable e
      → process_webhook commands ttl event event_type processor payload now finish handler w s
        ≡ (ans, w₁, s₁)
      → (ans ≡ some e)
        × (blocks (get_record commands ttl (webhook_operation processor event_type) event later s₁)
            ≡ false)
        × ((process_webhook commands ttl event event_type processor payload' later finish' handler'
              w₁ s₁).1
            ≡ (handler' w₁).1)
  process_webhook-retried event event_type processor payload payload' e now finish later finish'
        handler handler' w w₁ s s₁ ans memory named free failed_once run =
      let operation = webhook_operation processor event_type in
      let (t, first) =
        handled commands ttl event event_type processor payload now finish handler w s memory named
          free in
      let recorded =
        failed_handle commands ttl operation event payload e finish (handler w).0 (handler w).1
          (with_map s t) memory failed_once in
      let s' =
        with_map s
          (put (build_key operation event) (failed_record e finish) (finish + failure_ttl ttl) t) in
      let free' =
        ap blocks (get_memory_only commands ttl operation event later s' memory)
        ∙ get_memory-failed (build_key operation event) e finish (finish + failure_ttl ttl) later
            t in
      let (t', second) =
        handled commands ttl event event_type processor payload' later finish' handler'
          (handler w).1 s' memory named free' in
      subst
        (λ (x : Option Bytes × W × Service S).
          (x.0 ≡ some e)
          × (blocks (get_record commands ttl operation event later x.2) ≡ false)
          × ((process_webhook commands ttl event event_type processor payload' later finish'
                handler' x.1 x.2).1
              ≡ (handler' x.1).1))
        (sym (first ∙ recorded) ∙ run)
        (refl, free', ap (λ (x : Option Bytes × W × Service S). x.1) second)
