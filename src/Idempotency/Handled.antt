-- ===== src/Idempotency/Handled.antt =====
-- internal/modules/webhooks/deduplication.go: one delivery of an event, on a service without Redis.
use openrails.Base.{
  ◌≡◌, refl, ap, sym, ◌∙◌, Bool, true, false, ◌||◌, Option, none, some, List, ℕ, ◌+◌, if◌then◌else◌,
}
use openrails.Payments.Model.{Time}
use openrails.Idempotency.Service.{
  success_record, failed_record, IdempotencyRecord, MemEntry, Bytes, Redis, Service, begin,
  complete, fail, begin_memory, get_record, get_memory, put, build_key, failure_ttl, found_or_claim,
  claim, live_record,
}
use openrails.Idempotency.Memory.{blocks, with_map, found, begin_memory_only, get_memory_only}
use openrails.Idempotency.Webhooks.{
  Outcome, done, retryable, non_retryable, is_empty, is_success, is_pending, webhook_operation,
  process_webhook, after_begin, handle,
}

-- The handler's error asks for another delivery.
abbrev pub is_retryable : Outcome → Bool
is_retryable (retryable e) = true
is_retryable _ = false

module _ {S W : Type 0} (commands : Redis S) (ttl : ℕ) where
  abbrev deliver :
      (operation event payload : Bytes)
      → Time
      → (W → Outcome × W)
      → W
      → IdempotencyRecord × Bool × Service S
      → Option Bytes × W × Service S
  deliver = after_begin commands ttl

  handled_entry :
      (operation event payload key : Bytes) (now finish : Time) (handler : W → Outcome × W) (w : W)
      (s : Service S) (e : MemEntry) (live : Bool)
      → blocks (if live then some e.saved else none) ≡ false
      → (t : List MemEntry) × (deliver operation event payload finish handler w
            (found s (if live then (e.saved, true, s.mem_store) else claim ttl key now s.mem_store))
          ≡ handle commands ttl operation event payload finish (handler w) (with_map s t))
  handled_entry operation event payload key now finish handler w s e true free =
      (s.mem_store, rw free)
  handled_entry operation event payload key now finish handler w s e false free = (_, refl)

  -- A delivery that is not blocked runs the handler, on the service with the claim in it.
  handled_found :
      (operation event payload key : Bytes) (now finish : Time) (handler : W → Outcome × W) (w : W)
      (s : Service S) (o : Option MemEntry)
      → blocks (live_record now o) ≡ false
      → (t : List MemEntry) × (deliver operation event payload finish handler w
            (found s (found_or_claim ttl key now s.mem_store o))
          ≡ handle commands ttl operation event payload finish (handler w) (with_map s t))
  handled_found operation event payload key now finish handler w s none free = (_, refl)
  handled_found operation event payload key now finish handler w s (some e) free =
      handled_entry operation event payload key now finish handler w s e _ free

  pub handled :
      (event event_type processor payload : Bytes) (now finish : Time) (handler : W → Outcome × W)
      (w : W) (s : Service S)
      → s.has_client ≡ false
      → is_empty event ≡ false
      → blocks (get_record commands ttl (webhook_operation processor event_type) event now s)
        ≡ false
      → (t : List MemEntry) × (process_webhook commands ttl event event_type processor payload now
            finish handler w s
          ≡ handle commands ttl
              (webhook_operation processor event_type)
              event
              payload
              finish
              (handler w)
              (with_map s t))
  unfolding process_webhook begin_memory get_memory
  handled event event_type processor payload now finish handler w s memory named free =
      let operation = webhook_operation processor event_type in
      let free' =
        ap blocks (sym (get_memory_only commands ttl operation event now s memory)) ∙ free in
      let (t, same) =
        handled_found operation event payload (build_key operation event) now finish handler w s _
          free' in
      (t, (rw (named, begin_memory_only commands ttl operation event now s memory)) ∙ same)

  -- What is left under the key when the handler is done.
  pub settled_handle :
      (operation event payload : Bytes) (finish : Time) (outcome : Outcome) (w : W) (s : Service S)
      → s.has_client ≡ false
      → is_retryable outcome ≡ false
      → (handle commands ttl operation event payload finish (outcome, w) s ≡ (
        none,
        w,
        with_map s (
            put
              (build_key operation event)
              (success_record payload finish)
              (finish + ttl)
              s.mem_store),
      ))
  unfolding complete
  settled_handle operation event payload finish done w s memory q = rw memory
  settled_handle operation event payload finish (non_retryable e) w s memory q = rw memory
  settled_handle operation event payload finish (retryable e) w s memory q = absurd (cc)

  pub failed_handle :
      (operation event payload e : Bytes) (finish : Time) (outcome : Outcome) (w : W)
      (s : Service S)
      → s.has_client ≡ false
      → outcome ≡ retryable e
      → handle commands ttl operation event payload finish (outcome, w) s ≡ (
        some e,
        w,
        with_map s (
            put
              (build_key operation event)
              (failed_record e finish)
              (finish + failure_ttl ttl)
              s.mem_store),
      )
  unfolding fail
  failed_handle operation event payload e finish outcome w s memory q = rw (q, memory)

  -- A delivery that finds a record of a success, or a pending one, changes nothing.
  pub skipped :
      (event event_type processor payload : Bytes) (later finish : Time) (handler : W → Outcome × W)
      (w : W) (s : Service S) (r : IdempotencyRecord)
      → is_empty event ≡ false
      → begin commands ttl (webhook_operation processor event_type) event later s ≡ (r, true, s)
      → (is_success r.status || is_pending r.status) ≡ true
      → process_webhook commands ttl event event_type processor payload later finish handler w s
        ≡ (none, w, s)
  unfolding process_webhook
  skipped event event_type processor payload later finish handler w s r named there known =
      rw (named, there, known)
