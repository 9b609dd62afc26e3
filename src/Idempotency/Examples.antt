-- ===== src/Idempotency/Examples.antt =====
-- Runs of internal/modules/idempotency/service.go and internal/modules/webhooks/deduplication.go.
use openrails.Base.{◌≡◌, refl, false, Option, none, some, List, [], ◌∷◌, ℕ, suc, err}
use openrails.Base.Sql.{find_where}
use openrails.Idempotency.Service.{
  Bytes, Redis, missing, Service, begin, begin_memory, get_record, get_memory, pending_record,
}
use openrails.Idempotency.Webhooks.{Outcome, done, retryable, process_webhook, webhook_operation}
use openrails.Idempotency.Memory.{blocks}
use openrails.Idempotency.Spec.{
  Call, begin_call, get_call, store_call, tick_call, answers, view_answers, in_order, nothing,
}
use openrails.Idempotency.Refinement.{answers-refine}
use openrails.Idempotency.Claims.{
  process_webhook-once, process_webhook-concurrent, process_webhook-retried,
}

-- A service without a client, and its lifetime of 5 minutes.
abbrev no_redis : Redis Unit
no_redis = record {
  get = λ key now s. err missing;
  set_nx = λ key saved ttl now s. err missing;
  set = λ key saved ttl now s. err missing;
}

abbrev five_minutes : ℕ
five_minutes = 300000000

abbrev fresh : Service Unit
fresh = record { has_client = false; redis = tt; mem_store = [] }

-- "ev", "sale", "nmi" and "{}".
abbrev event : Bytes
event = 101 ∷ 118 ∷ []

abbrev sale : Bytes
sale = 115 ∷ 97 ∷ 108 ∷ 101 ∷ []

abbrev nmi : Bytes
nmi = 110 ∷ 109 ∷ 105 ∷ []

abbrev empty_object : Bytes
empty_object = 123 ∷ 125 ∷ []

-- Handlers that count their runs.
abbrev counting : ℕ → Outcome × ℕ
counting runs = (done, suc runs)

abbrev failing : ℕ → Outcome × ℕ
failing runs = (retryable event, suc runs)

abbrev first_run : Option Bytes × ℕ × Service Unit
first_run = process_webhook no_redis five_minutes event sale nmi empty_object 10 20 counting 0 fresh

process_webhook-once_example :
    (first_run.0 ≡ none)
    × (first_run.1 ≡ 1)
    × (process_webhook no_redis five_minutes event sale nmi [] 30 40 counting first_run.1
          first_run.2
        ≡ (none, first_run.1, first_run.2))
unfolding get_record get_memory find_where
process_webhook-once_example =
    process_webhook-once no_redis five_minutes event sale nmi empty_object [] 10 20 30 40 counting
      counting 0 first_run.1 fresh first_run.2 first_run.0 refl refl refl refl refl refl

abbrev claimed : Service Unit
claimed = (begin no_redis five_minutes (webhook_operation nmi sale) event 10 fresh).2

process_webhook-concurrent_example :
    process_webhook no_redis five_minutes event sale nmi [] 30 40 counting 0 claimed
    ≡ (none, 0, claimed)
unfolding begin begin_memory find_where
process_webhook-concurrent_example =
    process_webhook-concurrent no_redis five_minutes event sale nmi [] 10 30 40 counting 0 fresh
      claimed (pending_record 10) refl refl refl refl

abbrev failed_run : Option Bytes × ℕ × Service Unit
failed_run = process_webhook no_redis five_minutes event sale nmi empty_object 10 20 failing 0 fresh

process_webhook-retried_example :
    (failed_run.0 ≡ some event)
    × (blocks (get_record no_redis five_minutes (webhook_operation nmi sale) event 30 failed_run.2)
        ≡ false)
    × ((process_webhook no_redis five_minutes event sale nmi empty_object 30 40 counting
          failed_run.1 failed_run.2).1
        ≡ suc failed_run.1)
unfolding get_record get_memory find_where
process_webhook-retried_example =
    process_webhook-retried no_redis five_minutes event sale nmi empty_object empty_object event 10
      20 30 40 failing counting 0 failed_run.1 fresh failed_run.2 failed_run.0 refl refl refl refl
      refl

-- A claim, a repeated claim, an outcome, a cleanup after its time, and a new claim.
abbrev some_calls : List Call
some_calls =
    begin_call event 10
    ∷ begin_call event 20
    ∷ store_call event (pending_record 25) 100 25
    ∷ get_call event 30
    ∷ tick_call 200
    ∷ begin_call event 200
    ∷ []

answers-refine_example :
    answers five_minutes some_calls [] ≡ view_answers five_minutes some_calls nothing
unfolding in_order
answers-refine_example = answers-refine five_minutes some_calls refl
