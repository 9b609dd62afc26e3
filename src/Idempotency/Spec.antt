-- ===== src/Idempotency/Spec.antt =====
-- internal/modules/idempotency/service.go without Redis, against what it promises: a record for
-- each key, for as long as it lives.
use openrails.Base.{
  ℕ, ◌+◌, Bool, true, false, ◌&&◌, Option, none, some, List, [], ◌∷◌, ltb, leb, if◌then◌else◌,
}
use openrails.Payments.Model.{Time}
use openrails.Idempotency.Service.{
  Bytes, IdempotencyRecord, MemEntry, begin_memory, get_memory, put, cleanup, pending_record,
  same_bytes,
}

-- What each key holds at each time.
abbrev pub View : Type 0
View = Bytes → Time → Option IdempotencyRecord

abbrev pub nothing : View
nothing key now = none

abbrev pub saved : Bytes → IdempotencyRecord → Time → View → View
saved key r until v k now =
    if same_bytes key k then (if ltb now until then some r else none) else v k now

-- A call of the service at a time, or a tick of its cleanup.
pub data Call : Type 0 where
  begin_call get_call : Bytes → Time → Call
  store_call : Bytes → IdempotencyRecord → ℕ → Time → Call
  tick_call : Time → Call

abbrev pub time_of : Call → Time
time_of (begin_call key now) = now
time_of (get_call key now) = now
time_of (store_call key r lifetime now) = now
time_of (tick_call now) = now

-- The record that a call gives back, and whether it was there before.
abbrev pub Answer : Type 0
Answer = Option IdempotencyRecord × Bool

abbrev pub begin_answer : IdempotencyRecord × Bool × List MemEntry → Answer × List MemEntry
begin_answer (r, exists, t) = ((some r, exists), t)

abbrev pub call : ℕ → Call → List MemEntry → Answer × List MemEntry
call ttl (begin_call key now) t = begin_answer (begin_memory ttl key now t)
call ttl (get_call key now) t = ((get_memory key now t, true), t)
call ttl (store_call key r lifetime now) t = ((none, true), put key r (now + lifetime) t)
call ttl (tick_call now) t = ((none, true), cleanup now t)

abbrev pub begin_view : ℕ → Bytes → Time → View → Option IdempotencyRecord → Answer × View
begin_view ttl key now v none =
    ((some (pending_record now), false), saved key (pending_record now) (now + ttl) v)
begin_view ttl key now v (some r) = ((some r, true), v)

abbrev pub call_view : ℕ → Call → View → Answer × View
call_view ttl (begin_call key now) v = begin_view ttl key now v (v key now)
call_view ttl (get_call key now) v = ((v key now, true), v)
call_view ttl (store_call key r lifetime now) v = ((none, true), saved key r (now + lifetime) v)
call_view ttl (tick_call now) v = ((none, true), v)

-- The answers of calls that follow each other.
unfoldable pub answers : ℕ → List Call → List MemEntry → List Answer
answers ttl [] t = []
answers ttl (c ∷ calls) t = let (a, t') = call ttl c t in a ∷ answers ttl calls t'

unfoldable pub view_answers : ℕ → List Call → View → List Answer
view_answers ttl [] v = []
view_answers ttl (c ∷ calls) v = let (a, v') = call_view ttl c v in a ∷ view_answers ttl calls v'

-- No call is made before the one ahead of it.
unfoldable pub in_order : Time → List Call → Bool
in_order from [] = true
in_order from (c ∷ calls) = leb from (time_of c) && in_order (time_of c) calls
