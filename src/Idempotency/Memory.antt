-- ===== src/Idempotency/Memory.antt =====
-- internal/modules/idempotency/service.go without Redis: what the map answers.
use openrails.Base.{
  ◌≡◌, refl, ap, sym, ◌∙◌, Bool, true, false, ◌||◌, Option, none, some, List, [], ◌∷◌, ℕ, ◌+◌, ltb,
  arith, if◌then◌else◌,
}
use openrails.Base.Sql.{find_where}
use openrails.Payments.Model.{Time}
use openrails.Idempotency.Webhooks.{is_success, is_pending}
use openrails.Idempotency.Service.{
  IdempotencyRecord, MemEntry, Bytes, Redis, Service, begin, begin_memory, get_record, get_memory,
  same_bytes, put, build_key, found_or_claim, claim, pending_record, failed_record,
}

-- A delivery that finds this record does not run the handler.
abbrev pub blocks : Option IdempotencyRecord → Bool
blocks none = false
blocks (some r) = is_success r.status || is_pending r.status

pub same_bytes-same : (xs : Bytes) → same_bytes xs xs ≡ true
unfolding same_bytes
same_bytes-same [] = refl
same_bytes-same (x ∷ xs) = let rest = same_bytes-same xs in ground arith

-- What was put under a key is found there, for as long as it lives.
pub get_memory-put :
    (key : Bytes) (r : IdempotencyRecord) (until now : Time) (t : List MemEntry)
    → ltb now until ≡ true
    → get_memory key now (put key r until t) ≡ some r
unfolding get_memory find_where
get_memory-put key r until now t live = rw (same_bytes-same key, live)

blocks_failed :
    (e : Bytes) (at : Time) (live : Bool)
    → blocks (if live then some (failed_record e at) else none) ≡ false
blocks_failed e at true = refl
blocks_failed e at false = refl

-- A failure does not block, whether it lives or not.
pub get_memory-failed :
    (key e : Bytes) (at until now : Time) (t : List MemEntry)
    → blocks (get_memory key now (put key (failed_record e at) until t)) ≡ false
unfolding get_memory find_where
get_memory-failed key e at until now t = rw (same_bytes-same key) (blocks_failed e at _)

pub begin_memory-put :
    (ttl : ℕ) (key : Bytes) (r : IdempotencyRecord) (until now : Time) (t : List MemEntry)
    → ltb now until ≡ true
    → begin_memory ttl key now (put key r until t) ≡ (r, true, put key r until t)
unfolding begin_memory find_where
begin_memory-put ttl key r until now t live = rw (same_bytes-same key, live)

-- The service with another map.
abbrev pub with_map : {S : Type 0} → Service S → List MemEntry → Service S
with_map s t = record s { mem_store = t }

abbrev pub found :
    {S : Type 0}
    → Service S
    → IdempotencyRecord × Bool × List MemEntry
    → IdempotencyRecord × Bool × Service S
found s (there, exists, t) = (there, exists, with_map s t)

module _ {S : Type 0} (commands : Redis S) (ttl : ℕ) where
  pub begin_memory_only :
      (operation event : Bytes) (now : Time) (s : Service S)
      → s.has_client ≡ false
      → begin commands ttl operation event now s
        ≡ found s (begin_memory ttl (build_key operation event) now s.mem_store)
  unfolding begin
  begin_memory_only operation event now s memory = rw memory

  pub get_memory_only :
      (operation event : Bytes) (now : Time) (s : Service S)
      → s.has_client ≡ false
      → get_record commands ttl operation event now s
        ≡ get_memory (build_key operation event) now s.mem_store
  unfolding get_record
  get_memory_only operation event now s memory = rw memory

  -- What was recorded for the event is found by the next delivery.
  pub begin-recorded :
      (operation event : Bytes) (r : IdempotencyRecord) (until now : Time) (s : Service S)
      → s.has_client ≡ false
      → ltb now until ≡ true
      → begin commands ttl operation event now
          (with_map s (put (build_key operation event) r until s.mem_store))
        ≡ (r, true, with_map s (put (build_key operation event) r until s.mem_store))
  begin-recorded operation event r until now s memory live =
      begin_memory_only operation event now _ memory
      ∙ ap (found s) (begin_memory-put ttl (build_key operation event) r until now s.mem_store live)

  claimed_entry :
      (key : Bytes) (now : Time) (s : Service S) (e : MemEntry) (live : Bool)
      (r : IdempotencyRecord) (s₁ : Service S)
      → found s (if live then (e.saved, true, s.mem_store) else claim ttl key now s.mem_store)
        ≡ (r, false, s₁)
      → s₁ ≡ with_map s (put key (pending_record now) (now + ttl) s.mem_store)
  claimed_entry key now s e true r s₁ h = absurd (cc)
  claimed_entry key now s e false r s₁ h = cc

  claimed_found :
      (key : Bytes) (now : Time) (s : Service S) (o : Option MemEntry) (r : IdempotencyRecord)
      (s₁ : Service S)
      → found s (found_or_claim ttl key now s.mem_store o) ≡ (r, false, s₁)
      → s₁ ≡ with_map s (put key (pending_record now) (now + ttl) s.mem_store)
  claimed_found key now s none r s₁ h = cc
  claimed_found key now s (some e) r s₁ h = claimed_entry key now s e _ r s₁ h

  -- The claim of a key is what it leaves.
  pub begin-claimed :
      (operation event : Bytes) (now : Time) (s : Service S) (r : IdempotencyRecord)
      (s₁ : Service S)
      → s.has_client ≡ false
      → begin commands ttl operation event now s ≡ (r, false, s₁)
      → s₁
        ≡ with_map s (put (build_key operation event) (pending_record now) (now + ttl) s.mem_store)
  unfolding begin_memory
  begin-claimed operation event now s r s₁ memory h =
      claimed_found (build_key operation event) now s _ r s₁
        (sym (begin_memory_only operation event now s memory) ∙ h)
