-- ===== src/Idempotency/Service.antt =====
-- internal/modules/idempotency/service.go: records of operations under a key, in Redis or in
-- memory. Redis is a parameter: what its three commands answer, and what they leave.
use openrails.Base.{
  ℕ, ◌+◌, ◌/◌, Bool, true, false, not, ◌&&◌, Option, none, some, List, [], ◌∷◌, ◌++◌, ltb, ◌==◌,
  if◌then◌else◌, Result, ok, err,
}
use openrails.Base.Sql.{find_where, select_where}
use openrails.Payments.Model.{Time}

pub data IdempotencyStatus : Type 0 where
  pending success failed : IdempotencyStatus

abbrev pub Bytes : Type 0
Bytes = List ℕ

pub record IdempotencyRecord : Type 0 where
  pub status : IdempotencyStatus
  pub result : Bytes
  pub failure : Bytes
  pub created_at : Time

pub record MemEntry : Type 0 where
  pub key : Bytes
  pub saved : IdempotencyRecord
  pub expires_at : Time

-- `redis.Nil`, or any other failure.
pub data RedisError : Type 0 where
  missing broken : RedisError

-- `GET`, `SET NX` and `SET`, each with the time of the call, and the last two with a lifetime.
pub record Redis (S : Type 0) : Type 0 where
  pub get : Bytes → Time → S → Result RedisError IdempotencyRecord
  pub set_nx : Bytes → IdempotencyRecord → ℕ → Time → S → Result RedisError (Bool × S)
  pub set : Bytes → IdempotencyRecord → ℕ → Time → S → Result RedisError S

-- The state of the service; without a client the commands are not used.
pub record Service (S : Type 0) : Type 0 where
  pub has_client : Bool
  pub redis : S
  pub mem_store : List MemEntry

-- 1 minute in microseconds.
abbrev pub minute : ℕ
minute = 60000000

unfoldable pub same_bytes : Bytes → Bytes → Bool
same_bytes [] [] = true
same_bytes [] (y ∷ ys) = false
same_bytes (x ∷ xs) [] = false
same_bytes (x ∷ xs) (y ∷ ys) = x == y && same_bytes xs ys

-- "idemp:"
abbrev pub key_prefix : Bytes
key_prefix = 105 ∷ 100 ∷ 101 ∷ 109 ∷ 112 ∷ 58 ∷ []

-- `buildKey`
unfoldable pub build_key : Bytes → Bytes → Bytes
build_key operation key = key_prefix ++ (operation ++ (58 ∷ key))

abbrev pub has_key : Bytes → MemEntry → Bool
has_key key e = same_bytes e.key key

-- A write to the map.
abbrev pub put : Bytes → IdempotencyRecord → Time → List MemEntry → List MemEntry
put key saved expires_at t =
    record { key = key; saved = saved; expires_at = expires_at }
    ∷ select_where (λ e. not (has_key key e)) t

abbrev pub pending_record : Time → IdempotencyRecord
pending_record now = record { status = pending; result = []; failure = []; created_at = now }

abbrev pub success_record : Bytes → Time → IdempotencyRecord
success_record result now = record {
  status = success;
  result = result;
  failure = [];
  created_at = now;
}

abbrev pub failed_record : Bytes → Time → IdempotencyRecord
failed_record failure now = record {
  status = failed;
  result = [];
  failure = failure;
  created_at = now;
}

abbrev pub claim : ℕ → Bytes → Time → List MemEntry → IdempotencyRecord × Bool × List MemEntry
claim ttl key now t = (pending_record now, false, put key (pending_record now) (now + ttl) t)

abbrev pub found_or_claim :
    ℕ → Bytes → Time → List MemEntry → Option MemEntry → IdempotencyRecord × Bool × List MemEntry
found_or_claim ttl key now t none = claim ttl key now t
found_or_claim ttl key now t (some e) =
    if ltb now e.expires_at then (e.saved, true, t) else claim ttl key now t

-- `beginMemory`: the record, whether it was there, and the map.
unfoldable pub begin_memory :
    ℕ → Bytes → Time → List MemEntry → IdempotencyRecord × Bool × List MemEntry
begin_memory ttl key now t = found_or_claim ttl key now t (find_where (has_key key) t)

abbrev pub live_record : Time → Option MemEntry → Option IdempotencyRecord
live_record now none = none
live_record now (some e) = if ltb now e.expires_at then some e.saved else none

-- `getMemory`
unfoldable pub get_memory : Bytes → Time → List MemEntry → Option IdempotencyRecord
get_memory key now t = live_record now (find_where (has_key key) t)

-- `cleanupLoop`, one tick: the entries whose time has passed go.
unfoldable pub cleanup : Time → List MemEntry → List MemEntry
cleanup now t = select_where (λ e. not (ltb e.expires_at now)) t

-- The lifetime of a failure: half of the service's, but a minute at least.
abbrev pub failure_ttl : ℕ → ℕ
failure_ttl ttl = if ltb (ttl / 2) minute then minute else ttl / 2

module _ {S : Type 0} (commands : Redis S) (ttl : ℕ) where
  abbrev after_race :
      Bytes → Time → IdempotencyRecord → Bool × S → Result RedisError (IdempotencyRecord × Bool × S)
  after_race key now claimed (true, s) = ok (claimed, false, s)
  after_race key now claimed (false, s) = elim (commands.get key now s) [
    | ok there ↦ ok (there, true, s)
    | err e ↦ err e
  ]

  abbrev set_if_absent :
      Bytes
      → Time
      → S
      → Result RedisError IdempotencyRecord
      → Result RedisError (IdempotencyRecord × Bool × S)
  set_if_absent key now s (ok there) = ok (there, true, s)
  set_if_absent key now s (err broken) = err broken
  set_if_absent key now s (err missing) =
      elim (commands.set_nx key (pending_record now) ttl now s) [
        | ok answer ↦ after_race key now (pending_record now) answer
        | err e ↦ err e
      ]

  -- `beginRedis`
  unfoldable pub begin_redis : Bytes → Time → S → Result RedisError (IdempotencyRecord × Bool × S)
  begin_redis key now s = set_if_absent key now s (commands.get key now s)

  abbrev begin_in_memory : Bytes → Time → Service S → IdempotencyRecord × Bool × Service S
  begin_in_memory key now s =
      let (there, exists, t) = begin_memory ttl key now s.mem_store in
      (there, exists, record s { mem_store = t })

  -- `Begin`: a failure of Redis falls back on the memory.
  unfoldable pub begin : Bytes → Bytes → Time → Service S → IdempotencyRecord × Bool × Service S
  begin operation key now s =
      let full_key = build_key operation key in
      if s.has_client
      then (elim (begin_redis full_key now s.redis) [
        | ok (there, exists, redis) ↦ (there, exists, record s { redis = redis })
        | err e ↦ begin_in_memory full_key now s
      ])
      else begin_in_memory full_key now s

  -- The store of an outcome, in Redis or else in memory.
  abbrev pub store_outcome : Bytes → IdempotencyRecord → ℕ → Time → Service S → Service S
  store_outcome full_key outcome lifetime now s =
      let in_memory = record s { mem_store = put full_key outcome (now + lifetime) s.mem_store } in
      if s.has_client
      then (elim (commands.set full_key outcome lifetime now s.redis) [
        | ok redis ↦ record s { redis = redis }
        | err e ↦ in_memory
      ])
      else in_memory

  -- `Complete`
  unfoldable pub complete : Bytes → Bytes → Bytes → Time → Service S → Service S
  complete operation key result now s =
      store_outcome (build_key operation key) (success_record result now) ttl now s

  -- `Fail`
  unfoldable pub fail : Bytes → Bytes → Bytes → Time → Service S → Service S
  fail operation key failure now s =
      store_outcome (build_key operation key) (failed_record failure now) (failure_ttl ttl) now s

  -- `Get`
  unfoldable pub get_record : Bytes → Bytes → Time → Service S → Option IdempotencyRecord
  get_record operation key now s =
      let full_key = build_key operation key in
      if s.has_client
      then (elim (commands.get full_key now s.redis) [
        | ok there ↦ some there
        | err e ↦ get_memory full_key now s.mem_store
      ])
      else get_memory full_key now s.mem_store
