-- ===== src/Idempotency/Refinement.antt =====
-- internal/modules/idempotency/service.go without Redis: the map answers as the promise says.
use openrails.Base.{
  ◌≡◌, refl, ap, sym, subst, ◌∙◌, inl, inr, ℕ, ◌+◌, true, false, not, Option, none, some, List, [],
  ◌∷◌, ltb, leb, if◌then◌else◌, Bool-cases, All, Pairwise, arith,
}
use openrails.Base.Sql.{find_where, select_where}
use openrails.Rows.{select-Pairwise}
use openrails.Payments.Model.{Time}
use openrails.Idempotency.Service.{
  Bytes, IdempotencyRecord, MemEntry, begin_memory, get_memory, put, cleanup, pending_record,
  same_bytes, has_key, live_record, found_or_claim,
}
use openrails.Idempotency.Spec.{
  View, nothing, saved, Call, begin_call, get_call, store_call, tick_call, time_of, Answer, call,
  call_view, begin_view, begin_answer, answers, view_answers, in_order,
}
use openrails.Idempotency.MapReads.{Apart, get-put, get-cleanup}

-- What `Begin` does to the map, by what the key holds.
abbrev by_found :
    ℕ → Bytes → Time → List MemEntry → Option IdempotencyRecord → Answer × List MemEntry
by_found ttl key now t none =
    ((some (pending_record now), false), put key (pending_record now) (now + ttl) t)
by_found ttl key now t (some r) = ((some r, true), t)

found-by :
    (ttl : ℕ) (key : Bytes) (now : Time) (t : List MemEntry) (o : Option MemEntry)
    → begin_answer (found_or_claim ttl key now t o) ≡ by_found ttl key now t (live_record now o)
found-by ttl key now t none = refl
found-by ttl key now t (some e) = elim (Bool-cases (ltb now e.expires_at)) [
  | inl live ↦ rw live refl
  | inr over ↦ rw over refl
]

begin-by :
    (ttl : ℕ) (key : Bytes) (now : Time) (t : List MemEntry)
    → begin_answer (begin_memory ttl key now t) ≡ by_found ttl key now t (get_memory key now t)
unfolding begin_memory get_memory
begin-by ttl key now t = found-by ttl key now t _

-- The map has an entry for each key, and answers like the view from a time on.
record Agrees (from : Time) (t : List MemEntry) (v : View) : Type 0 where
  apart : Pairwise Apart t
  same : (k : Bytes) (now : Time) → leb from now ≡ true → get_memory k now t ≡ v k now

later-Agrees :
    (from now : Time) (t : List MemEntry) (v : View)
    → leb from now ≡ true
    → Agrees from t v
    → Agrees now t v
later-Agrees from now t v later h = record {
  apart = h.apart;
  same = λ k at after. h.same k at (ground (arith, later, after));
}

others :
    (key : Bytes) (t : List MemEntry)
    → All (λ e. same_bytes e.key key ≡ false) (select_where (λ e. not (has_key key e)) t)
unfolding select_where
others key [] = tt
others key (e ∷ t) = elim (Bool-cases (has_key key e)) [
  | inl same ↦ rw same (others key t)
  | inr other ↦ rw other (other, others key t)
]

put-Agrees :
    (from : Time) (key : Bytes) (r : IdempotencyRecord) (until : Time) (t : List MemEntry)
    (v : View)
    → Agrees from t v
    → Agrees from (put key r until t) (saved key r until v)
put-Agrees from key r until t v h = record {
  apart = (others key t, select-Pairwise Apart (λ e. not (has_key key e)) t h.apart);
  same = λ k now after.
      get-put key r until t k now
      ∙ ap (λ o. if same_bytes key k then (if ltb now until then some r else none) else o)
          (h.same k now after);
}

cleanup-Agrees :
    (now : Time) (t : List MemEntry) (v : View) → Agrees now t v → Agrees now (cleanup now t) v
unfolding cleanup
cleanup-Agrees now t v h = record {
  apart = select-Pairwise Apart (λ e. not (ltb e.expires_at now)) t h.apart;
  same = λ k at after. get-cleanup now t k at after h.apart ∙ h.same k at after;
}

begin-Agrees :
    (ttl : ℕ) (key : Bytes) (now : Time) (t : List MemEntry) (v : View)
    (o : Option IdempotencyRecord)
    → Agrees now t v
    → ((by_found ttl key now t o).0 ≡ (begin_view ttl key now v o).0)
      × Agrees now (by_found ttl key now t o).1 (begin_view ttl key now v o).1
begin-Agrees ttl key now t v none h =
    (refl, put-Agrees now key (pending_record now) (now + ttl) t v h)
begin-Agrees ttl key now t v (some r) h = (refl, h)

call-Agrees :
    (ttl : ℕ) (c : Call) (t : List MemEntry) (v : View)
    → Agrees (time_of c) t v
    → ((call ttl c t).0 ≡ (call_view ttl c v).0)
      × Agrees (time_of c) (call ttl c t).1 (call_view ttl c v).1
call-Agrees ttl (begin_call key now) t v h =
    let found =
      begin-by ttl key now t ∙ ap (by_found ttl key now t) (h.same key now (ground arith)) in
    subst
      (λ (x : Answer × List MemEntry).
        (x.0 ≡ (begin_view ttl key now v (v key now)).0)
        × Agrees now x.1 (begin_view ttl key now v (v key now)).1)
      (sym found) (begin-Agrees ttl key now t v (v key now) h)
call-Agrees ttl (get_call key now) t v h = (ap (λ o. (o, true)) (h.same key now (ground arith)), h)
call-Agrees ttl (store_call key r lifetime now) t v h =
    (refl, put-Agrees now key r (now + lifetime) t v h)
call-Agrees ttl (tick_call now) t v h = (refl, cleanup-Agrees now t v h)

answers-Agrees :
    (ttl : ℕ) (from : Time) (calls : List Call) (t : List MemEntry) (v : View)
    → in_order from calls ≡ true
    → Agrees from t v
    → answers ttl calls t ≡ view_answers ttl calls v
unfolding answers view_answers in_order
answers-Agrees ttl from [] t v ordered h = refl
answers-Agrees ttl from (c ∷ calls) t v ordered h =
    let later : leb from (time_of c) ≡ true = ground (arith, ordered) in
    let rest : in_order (time_of c) calls ≡ true = ground (arith, ordered) in
    let (same, after) = call-Agrees ttl c t v (later-Agrees from (time_of c) t v later h) in
    rw (same, answers-Agrees ttl (time_of c) calls _ _ rest after) refl

-- The map keeps the promise of the service. From an empty map, any sequence of Begin, Get, stores
-- of an outcome and ticks of the cleanup, made in the order of their times, gets the same answers
-- as from a function that says which record each key holds at each time, in which a record is there
-- exactly until its lifetime is over and a cleanup does nothing.
pub answers-refine :
    (ttl : ℕ) (calls : List Call)
    → in_order 0 calls ≡ true
    → answers ttl calls [] ≡ view_answers ttl calls nothing
unfolding get_memory find_where
answers-refine ttl calls ordered =
    answers-Agrees ttl 0 calls [] nothing ordered
      (record { apart = tt; same = λ k now after. refl })
