-- ===== src/Idempotency/MapReads.antt =====
-- internal/modules/idempotency/service.go without Redis: what `getMemory` answers after a write and
-- after a tick of the cleanup.
use openrails.Base.{
  ◌≡◌, refl, ap, sym, subst, ◌∙◌, inl, inr, Bool, true, false, not, none, List, [], ◌∷◌, ltb, leb,
  Bool-cases, All, All-imp, Pairwise, arith,
}
use openrails.Base.Sql.{find_where, select_where}
use openrails.Rows.{true_ne_false}
use openrails.Payments.Model.{Time}
use openrails.Idempotency.Service.{
  Bytes, IdempotencyRecord, MemEntry, get_memory, put, cleanup, same_bytes, has_key,
}
use openrails.Idempotency.Spec.{saved}

same_bytes_sound : (xs ys : Bytes) → same_bytes xs ys ≡ true → xs ≡ ys
unfolding same_bytes
same_bytes_sound [] [] h = refl
same_bytes_sound [] (y ∷ ys) h = cc
same_bytes_sound (x ∷ xs) [] h = cc
same_bytes_sound (x ∷ xs) (y ∷ ys) h =
    let tail : same_bytes xs ys ≡ true = ground (arith, h) in
    let head : x ≡ y = ground (arith, h) in rw (head, same_bytes_sound xs ys tail) refl

-- Two entries of different keys.
abbrev pub Apart : MemEntry → MemEntry → Type 0
Apart a b = same_bytes b.key a.key ≡ false

other_key :
    (x k key : Bytes) → same_bytes key k ≡ false → same_bytes x k ≡ true → same_bytes x key ≡ false
other_key x k key apart same = elim (Bool-cases (same_bytes x key)) [
  | inr other ↦ other
  | inl taken ↦ absurd (true_ne_false (sym same ∙ rw (same_bytes_sound x key taken) apart))
]

find-select :
    (p q : MemEntry → Bool) (t : List MemEntry)
    → ((e : MemEntry) → p e ≡ true → q e ≡ true)
    → find_where p (select_where q t) ≡ find_where p t
unfolding find_where select_where
find-select p q [] h = refl
find-select p q (e ∷ t) h = elim (Bool-cases (p e)) [
  | inl here ↦ rw (h e here, here)
  | inr there ↦ elim (Bool-cases (q e)) [
    | inl kept ↦ rw (kept, there) (find-select p q t h)
    | inr left_out ↦ rw (left_out, there) (find-select p q t h)
  ]
]

find-none :
    (p : MemEntry → Bool) (t : List MemEntry) → All (λ e. p e ≡ false) t → find_where p t ≡ none
unfolding find_where
find-none p [] h = refl
find-none p (e ∷ t) h = rw h.0 (find-none p t h.1)

-- The map after a write, and after a tick.
pub get-put :
    (key : Bytes) (r : IdempotencyRecord) (until : Time) (t : List MemEntry) (k : Bytes)
    (now : Time)
    → get_memory k now (put key r until t)
      ≡ saved key r until (λ k' now'. get_memory k' now' t) k now
unfolding get_memory find_where
get-put key r until t k now = elim (Bool-cases (same_bytes key k)) [
  | inl same ↦ rw same refl
  | inr other ↦
      rw
        (
          other,
          find-select (has_key k) (λ e. not (has_key key e)) t
              (λ e same. ap not (other_key e.key k key other same)),
        )
        refl
]

get_later :
    (e : MemEntry) (t : List MemEntry) (k : Bytes) (now : Time)
    → has_key k e ≡ false
    → get_memory k now (e ∷ t) ≡ get_memory k now t
unfolding get_memory find_where
get_later e t k now other = rw other

get_same :
    (e : MemEntry) (t t' : List MemEntry) (k : Bytes) (now : Time)
    → get_memory k now t' ≡ get_memory k now t
    → get_memory k now (e ∷ t') ≡ get_memory k now (e ∷ t)
unfolding get_memory find_where
get_same e t t' k now same = elim (Bool-cases (has_key k e)) [
  | inl here ↦ rw here refl
  | inr there ↦ rw there same
]

get_dead :
    (e : MemEntry) (t : List MemEntry) (k : Bytes) (at now : Time)
    → leb at now ≡ true
    → ltb e.expires_at at ≡ true
    → All (Apart e) t
    → get_memory k now t ≡ get_memory k now (e ∷ t)
unfolding get_memory find_where
get_dead e t k at now later dead apart = elim (Bool-cases (has_key k e)) [
  | inr other ↦ rw other
  | inl same ↦
      let dead : ltb now e.expires_at ≡ false = ground (arith, later, dead) in
      let key = same_bytes_sound e.key k same in
      let none_left = find-none (has_key k) t (
        All-imp (Apart e) (λ b. has_key k b ≡ false) t
          (λ b apart. subst (λ x. same_bytes b.key x ≡ false) key apart) apart) in
      rw (same, dead, none_left) refl
]

pub get-cleanup :
    (at : Time) (t : List MemEntry) (k : Bytes) (now : Time)
    → leb at now ≡ true
    → Pairwise Apart t
    → get_memory k now (cleanup at t) ≡ get_memory k now t
unfolding cleanup select_where
get-cleanup at [] k now later apart = refl
get-cleanup at (e ∷ t) k now later apart =
    let rest = get-cleanup at t k now later apart.1 in
    elim (Bool-cases (ltb e.expires_at at)) [
      | inl gone ↦ rw gone (rest ∙ get_dead e t k at now later gone apart.0)
      | inr kept ↦ rw kept (get_same e t _ k now rest)
    ]
