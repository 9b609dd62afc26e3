-- ===== src/Entitlements/Push.antt =====
-- internal/modules/entitlements/entitlement_service.go: `PushNewEntitlement` and the timeline.
use openrails.Base.{
  ◌≤◌, ◌≡◌, refl, sym, subst, inl, inr, true, false, ◌&&◌, Option, none, some, [], ◌∷◌, ◌==◌, ok,
  arith, All, Bool-cases, >>=-eq-ok,
}
use openrails.Base.Sql.{exists_where}
use openrails.Entitlements.Model.{
  Time, Duration, UserId, Uuid, Name, Entitlement, Table, Db, is_live, has_key, ends_after,
}
use openrails.Entitlements.Overlap.{IsTimeline, Apart}
use openrails.Entitlements.Timeline.{lock_entitlement_timeline}
use openrails.Entitlements.Service.{
  PushNewEntitlementParams, check_push, is_indefinite, later_of, max_of, tail_end, start_of,
  end_choice, new_window, insert_window, append_window, push_tx, push_new_entitlement, no_length,
  set_count,
}

abbrev EndsBy : Option Time → Time → Type 0
EndsBy none s = Unit
EndsBy (some v) s = v ≤ s

-- No live window of the key reaches past `s`.
abbrev Clear : UserId → Name → Time → Entitlement → Type 0
Clear u n s e = (has_key u n e && is_live e && ends_after s e.end_at) ≡ false

max_of_bound : (a b : Option Time) (s : Time) → EndsBy (max_of a b) s → EndsBy a s × EndsBy b s
max_of_bound none b s h = (tt, h)
max_of_bound (some a) none s h = (h, tt)
max_of_bound (some a) (some b) s h = ground arith

tail_end-Clear :
    (u : UserId) (n : Name) (s : Time) (t : Table)
    → exists_where (is_indefinite u n) t ≡ false
    → EndsBy (tail_end u n t) s
    → All (Clear u n s) t
unfolding tail_end exists_where
tail_end-Clear u n s [] no_end h = tt
tail_end-Clear u n s (e ∷ t) no_end h = elim (Bool-cases (has_key u n e && is_live e)) [
  | inl mine ↦
      let b = max_of_bound e.end_at (tail_end u n t) s (rw mine at h) in
      (head_clear e.end_at refl b.0, tail_end-Clear u n s t (ground arith) b.1)
  | inr other ↦ (ground arith, tail_end-Clear u n s t (ground arith) (rw other at h))
]
  where
    head_clear : (o : Option Time) → e.end_at ≡ o → EndsBy o s → Clear u n s e
    head_clear none q k = ground arith
    head_clear (some v) q k = ground arith

-- The new window starts no earlier than now, than `not_before`, and than the tail's end.
start_bounds :
    (p : PushNewEntitlementParams) (now : Time) (t : Table)
    → (now ≤ start_of p now t)
      × EndsBy p.not_before (start_of p now t)
      × EndsBy (tail_end p.user_id p.entitlement t) (start_of p now t)
unfolding start_of
start_bounds p now t = later_bounds p.not_before (tail_end p.user_id p.entitlement t)
  where
    later_bounds :
        (a b : Option Time)
        → (now ≤ later_of b (later_of a now))
          × EndsBy a (later_of b (later_of a now))
          × EndsBy b (later_of b (later_of a now))
    later_bounds none none = ground arith
    later_bounds none (some v) = ground arith
    later_bounds (some w) none = ground arith
    later_bounds (some w) (some v) = ground arith

-- A window that no live window of its key reaches into can be added.
insert-IsTimeline :
    (p : PushNewEntitlementParams) (id : Uuid) (now start : Time) (end_at : Option Time) (t : Table)
    → IsTimeline t
    → All (λ e. (id == e.id) ≡ false) t
    → All (Clear p.user_id p.entitlement start) t
    → ends_after start end_at ≡ true
    → IsTimeline (new_window p id now start end_at ∷ t)
insert-IsTimeline p id now start end_at t v fresh clear l = ((l, v.0), (beside t fresh clear, v.1))
  where
    beside :
        (r : Table)
        → All (λ e. (id == e.id) ≡ false) r
        → All (Clear p.user_id p.entitlement start) r
        → All (Apart (new_window p id now start end_at)) r
    beside [] f c = tt
    beside (e ∷ r) f c = ((f.0, ground arith), beside r f.1 c.1)

-- A successful call went through the checks, and either changed nothing or inserted one window.
pub data Pushed (p : PushNewEntitlementParams) (id : Uuid) (now : Time) (t : Table)
    : Option Entitlement → Table → Type 0 where
  unchanged : {o : Option Entitlement} {t' : Table} → o ≡ none → t' ≡ t → Pushed p id now t o t'
  appended :
      (end_at : Option Time) {o : Option Entitlement} {t' : Table}
      → end_choice p.indefinite p.duration p.end_at (start_of p now t) ≡ some end_at
      → exists_where (is_indefinite p.user_id p.entitlement) t ≡ false
      → o ≡ some (new_window p id now (start_of p now t) end_at)
      → t' ≡ new_window p id now (start_of p now t) end_at ∷ t
      → Pushed p id now t o t'

insert-ok :
    (db : Db) (e : Entitlement) (t : Table) {o : Option Entitlement} {t' : Table}
    → insert_window db e t ≡ ok (o, t')
    → (o ≡ some e) × (t' ≡ e ∷ t)
insert-ok db e t h = elim (Bool-cases (db.accepts (e ∷ t))) [
  | inl yes_row ↦ ground arith
  | inr no_row ↦ absurd (ground arith)
]

check_push-ok :
    (p : PushNewEntitlementParams) {v : Unit {0}}
    → check_push p ≡ ok v
    → (no_length p.duration ≡ false) × (set_count p ≡ 1)
unfolding check_push
check_push-ok p h = ground arith

module _ (db : Db) (p : PushNewEntitlementParams) (id : Uuid) (now : Time) (t : Table) where
  append_window-Pushed :
      (c : Option (Option Time)) {o : Option Entitlement} {t' : Table}
      → end_choice p.indefinite p.duration p.end_at (start_of p now t) ≡ c
      → exists_where (is_indefinite p.user_id p.entitlement) t ≡ false
      → append_window db p id now (start_of p now t) c t ≡ ok (o, t')
      → Pushed p id now t o t'
  unfolding append_window
  append_window-Pushed none e no_end h = unchanged (ground arith) (ground arith)
  append_window-Pushed (some end_at) e no_end h =
      let (same, table) = insert-ok db (new_window p id now (start_of p now t) end_at) t h in
      appended end_at e no_end same table

  push_tx-Pushed :
      {o : Option Entitlement} {t' : Table}
      → push_tx db p id now t ≡ ok (o, t')
      → Pushed p id now t o t'
  unfolding push_tx
  push_tx-Pushed h =
      let (_, locked, body) = >>=-eq-ok (lock_entitlement_timeline p.user_id p.entitlement) _ h in
      elim (Bool-cases (exists_where (is_indefinite p.user_id p.entitlement) t)) [
        | inl endless ↦ unchanged (ground arith) (ground arith)
        | inr open_end ↦ append_window-Pushed _ refl open_end (rw open_end at body)
      ]

  pub push_new_entitlement-Pushed :
      {o : Option Entitlement} {t' : Table}
      → push_new_entitlement db p id now t ≡ ok (o, t')
      → (no_length p.duration ≡ false) × (set_count p ≡ 1) × Pushed p id now t o t'
  unfolding push_new_entitlement
  push_new_entitlement-Pushed h =
      let (_, checked, rest) = >>=-eq-ok (check_push p) _ h in
      let (a, b) = check_push-ok p checked in (a, b, push_tx-Pushed rest)

  end_choice-HasLength :
      (d : Option Duration) (e end_at : Option Time) (start : Time)
      → no_length d ≡ false
      → end_choice p.indefinite d e start ≡ some end_at
      → ends_after start end_at ≡ true
  end_choice-HasLength (some d) e end_at start l h = ground arith
  end_choice-HasLength none (some e) end_at start l h = ground arith
  end_choice-HasLength none none end_at start l h = ground arith

  -- PushNewEntitlement keeps the timeline: the window that it appends has a length and overlaps no
  -- live window of its user's entitlement. The new identifier is fresh.
  pub push_new_entitlement-IsTimeline :
      {o : Option Entitlement} {t' : Table}
      → IsTimeline t
      → All (λ e. (id == e.id) ≡ false) t
      → push_new_entitlement db p id now t ≡ ok (o, t')
      → IsTimeline t'
  push_new_entitlement-IsTimeline v fresh h =
      let (l, one, r) = push_new_entitlement-Pushed h in kept l r
    where
      kept :
          {o : Option Entitlement} {t' : Table}
          → no_length p.duration ≡ false
          → Pushed p id now t o t'
          → IsTimeline t'
      kept l (unchanged _ same) = subst IsTimeline (sym same) v
      kept l (appended end_at c no_end _ table) = subst IsTimeline (sym table) (
          insert-IsTimeline p id now (start_of p now t) end_at t v fresh
            (tail_end-Clear p.user_id p.entitlement _ t no_end (start_bounds p now t).2)
            (end_choice-HasLength p.duration p.end_at end_at _ l c))

  -- Where PushNewEntitlement returns a window, adding it is the only change, and the window starts
  -- no earlier than the call's time, than NotBefore, and than the end of any live window of its
  -- user's entitlement.
  pub push_new_entitlement-start :
      {e : Entitlement} {t' : Table}
      → push_new_entitlement db p id now t ≡ ok (some e, t')
      → (t' ≡ e ∷ t)
        × (now ≤ e.start_at)
        × EndsBy p.not_before e.start_at
        × All (Clear p.user_id p.entitlement e.start_at) t
  push_new_entitlement-start h = let (_, _, r) = push_new_entitlement-Pushed h in started r refl
    where
      started :
          {e : Entitlement} {o : Option Entitlement} {t' : Table}
          → Pushed p id now t o t'
          → o ≡ some e
          → (t' ≡ e ∷ t)
            × (now ≤ e.start_at)
            × EndsBy p.not_before e.start_at
            × All (Clear p.user_id p.entitlement e.start_at) t
      started (unchanged gone _) k = absurd (cc)
      started {e} {t' = t'} (appended end_at c no_end window table) k =
          let (a, b, tail) = start_bounds p now t in
          let w : new_window p id now (start_of p now t) end_at ≡ e = cc in
          subst
            (λ x.
              (t' ≡ x ∷ t)
              × (now ≤ x.start_at)
              × EndsBy p.not_before x.start_at
              × All (Clear p.user_id p.entitlement x.start_at) t)
            w (table, a, b, tail_end-Clear p.user_id p.entitlement _ t no_end tail)
