-- ===== src/Entitlements/Ends.antt =====
-- internal/db/repo/entitlement_timeline.go: the changes of one window that `SetEntitlementEndAtTx`
-- and `RevokeEntitlementNowTx` make.
use openrails.Base.{
  ◌+◌, ◌-◌, ◌*◌, ◌/◌, ◌%◌, ◌≤◌, ◌≡◌, refl, sym, subst, ◌⊎◌, inl, inr, true, false, Option, none,
  some, List, arith, leb, if◌then◌else◌, Bool-cases, ok,
}
use openrails.Base.Int.{ℤ}
use openrails.Base.Sql.{update_where}
use openrails.Entitlements.Model.{
  Time, Uuid, UserId, Name, Duration, Entitlement, Table, Db, exec, is_live, add_seconds,
  whole_seconds, duration_between, second,
}
use openrails.Entitlements.Timeline.{
  shift_row, is_shifted, delete_row, shift_entitlement_timeline, is_zero,
}
use openrails.Entitlements.Overlap.{HasLength, Apart}
use openrails.Entitlements.Shift.{Moves, resized, later}

-- The distance by which the windows move: exact on whole seconds, and never past the new end when
-- the end comes earlier.
abbrev pub seconds_between : Time → Time → ℤ
seconds_between old new = whole_seconds (duration_between old new)

forward :
    (old new t : Time)
    → old ≤ new
    → (new - old) % second ≡ 0
    → add_seconds t (seconds_between old new) ≡ t + (new - old)
unfolding add_seconds whole_seconds
forward old new t le exact = ground arith

backward :
    (old new t : Time)
    → new ≤ old
    → old ≤ t
    → (add_seconds t (seconds_between old new) + (old - new) / second * second ≡ t)
unfolding add_seconds whole_seconds
backward old new t le ge = ground arith

-- The ends that the theorems below speak of: a later end is a whole number of seconds away.
abbrev pub OnWholeSeconds : Option Time → Option Time → Type 0
OnWholeSeconds (some old) (some new) = old ≤ new → (new - old) % second ≡ 0
OnWholeSeconds _ _ = Unit

pub between-Moves :
    (old new : Time)
    → (old ≤ new → (new - old) % second ≡ 0)
    → Moves old new (λ t. add_seconds t (seconds_between old new))
between-Moves old new exact = elim (Bool-cases (leb old new)) [
  | inl up ↦
      let e = λ (t : Time). forward old new t (ground arith) (exact (ground arith)) in
      record {
        order = λ a b ha hb. rw (e a, e b) (ground arith);
        floor = λ a ha. rw (e a) (omega arith);
      }
  | inr down ↦
      let e = λ (t : Time) (h : old ≤ t). backward old new t (ground arith) h in
      record {
        order = λ a b ha hb. ground (arith, e a ha, e b hb);
        floor = λ a ha. ground (arith, e a ha);
      }
]

pub exec-ok : (db : Db) (t : Table) {t' : Table} → exec db t ≡ ok t' → t' ≡ t
exec-ok db t h = ground arith

-- A shift leaves the table alone where the distance has no whole second, and moves the rows else.
pub shift-cases :
    (db : Db) (u : UserId) (n : Name) (from : Time) (delta : Duration) (now : Time)
    (excluded : List Uuid) (t : Table) {t' : Table}
    → shift_entitlement_timeline db u n from delta now excluded t ≡ ok t'
    → ((t' ≡ t) × (is_zero (whole_seconds delta) ≡ true))
      ⊎ (t' ≡ update_where (is_shifted u n from excluded) (shift_row (whole_seconds delta) now) t)
unfolding shift_entitlement_timeline whole_seconds
shift-cases db u n from delta now excluded t h = elim (Bool-cases (is_zero (whole_seconds delta))) [
  | inl z ↦ inl (ground arith, z)
  | inr z ↦ inr (ground arith)
]

-- The change of the row itself: its end moves, or the row is dead.
pub record EndChange (x : Entitlement) (end_at : Option Time) (now : Time) (x' : Entitlement)
    : Type 0 where
  pub same_id : x'.id ≡ x.id
  pub length : HasLength x'
  pub outcome : (x' ≡ resized end_at now x) ⊎ (is_live x' ≡ false)

-- `new` leaves no instant to the row that it did not have.
abbrev pub Within : Option Time → Option Time → Type 0
Within none old = old ≡ none
Within (some new) none = Unit
Within (some new) (some old) = new ≤ old

module _ (x x' : Entitlement) (end_at : Option Time) (now : Time)
    (change : EndChange x end_at now x') where
  pub Within-Apart : (b : Entitlement) → Within end_at x.end_at → Apart x b → Apart x' b
  Within-Apart b w h = elim change.outcome [
    | inl e ↦ subst (λ r. Apart r b) (sym e) (resized-Apart end_at x.end_at refl w)
    | inr dead ↦ ground (arith, change.same_id)
  ]
    where
      resized-Apart :
          (new old : Option Time) → x.end_at ≡ old → Within new old → Apart (resized new now x) b
      resized-Apart none old e v = ground arith
      resized-Apart (some n) none e v = ground arith
      resized-Apart (some n) (some o) e v = ground arith

  unfoldable pub supersede : Time → Entitlement → Entitlement
  supersede old e = if later x old e then delete_row now e else e

  pub supersede-HasLength :
      (old : Time) (a : Entitlement) → Apart x a → HasLength a → HasLength (supersede old a)
  unfolding supersede
  supersede-HasLength old a xa h = ground arith

  pub supersede-Apart :
      (old : Time) (a b : Entitlement)
      → Apart x a
      → Apart x b
      → HasLength a
      → HasLength b
      → Apart a b
      → Apart (supersede old a) (supersede old b)
  unfolding supersede
  supersede-Apart old a b xa xb la lb h = ground arith

  pub supersede-Apart_self :
      (old : Time) (b : Entitlement)
      → is_live x ≡ true
      → x.end_at ≡ some old
      → Apart x b
      → HasLength b
      → Apart x' (supersede old b)
  unfolding supersede
  supersede-Apart_self old b live end h l = elim change.outcome [
    | inl e ↦ subst (λ r. Apart r (supersede old b)) (sym e) (resized-Apart end_at)
    | inr dead ↦ ground (arith, change.same_id)
  ]
    where
      resized-Apart : (new : Option Time) → Apart (resized new now x) (supersede old b)
      resized-Apart none = ground arith
      resized-Apart (some n) = ground arith
