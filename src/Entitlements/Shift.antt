-- ===== src/Entitlements/Shift.antt =====
-- internal/db/repo/entitlement_timeline.go: moving the end of a window and the windows behind it,
-- as `ShiftEntitlementTimeline` does.
use openrails.Base.{
  ◌≤◌, ◌<◌, ◌≡◌, refl, inl, inr, Bool, true, false, ◌&&◌, Option, none, some, [], ◌∷◌, arith, ltb,
  leb, ◌==◌, if◌then◌else◌, Bool-cases, All,
}
use openrails.Base.Int.{ℤ}
use openrails.Rows.{update-update}
use openrails.Base.Sql.{update_where, member}
use openrails.Entitlements.Model.{
  Time, Entitlement, Table, is_live, has_key, ends_after, add_seconds,
}
use openrails.Entitlements.Timeline.{shift_row, shift_end, is_shifted, is_live_id}
use openrails.Entitlements.Overlap.{
  HasLength, Apart, Apart-flip, Beside, IsTimeline, change-IsTimeline,
}

-- `σ` moves the times from `old` on so that they keep their order and none comes before `new`.
pub record Moves (old new : Time) (σ : Time → Time) : Type 0 where
  pub order : (a b : Time) → old ≤ a → old ≤ b → ltb (σ a) (σ b) ≡ ltb a b
  pub floor : (a : Time) → old ≤ a → new ≤ σ a

abbrev pub resized : Option Time → Time → Entitlement → Entitlement
resized end_at now e = record e { end_at = end_at; updated_at = now }

abbrev pub later : Entitlement → Time → Entitlement → Bool
later x old e = has_key x.user_id x.entitlement e && is_live e && leb old e.start_at

module _ (old new now : Time) (s : ℤ) (m : Moves old new (λ t. add_seconds t s)) where
  shift-ends_after :
      (t : Time) (e : Option Time)
      → old ≤ t
      → ends_after old e ≡ true
      → ends_after (add_seconds t s) (shift_end s e) ≡ ends_after t e
  shift-ends_after t none h k = refl
  shift-ends_after t (some u) h k = m.order t u h (ground arith)

  shift-Apart_both :
      (a b : Entitlement)
      → old ≤ a.start_at
      → old ≤ b.start_at
      → HasLength a
      → HasLength b
      → Apart a b
      → Apart (shift_row s now a) (shift_row s now b)
  shift-Apart_both a b ha hb la lb h =
      ground
        (arith, shift-ends_after a.start_at b.end_at ha, shift-ends_after b.start_at a.end_at hb)

  module _ (x : Entitlement) (live : is_live x ≡ true) (end : x.end_at ≡ some old)
      (room : x.start_at < new) where
    shift-Apart_one :
        (a b : Entitlement)
        → later x old a ≡ true
        → later x old b ≡ false
        → Apart x b
        → Apart a b
        → Apart (shift_row s now a) b
    shift-Apart_one a b la lb hx h = ground (arith, m.floor a.start_at)

    shift-Apart_self :
        (b : Entitlement)
        → later x old b ≡ true
        → Apart x b
        → Apart (resized (some new) now x) (shift_row s now b)
    shift-Apart_self b lb h = ground (arith, m.floor b.start_at)

    stay-Apart_self :
        (b : Entitlement) → later x old b ≡ false → Apart x b → Apart (resized (some new) now x) b
    stay-Apart_self b lb h = ground arith

    unfoldable pub carry : Entitlement → Entitlement
    carry e = if later x old e then shift_row s now e else e

    carry-id : (b : Entitlement) → (carry b).id ≡ b.id
    unfolding carry
    carry-id b = ground arith

    -- A row that is no longer live overlaps nothing.
    pub carry-Apart_dead :
        (x' b : Entitlement) → is_live x' ≡ false → x'.id ≡ x.id → Apart x b → Apart x' (carry b)
    carry-Apart_dead x' b dead same h = ground (arith, carry-id b)

    carry-HasLength : (a : Entitlement) → Apart x a → HasLength a → HasLength (carry a)
    unfolding carry
    carry-HasLength a xa h = elim (Bool-cases (later x old a)) [
      | inl p ↦ rw p (ground (arith, shift-ends_after a.start_at a.end_at))
      | inr p ↦ rw p h
    ]

    pub carry-Apart_self :
        (b : Entitlement) → Apart x b → HasLength b → Apart (resized (some new) now x) (carry b)
    unfolding carry
    carry-Apart_self b h l = elim (Bool-cases (later x old b)) [
      | inl q ↦ rw q (shift-Apart_self b q h)
      | inr q ↦ rw q (stay-Apart_self b q h)
    ]

    carry-Apart :
        (a b : Entitlement)
        → Apart x a
        → Apart x b
        → HasLength a
        → HasLength b
        → Apart a b
        → Apart (carry a) (carry b)
    unfolding carry
    carry-Apart a b xa xb la lb h = elim (Bool-cases (later x old a)) [
      | inl p ↦ elim (Bool-cases (later x old b)) [
        | inl q ↦ rw (p, q) (shift-Apart_both a b (ground arith) (ground arith) la lb h)
        | inr q ↦ rw (p, q) (shift-Apart_one a b p q xb h)
      ]
      | inr p ↦ elim (Bool-cases (later x old b)) [
        | inl q ↦
            rw (p, q)
              (Apart-flip (shift_row s now b) a (shift-Apart_one b a q p xa (Apart-flip a b h)))
        | inr q ↦ rw (p, q) h
      ]
    ]

    module _ (f : Entitlement → Entitlement) (same_id : (f x).id ≡ x.id) (length : HasLength (f x))
        (apart : (b : Entitlement) → Apart x b → HasLength b → Apart (f x) (carry b)) where
      -- A row after both statements.
      moved : Entitlement → Entitlement
      moved e =
          let y = if is_live_id x.id e then f e else e in
          if is_shifted x.user_id x.entitlement old (x.id ∷ []) y then shift_row s now y else y

      moved_self : moved x ≡ f x
      unfolding moved member
      moved_self = ground arith

      moved-other : (e : Entitlement) → (x.id == e.id) ≡ false → moved e ≡ carry e
      unfolding moved member carry
      moved-other e h = ground arith

      -- Both statements together keep the timeline.
      pub shift-IsTimeline :
          (t : Table)
          → All (Beside x) t
          → IsTimeline t
          → IsTimeline (
              update_where
                (is_shifted x.user_id x.entitlement old (x.id ∷ []))
                (shift_row s now)
                (update_where (is_live_id x.id) f t))
      unfolding moved
      shift-IsTimeline t beside h = rw update-update (
          change-IsTimeline x (f x) carry length carry-HasLength apart carry-Apart moved moved_self
            moved-other t beside h)
