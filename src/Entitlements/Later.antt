-- ===== src/Entitlements/Later.antt =====
-- internal/db/repo/entitlement_timeline.go: what happens to the later windows of a timeline when the
-- end of one window changes.
use openrails.Base.{
  ◌-◌, ◌%◌, ◌≤◌, ◌<◌, ◌≡◌, refl, sym, subst, inl, inr, true, false, Option, none, some, [], ◌∷◌,
  arith, ◌==◌, if◌then◌else◌, All, Bool-cases, ok, ok-injective,
}
use openrails.Base.Sql.{update_where}
use openrails.Rows.{update-eq-map, update-update}
use openrails.Entitlements.Model.{
  Time, Entitlement, Table, Db, is_live, add_seconds, whole_seconds, duration_between, second,
}
use openrails.Entitlements.Timeline.{
  shift_row, is_shifted, is_live_id, is_superseded, delete_row, settle_later,
  shift_entitlement_timeline, is_zero, bad_end,
}
use openrails.Entitlements.Overlap.{HasLength, Apart, Beside, IsTimeline, change-IsTimeline}
use openrails.Entitlements.Shift.{
  Moves, shift-IsTimeline, carry, carry-Apart_self, carry-Apart_dead,
}
use openrails.Entitlements.Ends.{
  OnWholeSeconds, seconds_between, between-Moves, exec-ok, shift-cases, EndChange, Within,
  Within-Apart, supersede, supersede-HasLength, supersede-Apart, supersede-Apart_self,
}

Within-none : (new : Option Time) → Within new none
Within-none none = refl
Within-none (some n) = tt

module _ (db : Db) (x : Entitlement) (end_at : Option Time) (now : Time)
    (f : Entitlement → Entitlement) (change : EndChange x end_at now (f x))
    (live : is_live x ≡ true) (t : Table) (beside : All (Beside x) t) (valid : IsTimeline t) where
  abbrev first : Table
  first = update_where (is_live_id x.id) f t

  -- Only the row itself changes, and it gains no time.
  stay-IsTimeline : Within end_at x.end_at → IsTimeline first
  stay-IsTimeline w = rw update-eq-map (
      change-IsTimeline x (f x) (λ e. e) change.length (λ a xa h. h)
        (λ b h l. Within-Apart x (f x) end_at now change b w h) (λ a b xa xb la lb h. h)
        (λ e. if is_live_id x.id e then f e else e) (ground arith) (λ e h. ground arith) t beside
        valid)

  supersede-IsTimeline :
      (old : Time)
      → x.end_at ≡ some old
      → IsTimeline
          (update_where (is_superseded x.user_id x.entitlement old x.id) (delete_row now) first)
  unfolding supersede
  supersede-IsTimeline old e = rw update-update (
      change-IsTimeline x (f x) (supersede x (f x) end_at now change old) change.length
        (supersede-HasLength x (f x) end_at now change old)
        (λ b h l. supersede-Apart_self x (f x) end_at now change old b live e h l)
        (supersede-Apart x (f x) end_at now change old)
        (λ r.
          let y = if is_live_id x.id r then f r else r in
          if is_superseded x.user_id x.entitlement old x.id y then delete_row now y else y)
        (ground (arith, change.same_id)) (λ r h. ground arith) t beside valid)

  carry-Apart_first :
      (old new : Time) (m : Moves old new (λ t. add_seconds t (seconds_between old new)))
      (e : x.end_at ≡ some old) (room : x.start_at < new)
      → end_at ≡ some new
      → (b : Entitlement) → Apart x b
      → HasLength b
      → Apart (f x) (carry old new now (seconds_between old new) m x live e room b)
  carry-Apart_first old new m e room n b h l = elim change.outcome [
    | inl same ↦
        subst (λ r. Apart r (carry old new now (seconds_between old new) m x live e room b))
          (sym same)
          (rw n (carry-Apart_self old new now (seconds_between old new) m x live e room b h l))
    | inr dead ↦
        carry-Apart_dead old new now (seconds_between old new) m x live e room (f x) b dead
          change.same_id h
  ]

  moved-IsTimeline :
      (old new : Time)
      → x.end_at ≡ some old
      → end_at ≡ some new
      → x.start_at < new
      → (old ≤ new → (new - old) % second ≡ 0)
      → IsTimeline (
          update_where
            (is_shifted x.user_id x.entitlement old (x.id ∷ []))
            (shift_row (seconds_between old new) now)
            first)
  moved-IsTimeline old new e n room exact =
      let m = between-Moves old new exact in
      shift-IsTimeline old new now (seconds_between old new) m x live e room f change.same_id
        change.length (carry-Apart_first old new m e room n) t beside valid

  -- A distance that comes to no whole second moves nothing, and then the end came no later.
  no_shift :
      (old new : Time)
      → (old ≤ new → (new - old) % second ≡ 0)
      → is_zero (seconds_between old new) ≡ true
      → new ≤ old
  unfolding whole_seconds
  no_shift old new exact z = ground arith

  pub settle-IsTimeline :
      (old new : Option Time) {t' : Table}
      → x.end_at ≡ old
      → end_at ≡ new
      → (bad_end x.start_at new ≡ false)
      → OnWholeSeconds old new
      → settle_later db x old new now first ≡ ok t'
      → IsTimeline t'
  unfolding settle_later shift_entitlement_timeline
  settle-IsTimeline none new e n room exact h =
      subst IsTimeline (ok-injective h) (stay-IsTimeline (rw (n, e) (Within-none new)))
  settle-IsTimeline (some o) none e n room exact h =
      subst IsTimeline (sym (exec-ok db _ h)) (supersede-IsTimeline o e)
  settle-IsTimeline (some o) (some w) {t' = t'} e n room exact h = elim (Bool-cases (w == o)) [
    | inl same ↦
        subst IsTimeline (ok-injective (rw same at h)) (stay-IsTimeline (rw (n, e) (ground arith)))
    | inr moves ↦ after_shift (rw moves at h)
  ]
    where
      after_shift :
          shift_entitlement_timeline db x.user_id x.entitlement o
              (duration_between o w)
              now
              (x.id ∷ [])
              first
            ≡ ok t'
          → IsTimeline t'
      after_shift k =
          elim (shift-cases db x.user_id x.entitlement o (duration_between o w) now (x.id ∷ [])
            first k) [
              | inl (same, z) ↦
                  subst IsTimeline (sym same) (stay-IsTimeline (rw (n, e) (no_shift o w exact z)))
              | inr moved ↦
                  subst IsTimeline (sym moved) (moved-IsTimeline o w e n (ground arith) exact)
            ]
