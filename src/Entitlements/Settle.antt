-- ===== src/Entitlements/Settle.antt =====
-- internal/db/repo/entitlement_timeline.go: `SetEntitlementEndAtTx` and `RevokeEntitlementNowTx`
-- and the timeline.
use openrails.Base.{
  ◌≡◌, refl, subst, inl, inr, Bool, true, false, not, ◌&&◌, ◌||◌, Option, none, some, arith, ◌==◌,
  All, is_none, Bool-cases, Option-cases, Result, ok, err, ok-injective, ◌>>◌, ◌>>=◌, refuse_if,
}
use openrails.Base.Sql.{find_where}
use openrails.Entitlements.Model.{
  Time, Uuid, Entitlement, Error, EntitlementRevokeReason, Table, Db, exec,
}
use openrails.Entitlements.Timeline.{
  set_entitlement_end_at, get_entitlement_by_id, revoke_entitlement_now, change_end_at,
  revoke_window, is_closed, revoke_row, bad_end,
}
use openrails.Entitlements.Overlap.{Beside, IsTimeline, found-Beside}
use openrails.Entitlements.Shift.{resized}
use openrails.Entitlements.Ends.{OnWholeSeconds, EndChange}
use openrails.Entitlements.Later.{settle-IsTimeline}

abbrev found_test : Db → Uuid → Entitlement → Bool
found_test db id e = e.id == id && (is_none e.deleted_at || not db.hides_deleted)

-- The row that a lookup by identifier finds.
found :
    (db : Db) (id : Uuid) (t : Table) {x : Entitlement}
    → get_entitlement_by_id db id t ≡ ok x
    → IsTimeline t
    → All (Beside x) t
unfolding get_entitlement_by_id
found db id t {x} h v = elim (Option-cases (find_where (found_test db id) t)) [
  | inl e ↦ absurd (ground arith)
  | inr (y, e) ↦ found-Beside (found_test db id) x t v (ground arith)
]

-- Inversion of a transaction: a check, the lock, a statement, and what follows it.
steps :
    (db : Db) (b : Bool) (e : Error) (l : Result Error (Unit {0})) (u : Table)
    (k : Table → Result Error Table) {t' : Table}
    → (refuse_if b e >> (l >> (exec db u >>= k))) ≡ ok t'
    → (b ≡ false) × (k u ≡ ok t')
steps db true e l u k h = absurd (cc)
steps db false e (err x) u k h = absurd (cc)
steps db false e (ok _) u k h = elim (Bool-cases (db.accepts u)) [
  | inl yes_row ↦ (refl, rw yes_row at h)
  | inr no_row ↦ absurd (ground arith)
]

module _ (db : Db) (x : Entitlement) (now : Time) (t : Table) (beside : All (Beside x) t)
    (valid : IsTimeline t) (open_row : is_closed x ≡ false) where
  change_end_at-IsTimeline :
      (end_at : Option Time) {t' : Table}
      → OnWholeSeconds x.end_at end_at
      → change_end_at db x end_at now t ≡ ok t'
      → IsTimeline t'
  unfolding change_end_at
  change_end_at-IsTimeline end_at exact h =
      let (room, rest) = steps db _ _ _ _ _ h in
      settle-IsTimeline db x end_at now (resized end_at now) (end_change end_at room) (ground arith)
        t beside valid x.end_at end_at refl refl room exact rest
    where
      end_change :
          (e : Option Time) → bad_end x.start_at e ≡ false → EndChange x e now (resized e now x)
      end_change none room = record { same_id = refl; length = refl; outcome = inl refl }
      end_change (some w) room = record {
        same_id = refl;
        length = ground arith;
        outcome = inl refl;
      }

  revoke_window-IsTimeline :
      (revoke_at : Time) (reason : Option EntitlementRevokeReason) {t' : Table}
      → OnWholeSeconds x.end_at (some revoke_at)
      → revoke_window db x revoke_at reason now t ≡ ok t'
      → IsTimeline t'
  unfolding revoke_window
  revoke_window-IsTimeline revoke_at reason exact h =
      let (room, rest) = steps db _ _ _ _ _ h in
      settle-IsTimeline db x (some revoke_at) now (revoke_row revoke_at reason now)
        (record { same_id = refl; length = ground arith; outcome = inr refl }) (ground arith) t
        beside valid x.end_at (some revoke_at) refl refl room exact rest

-- SetEntitlementEndAtTx keeps the timeline. If every window of the table has a length and no two
-- live windows of one user and entitlement overlap, and a later end is a whole number of seconds
-- after the old one, then a successful call leaves a table of which the same holds.
pub set_entitlement_end_at-IsTimeline :
    (db : Db) (id : Uuid) (end_at : Option Time) (now : Time) (t : Table) {x : Entitlement}
    {t' : Table}
    → IsTimeline t
    → get_entitlement_by_id db id t ≡ ok x
    → OnWholeSeconds x.end_at end_at
    → set_entitlement_end_at db id end_at now t ≡ ok t'
    → IsTimeline t'
unfolding set_entitlement_end_at
set_entitlement_end_at-IsTimeline db id end_at now t {x} v g exact h =
    elim (Bool-cases (is_closed x)) [
      | inl closed ↦ subst IsTimeline (ok-injective (rw (g, closed) at h)) v
      | inr open_row ↦
          change_end_at-IsTimeline db x now t (found db id t g v) v open_row end_at exact
            (rw (g, open_row) at h)
    ]

-- RevokeEntitlementNowTx keeps the timeline, under the same conditions as SetEntitlementEndAtTx.
pub revoke_entitlement_now-IsTimeline :
    (db : Db) (id : Uuid) (revoke_at : Time) (reason : Option EntitlementRevokeReason) (now : Time)
    (t : Table) {x : Entitlement} {t' : Table}
    → IsTimeline t
    → get_entitlement_by_id db id t ≡ ok x
    → OnWholeSeconds x.end_at (some revoke_at)
    → revoke_entitlement_now db id revoke_at reason now t ≡ ok t'
    → IsTimeline t'
unfolding revoke_entitlement_now
revoke_entitlement_now-IsTimeline db id revoke_at reason now t {x} v g exact h =
    elim (Bool-cases (is_closed x)) [
      | inl closed ↦ subst IsTimeline (ok-injective (rw (g, closed) at h)) v
      | inr open_row ↦
          revoke_window-IsTimeline db x now t (found db id t g v) v open_row revoke_at reason exact
            (rw (g, open_row) at h)
    ]
