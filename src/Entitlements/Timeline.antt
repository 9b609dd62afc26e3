-- ===== src/Entitlements/Timeline.antt =====
-- internal/db/repo/entitlement_timeline.go: changing the end of a window, and moving the windows
-- that follow it. Each function is a transaction, or a part of one, over the table of windows.
use openrails.Base.{
  Bool, false, not, ◌&&◌, ◌||◌, Option, none, some, List, [], ◌∷◌, ltb, leb, ◌==◌, if◌then◌else◌,
  is_none, is_some, Result, ok, ◌>>=◌, ◌>>◌, refuse_if, or_error,
}
use openrails.Base.Int.{ℤ, pos, negsuc}
use openrails.Base.Sql.{update_where, find_where, member}
use openrails.Entitlements.Model.{
  Time, Duration, UserId, Uuid, Name, EntitlementRevokeReason, Entitlement, Error, no_rows,
  invalid_end_at, invalid_revoke_at, missing_key, Table, Db, exec, is_live, has_key,
  duration_between, whole_seconds, add_seconds,
}

-- `LockEntitlementTimeline`: the advisory lock changes no row; transactions run one at a time.
unfoldable pub lock_entitlement_timeline : UserId → Name → Result Error (Unit {0})
lock_entitlement_timeline user_id entitlement =
    refuse_if (user_id == 0 || entitlement == 0) missing_key

-- `CASE WHEN end_at IS NULL THEN NULL ELSE end_at + …`
abbrev pub shift_end : ℤ → Option Time → Option Time
shift_end s none = none
shift_end s (some t) = some (add_seconds t s)

-- The row after `Set("start_at = …")`, `Set("end_at = …")`, `Set("updated_at = …")`.
abbrev pub shift_row : ℤ → Time → Entitlement → Entitlement
shift_row s now e = record e {
  start_at = add_seconds e.start_at s;
  end_at = shift_end s e.end_at;
  updated_at = now;
}

-- The rows that the shift moves.
abbrev pub is_shifted : UserId → Name → Time → List Uuid → Entitlement → Bool
is_shifted u n from excluded e =
    has_key u n e && is_live e && leb from e.start_at && not (member ◌==◌ e.id excluded)

abbrev pub is_zero : ℤ → Bool
is_zero (pos n) = n == 0
is_zero (negsuc n) = false

unfoldable pub shift_entitlement_timeline :
    Db → UserId → Name → Time → Duration → Time → List Uuid → Table → Result Error Table
shift_entitlement_timeline db u n from delta now excluded t =
    let s = whole_seconds delta in
    if is_zero delta
    then ok t
    else if is_zero s
    then ok t
    else exec db (update_where (is_shifted u n from excluded) (shift_row s now) t)

-- A plain `SELECT … WHERE id = ?` by the model.
unfoldable pub get_entitlement_by_id : Db → Uuid → Table → Result Error Entitlement
get_entitlement_by_id db id t =
    or_error (find_where (λ e. e.id == id && (is_none e.deleted_at || not db.hides_deleted)) t)
      no_rows

-- `WHERE id = ? AND revoked_at IS NULL AND deleted_at IS NULL`
abbrev pub is_live_id : Uuid → Entitlement → Bool
is_live_id id e = e.id == id && is_live e

abbrev pub bad_end : Time → Option Time → Bool
bad_end start none = false
bad_end start (some e) = not (ltb start e)

-- The windows that an indefinite end leaves without room.
abbrev pub is_superseded : UserId → Name → Time → Uuid → Entitlement → Bool
is_superseded u n from id e = has_key u n e && is_live e && leb from e.start_at && not (e.id == id)

abbrev pub delete_row : Time → Entitlement → Entitlement
delete_row now e = record e { deleted_at = some now; updated_at = now }

-- What follows the update of the row: the windows behind it move by the change of its end, or go.
unfoldable pub settle_later :
    Db → Entitlement → Option Time → Option Time → Time → Table → Result Error Table
settle_later db ent none end_at now t = ok t
settle_later db ent (some old_end) none now t =
    exec db
      (update_where (is_superseded ent.user_id ent.entitlement old_end ent.id) (delete_row now) t)
settle_later db ent (some old_end) (some new_end) now t =
    if new_end == old_end
    then ok t
    else shift_entitlement_timeline db ent.user_id ent.entitlement old_end
        (duration_between old_end new_end) now (ent.id ∷ []) t

-- `SetEntitlementEndAtTx`, once the row is known to be live.
unfoldable pub change_end_at : Db → Entitlement → Option Time → Time → Table → Result Error Table
change_end_at db ent end_at now t = do
  refuse_if (bad_end ent.start_at end_at) invalid_end_at
  lock_entitlement_timeline ent.user_id ent.entitlement
  t' ←
      exec db
        (update_where (is_live_id ent.id) (λ e. record e { end_at = end_at; updated_at = now }) t)
  settle_later db ent ent.end_at end_at now t'

abbrev pub is_closed : Entitlement → Bool
is_closed e = is_some e.revoked_at || is_some e.deleted_at

unfoldable pub set_entitlement_end_at : Db → Uuid → Option Time → Time → Table → Result Error Table
set_entitlement_end_at db id end_at now t = do
  ent ← get_entitlement_by_id db id t
  if is_closed ent then ok t else change_end_at db ent end_at now t

abbrev pub revoke_row : Time → Option EntitlementRevokeReason → Time → Entitlement → Entitlement
revoke_row revoke_at reason now e = record e {
  end_at = some revoke_at;
  revoked_at = some now;
  revoke_reason = reason;
  updated_at = now;
}

-- `RevokeEntitlementNowTx`, once the row is known to be live.
unfoldable pub revoke_window :
    Db → Entitlement → Time → Option EntitlementRevokeReason → Time → Table → Result Error Table
revoke_window db ent revoke_at reason now t = do
  refuse_if (not (ltb ent.start_at revoke_at)) invalid_revoke_at
  lock_entitlement_timeline ent.user_id ent.entitlement
  t' ← exec db (update_where (is_live_id ent.id) (revoke_row revoke_at reason now) t)
  settle_later db ent ent.end_at (some revoke_at) now t'

unfoldable pub revoke_entitlement_now :
    Db → Uuid → Time → Option EntitlementRevokeReason → Time → Table → Result Error Table
revoke_entitlement_now db id revoke_at reason now t = do
  ent ← get_entitlement_by_id db id t
  if is_closed ent then ok t else revoke_window db ent revoke_at reason now t
