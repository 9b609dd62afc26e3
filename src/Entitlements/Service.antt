-- ===== src/Entitlements/Service.antt =====
-- internal/modules/entitlements/entitlement_service.go: appending a window to a timeline, and
-- removing access at once.
use openrails.Base.{
  ℕ, ◌+◌, Bool, true, false, not, ◌&&◌, ◌||◌, Option, none, some, [], ◌∷◌, ltb, ◌==◌, if◌then◌else◌,
  is_none, is_some, is_value, Result, ok, ◌>>=◌, ◌>>◌, refuse_if,
}
use openrails.Base.Int.{pos, pos_part, leb_ℤ}
use openrails.Base.Sql.{update_where, exists_where}
use openrails.Entitlements.Model.{
  Time, Duration, UserId, Uuid, Name, EntitlementSourceType, EntitlementRevokeReason, Entitlement,
  Error, missing_key, missing_source, bad_window_choice, bad_duration, bad_end_at, bad_selector,
  Table, Db, exec, is_live, has_key, same_source, covers,
}
use openrails.Entitlements.Timeline.{lock_entitlement_timeline, get_entitlement_by_id, delete_row}

pub record PushNewEntitlementParams : Type 0 where
  pub user_id : UserId
  pub entitlement : Name
  pub not_before : Option Time
  pub indefinite : Bool
  pub duration : Option Duration
  pub end_at : Option Time
  pub source_type : EntitlementSourceType
  pub source_id : Uuid

abbrev tally : Bool → ℕ
tally true = 1
tally false = 0

-- `setCount`
abbrev pub set_count : PushNewEntitlementParams → ℕ
set_count p = tally p.indefinite + tally (is_some p.duration) + tally (is_some p.end_at)

abbrev pub no_length : Option Duration → Bool
no_length none = false
no_length (some d) = leb_ℤ d (pos 0)

-- The checks before the transaction.
unfoldable pub check_push : PushNewEntitlementParams → Result Error (Unit {0})
check_push p = do
  refuse_if (p.user_id == 0 || p.entitlement == 0) missing_key
  refuse_if (p.source_id == 0) missing_source
  refuse_if (not (set_count p == 1)) bad_window_choice
  refuse_if (no_length p.duration) bad_duration
  refuse_if (is_value p.end_at 0) bad_end_at

-- A live window with no end.
abbrev pub is_indefinite : UserId → Name → Entitlement → Bool
is_indefinite u n e = has_key u n e && is_live e && is_none e.end_at

abbrev pub later_of : Option Time → Time → Time
later_of none t = t
later_of (some u) t = if ltb t u then u else t

abbrev pub max_of : Option Time → Option Time → Option Time
max_of none b = b
max_of (some a) none = some a
max_of (some a) (some b) = if ltb a b then some b else some a

-- `MAX(end_at)` over the live windows that have an end.
unfoldable pub tail_end : UserId → Name → Table → Option Time
tail_end u n [] = none
tail_end u n (e ∷ t) =
    let rest = tail_end u n t in if has_key u n e && is_live e then max_of e.end_at rest else rest

-- The start of the new window: the latest of now, `not_before` and the tail's end.
unfoldable pub start_of : PushNewEntitlementParams → Time → Table → Time
unfolding tail_end
start_of p now t = later_of (tail_end p.user_id p.entitlement t) (later_of p.not_before now)

-- The end of the new window, or `none` where the requested end leaves it no length.
abbrev pub end_choice : Bool → Option Duration → Option Time → Time → Option (Option Time)
end_choice true d e start = some none
end_choice false (some d) e start = some (some (start + pos_part d))
end_choice false none (some e) start = if ltb start e then some (some e) else none
end_choice false none none start = some none

abbrev pub new_window : PushNewEntitlementParams → Uuid → Time → Time → Option Time → Entitlement
new_window p id now start end_at = record {
  id = id;
  user_id = p.user_id;
  entitlement = p.entitlement;
  start_at = start;
  end_at = end_at;
  source_id = some p.source_id;
  source_type = p.source_type;
  revoked_at = none;
  revoke_reason = none;
  created_at = now;
  updated_at = now;
  deleted_at = none;
}

abbrev pub insert_window : Db → Entitlement → Table → Result Error (Option Entitlement × Table)
insert_window db e t = exec db (e ∷ t) >>= λ t'. ok (some e, t')

unfoldable pub append_window :
    Db
    → PushNewEntitlementParams
    → Uuid
    → Time
    → Time
    → Option (Option Time)
    → Table
    → Result Error (Option Entitlement × Table)
append_window db p id now start none t = ok (none, t)
append_window db p id now start (some end_at) t =
    insert_window db (new_window p id now start end_at) t

-- The transaction of `PushNewEntitlement`.
unfoldable pub push_tx :
    Db → PushNewEntitlementParams → Uuid → Time → Table → Result Error (Option Entitlement × Table)
push_tx db p id now t = do
  lock_entitlement_timeline p.user_id p.entitlement
  let start = start_of p now t
  if exists_where (is_indefinite p.user_id p.entitlement) t
      then ok (none, t)
      else append_window db p id now start (end_choice p.indefinite p.duration p.end_at start) t

-- `id` is the identifier that `uuid.New` gives, `now` the clock's time.
unfoldable pub push_new_entitlement :
    Db → PushNewEntitlementParams → Uuid → Time → Table → Result Error (Option Entitlement × Table)
push_new_entitlement db p id now t = check_push p >> push_tx db p id now t

pub record RevokeExistingEntitlementParams : Type 0 where
  pub entitlement_id : Option Uuid
  pub user_id : UserId
  pub entitlement : Name
  pub source_type : Option EntitlementSourceType
  pub source_id : Option Uuid
  pub reason : EntitlementRevokeReason

abbrev from_source : Option EntitlementSourceType → Entitlement → Bool
from_source none e = true
from_source (some s) e = same_source e.source_type s

abbrev from_source_id : Option Uuid → Entitlement → Bool
from_source_id none e = true
from_source_id (some id) e = id == 0 || is_value e.source_id id

-- The optional filters of the two statements.
abbrev pub is_selected : RevokeExistingEntitlementParams → Entitlement → Bool
is_selected p e = from_source p.source_type e && from_source_id p.source_id e

abbrev pub is_active_now :
    RevokeExistingEntitlementParams → UserId → Name → Time → Entitlement → Bool
is_active_now p u n now e = has_key u n e && is_live e && covers now e && is_selected p e

abbrev pub is_future : RevokeExistingEntitlementParams → UserId → Name → Time → Entitlement → Bool
is_future p u n now e = has_key u n e && is_live e && ltb now e.start_at && is_selected p e

abbrev pub mark_revoked : EntitlementRevokeReason → Time → Entitlement → Entitlement
mark_revoked reason now e = record e {
  revoked_at = some now;
  revoke_reason = some reason;
  updated_at = now;
}

-- `RevokeExistingEntitlement` for a known user and entitlement.
unfoldable pub revoke_key :
    Db → RevokeExistingEntitlementParams → UserId → Name → Time → Table → Result Error Table
revoke_key db p u n now t = do
  lock_entitlement_timeline u n
  t' ← exec db (update_where (is_active_now p u n now) (mark_revoked p.reason now) t)
  exec db (update_where (is_future p u n now) (delete_row now) t')

abbrev pub revoke_selected :
    Option Uuid → Db → RevokeExistingEntitlementParams → Time → Table → Result Error Table
revoke_selected none db p now t = revoke_key db p p.user_id p.entitlement now t
revoke_selected (some id) db p now t =
    get_entitlement_by_id db id t >>= λ e. revoke_key db p e.user_id e.entitlement now t

unfoldable pub revoke_existing_entitlement :
    Db → RevokeExistingEntitlementParams → Time → Table → Result Error Table
revoke_existing_entitlement db p now t = do
  refuse_if (is_none p.entitlement_id && (p.user_id == 0 || p.entitlement == 0)) bad_selector
  refuse_if (is_some p.entitlement_id && (not (p.user_id == 0) || not (p.entitlement == 0)))
      bad_selector
  revoke_selected p.entitlement_id db p now t
