-- ===== src/Entitlements/Repo.antt =====
-- internal/db/repo/entitlement.go: the queries and the updates of the entitlement repository.
use mathlib.Core.List.{map}
use openrails.Base.{
  Bool, true, false, not, ◌&&◌, ◌||◌, Option, none, some, List, [], ◌∷◌, ltb, leb, ◌==◌,
  if◌then◌else◌, is_none, is_some, is_value, Result, ok, err, ◌>>=◌, ◌>>◌, refuse_if, or_error,
}
use openrails.Base.Sql.{
  update_where, select_where, exists_where, count_where, member, order_by, first_by,
}
use openrails.Entitlements.Model.{
  Time, UserId, Uuid, Name, EntitlementSourceType, subscription, one_off, EntitlementRevokeReason,
  Entitlement, Error, no_rows, negative_window, not_found, cannot_extend, bad_end_at, Table, Db,
  exec, is_live, has_key, same_source, ends_after, covers, duration_between,
}
use openrails.Entitlements.Timeline.{
  lock_entitlement_timeline, shift_entitlement_timeline, is_live_id,
}

-- The windows that give a user the entitlement at a time.
abbrev pub entitles : UserId → Name → Time → Entitlement → Bool
entitles u n at e = has_key u n e && covers at e && is_live e

unfoldable pub is_entitled : UserId → Name → Time → Table → Bool
is_entitled u n at t = exists_where (entitles u n at) t

unfoldable pub has_active_indefinite : UserId → Name → Time → Table → Bool
has_active_indefinite u n at t =
    exists_where (λ e. has_key u n e && is_live e && is_none e.end_at && leb e.start_at at) t

-- `ORDER BY start_at DESC`
abbrev starts_later : Entitlement → Entitlement → Bool
starts_later a b = leb b.start_at a.start_at

-- `ORDER BY start_at ASC`
abbrev starts_earlier : Entitlement → Entitlement → Bool
starts_earlier a b = leb a.start_at b.start_at

-- `ORDER BY end_at DESC`, over rows that have an end.
abbrev ends_later : Entitlement → Entitlement → Bool
ends_later a b = elim b.end_at [ none ↦ true | some e ↦ ends_from e a.end_at ]
  where
    ends_from : Time → Option Time → Bool
    ends_from e none = true
    ends_from e (some d) = leb e d

unfoldable pub get_latest_active : UserId → Name → Table → Result Error Entitlement
get_latest_active u n t =
    or_error (first_by starts_later (select_where (λ e. has_key u n e && is_live e) t)) no_rows

unfoldable pub get_latest_finite_active : UserId → Name → Time → Table → Result Error Entitlement
get_latest_finite_active u n at t =
    or_error (first_by ends_later (select_where (λ e. entitles u n at e && is_some e.end_at) t))
      no_rows

-- `Insert`, with its check of the window.
unfoldable pub insert_entitlement : Db → Entitlement → Table → Result Error Table
insert_entitlement db e t =
    if is_some e.end_at && not (ends_after e.start_at e.end_at)
    then err bad_end_at
    else exec db (e ∷ t)

-- `SELECT DISTINCT`
unfoldable pub distinct : List Name → List Name
unfolding member
distinct [] = []
distinct (n ∷ ns) = let rest = distinct ns in if member ◌==◌ n rest then rest else n ∷ rest

unfoldable pub list_active_entitlements : UserId → Time → Table → List Name
unfolding distinct
list_active_entitlements u at t = distinct (
    map (λ (e : Entitlement). e.entitlement)
      (select_where (λ e. e.user_id == u && covers at e && is_live e) t))

unfoldable pub list_active_records : UserId → Time → Table → List Entitlement
list_active_records u at t =
    order_by starts_earlier (select_where (λ e. e.user_id == u && is_live e && covers at e) t)

-- `source_type = ? AND source_id = ?`
abbrev pub from_origin : EntitlementSourceType → Uuid → Entitlement → Bool
from_origin s id e = same_source e.source_type s && is_value e.source_id id

unfoldable pub list_distinct_entitlement_names_by_source :
    EntitlementSourceType → Uuid → Table → List Name
unfolding distinct
list_distinct_entitlement_names_by_source s id t = distinct (
    map (λ (e : Entitlement). e.entitlement)
      (select_where (λ e. from_origin s id e && is_live e) t))

unfoldable pub exists_by_source : EntitlementSourceType → Uuid → Name → Table → Bool
exists_by_source s id n t =
    exists_where (λ e. from_origin s id e && e.entitlement == n && is_live e) t

unfoldable pub list_by_user : Db → UserId → Table → List Entitlement
list_by_user db u t =
    order_by starts_later
      (select_where (λ e. e.user_id == u && (is_none e.deleted_at || not db.hides_deleted)) t)

-- The live windows of a subscription that reach past `end_at`.
abbrev pub to_end : Uuid → Time → Entitlement → Bool
to_end id end_at e = from_origin subscription id e && is_live e && ends_after end_at e.end_at

abbrev revoke_with : Time → Option EntitlementRevokeReason → Entitlement → Entitlement
revoke_with now none e = e
revoke_with now (some r) e = record e { revoked_at = some now; revoke_reason = some r }

abbrev pub end_row : Time → Time → Option EntitlementRevokeReason → Entitlement → Entitlement
end_row end_at now reason e =
    revoke_with now reason (record e { end_at = some end_at; updated_at = now })

unfoldable pub end_active_by_subscription :
    Db → Uuid → Time → Time → Option EntitlementRevokeReason → Table → Result Error Table
end_active_by_subscription db id end_at now reason t =
    if count_where (λ e. to_end id end_at e && leb end_at e.start_at) t == 0
    then exec db (update_where (to_end id end_at) (end_row end_at now reason) t)
    else err negative_window

-- One round of the loop of `ExtendActiveBySubscription`, over a row read before the loop.
unfoldable pub extend_row : Db → Time → Time → Entitlement → Time → Table → Result Error Table
extend_row db new_end now ent old_end t = do
  refuse_if (not (ltb ent.start_at new_end)) cannot_extend
  lock_entitlement_timeline ent.user_id ent.entitlement
  t' ← exec db (
      update_where (λ e. is_live_id ent.id e && is_value e.end_at old_end)
        (λ e. record e { end_at = some new_end; updated_at = now }) t)
  shift_entitlement_timeline db ent.user_id ent.entitlement old_end
      (duration_between old_end new_end) now (ent.id ∷ []) t'

-- The rows that the loop passes over: no end, a zero end, or an end that is late enough.
abbrev extend_one : Db → Time → Time → Entitlement → Option Time → Table → Result Error Table
extend_one db new_end now ent none t = ok t
extend_one db new_end now ent (some old_end) t =
    if old_end == 0 || not (ltb old_end new_end)
    then ok t
    else extend_row db new_end now ent old_end t

unfoldable pub extend_each : Db → Time → Time → List Entitlement → Table → Result Error Table
extend_each db new_end now [] t = ok t
extend_each db new_end now (ent ∷ ents) t =
    extend_one db new_end now ent ent.end_at t >>= λ t'. extend_each db new_end now ents t'

abbrev pub ends_before : Time → Option Time → Bool
ends_before at none = false
ends_before at (some e) = ltb e at

unfoldable pub extend_active_by_subscription : Db → Uuid → Time → Time → Table → Result Error Table
unfolding extend_each
extend_active_by_subscription db id end_at now t =
    extend_each db end_at now
      (select_where (λ e. from_origin subscription id e && is_live e && ends_before end_at e.end_at)
        t)
      t

-- `ResumeBySubscription`: a scheduled end that has not come yet is taken away.
abbrev pub is_scheduled : Uuid → Time → Entitlement → Bool
is_scheduled id now e =
    from_origin subscription id e && is_live e && is_some e.end_at && ends_after now e.end_at

unfoldable pub resume_by_subscription : Db → Uuid → Time → Table → Result Error Table
resume_by_subscription db id now t =
    exec db
      (update_where (is_scheduled id now) (λ e. record e { end_at = none; updated_at = now }) t)

-- `EndActiveByPayment`: the windows of a one-off payment that have no end.
abbrev pub is_endless_purchase : Uuid → Entitlement → Bool
is_endless_purchase id e = from_origin one_off id e && is_none e.end_at && is_none e.deleted_at

unfoldable pub end_active_by_payment :
    Db → Uuid → Time → Time → Option EntitlementRevokeReason → Table → Result Error Table
end_active_by_payment db id end_at now reason t =
    if count_where (λ e. is_endless_purchase id e && leb end_at e.start_at) t == 0
    then exec db (
        update_where (is_endless_purchase id)
          (λ e. record e {
            end_at = some end_at;
            revoked_at = some now;
            revoke_reason = reason;
            updated_at = now;
          })
          t)
    else err negative_window

unfoldable pub revoke_by_id :
    Db → Uuid → Time → EntitlementRevokeReason → Table → Result Error Table
revoke_by_id db id now reason t = do
  t' ← exec db (
      update_where (is_live_id id)
        (λ e. record e { revoked_at = some now; revoke_reason = some reason; updated_at = now }) t)
  refuse_if (count_where (is_live_id id) t == 0) not_found
  ok t'

-- `RevokeBySubscriptionAndName`: finding no row is no error.
unfoldable pub revoke_by_subscription_and_name :
    Db → Uuid → Name → Time → EntitlementRevokeReason → Table → Result Error Table
revoke_by_subscription_and_name db id n revoke_at reason t = exec db (
    update_where (λ e. from_origin subscription id e && e.entitlement == n && is_live e)
      (λ e. record e {
        end_at = some revoke_at;
        revoked_at = some revoke_at;
        revoke_reason = some reason;
        updated_at = revoke_at;
      })
      t)
