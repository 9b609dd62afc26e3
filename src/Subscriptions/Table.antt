-- ===== src/Subscriptions/Table.antt =====
-- The table `billing.subscriptions` with the checks of
-- migrations/postgres/007_add_consistency_constraints.up.sql and the unique indexes of
-- migrations/postgres/001_setup_billing_tables.up.sql and
-- migrations/postgres/025_restore_subscription_active_pending_unique_index.up.sql.
use openrails.Base.{
  Bool, true, not, ◌&&◌, ◌||◌, Option, none, some, List, ◌∷◌, ltb, leb, ◌==◌, if◌then◌else◌,
  is_some, Result, ok, err,
}
use openrails.Base.Sql.{find_where, exists_where, update_where, select_where}
use openrails.Payments.Model.{Time, Uuid}
use openrails.Subscriptions.Model.{Subscription, pending, active, cancelled, is_status}

pub data Error : Type 0 where
  no_rows no_rows_affected refused_row duplicate_active active_subscription_exists : Error
  terminal_transition_blocked fallback_not_pending nil_dereference missing_selector : Error
  missing_processor_id no_future_period_end not_active invalid_period_end missing_cycle : Error
  expired_activation invalid_amount too_many_attempts payment_error entitlement_error : Error
  aborted_transaction : Error

abbrev pub Subscriptions : Type 0
Subscriptions = List Subscription

-- `a IS NULL OR b IS NULL OR a < b`
abbrev pub before_or_null : Option Time → Option Time → Bool
before_or_null none b = true
before_or_null (some a) none = true
before_or_null (some a) (some b) = ltb a b

-- `a IS NULL OR b IS NULL OR a >= b`
abbrev pub not_before_or_null : Option Time → Option Time → Bool
not_before_or_null none b = true
not_before_or_null (some a) none = true
not_before_or_null (some a) (some b) = leb b a

-- chk_cancelled_has_timestamp, chk_cancelled_has_type, chk_valid_period and
-- chk_ended_not_before_cancelled.
unfoldable pub meets_checks : Subscription → Bool
meets_checks s =
    (not (is_status cancelled s) || is_some s.cancelled_at)
    && (not (is_status cancelled s) || is_some s.cancel_type)
    && before_or_null s.current_period_starts_at s.current_period_ends_at
    && not_before_or_null s.ended_at s.cancelled_at

-- `status IN ('active', 'pending')`
abbrev pub is_current : Subscription → Bool
is_current s = is_status active s || is_status pending s

-- Two rows that idx_subscriptions_user_active or idx_subscriptions_user_product_active_pending
-- lets not stand together.
abbrev pub collides : Subscription → Subscription → Bool
collides a b =
    a.user_id == b.user_id
    && ((is_status active a && is_status active b)
        || (a.product_id == b.product_id && is_current a && is_current b))

-- The insert of a row.
unfoldable pub insert_subscription : Subscription → Subscriptions → Result Error Subscriptions
insert_subscription s t =
    if meets_checks s
    then (if exists_where (collides s) t then err duplicate_active else ok (s ∷ t))
    else err refused_row

abbrev pub has_id : Uuid → Subscription → Bool
has_id id s = s.id == id

-- The columns that `Update` names, over the row that was there.
abbrev pub write_columns : Subscription → Subscription → Subscription
write_columns s old = record s { user_id = old.user_id; created_at = old.created_at }

-- The row takes the place of the one with its key.
unfoldable pub replace_row : Subscription → Subscriptions → Result Error Subscriptions
replace_row s t =
    if meets_checks s
    then (if exists_where (λ other. not (has_id s.id other) && collides s other) t
        then err duplicate_active
        else ok (update_where (has_id s.id) (λ old. s) t))
    else err refused_row

abbrev pub over_row :
    Option Subscription → Subscription → Subscriptions → Result Error Subscriptions
over_row none s t = err no_rows_affected
over_row (some old) s t = replace_row (write_columns s old) t

-- The update of the row with the key of `s`.
unfoldable pub update_subscription : Subscription → Subscriptions → Result Error Subscriptions
update_subscription s t = over_row (find_where (has_id s.id) t) s t

unfoldable pub delete_subscription : Uuid → Subscriptions → Result Error Subscriptions
delete_subscription id t =
    if exists_where (has_id id) t
    then ok (select_where (λ s. not (has_id id s)) t)
    else err no_rows_affected
