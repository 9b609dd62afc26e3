-- ===== src/Subscriptions/End.antt =====
-- internal/modules/subscriptions/lifecycle_service.go: `CancelMembership`, `ExpireMembership` and
-- `FailMembership`, and `CancelUserSubscription` of internal/modules/subscriptions/subscription.go.
use openrails.Base.{
  ℕ, suc, ◌+◌, ◌-◌, ◌*◌, Bool, true, false, not, ◌&&◌, ◌||◌, Option, none, some, List, [], ◌∷◌, ltb,
  leb, ◌==◌, if◌then◌else◌, Result, ok, err, ◌>>=◌, ◌>>◌, refuse_if,
}
use openrails.Base.Sql.{member}
use openrails.Payments.Model.{Time, Uuid, Text}
use openrails.Entitlements.Model.{
  Table, Db, Name, second, EntitlementRevokeReason, subscription, grace, by_admin, dunning_failed,
}
use openrails.Entitlements.Model
use openrails.Entitlements.Service.{PushNewEntitlementParams, push_new_entitlement}
use openrails.Entitlements.Repo.{list_distinct_entitlement_names_by_source}
use openrails.Subscriptions.Model.{
  Bytes, Subscription, CancelType, user, merchant, expired, chargeback, active, past_due, cancelled,
  is_status, is_after, day, NotificationEventType, premium_ended, payment_method_failed,
  PremiumEndReason, user_cancel, expired_reason, admin, processor_cancel,
}
use openrails.Subscriptions.Row.{cancel, given_reason}
use openrails.Subscriptions.Table.{Subscriptions, Error, missing_selector, not_active}
use openrails.Subscriptions.Repo.{
  get_by_id, get_by_processor_subscription_id, get_latest_by_user_id, update,
}
use openrails.Subscriptions.Store.{Store, Env, notify, or_unchanged, or_logged, revoke_source}

pub record CancelMembershipParams : Type 0 where
  pub subscription_id : Option Uuid
  pub processor : Option Text
  pub processor_subscription_id : Option Text
  pub cancel_type : CancelType
  pub cancel_feedback : Option Bytes
  pub revoke_access : Bool

abbrev pub by_processor : Option Text → Option Text → Subscriptions → Result Error Subscription
by_processor (some processor) (some id) t = get_by_processor_subscription_id processor id t
by_processor _ _ t = err missing_selector

abbrev pub find_cancelled :
    Option Uuid → Option Text → Option Text → Subscriptions → Result Error Subscription
find_cancelled (some id) processor processor_id t = get_by_id id t
find_cancelled none processor processor_id t = by_processor processor processor_id t

-- A start that is not before now moves one second before it.
abbrev pub start_before : Option Time → Time → Option Time
start_before none now = none
start_before (some start) now = if ltb start now then some start else some (now - second)

abbrev pub end_or : Option Time → Time → Time
end_or none now = now
end_or (some end_at) now = if ltb now end_at then end_at else now

-- The periods after a revocation of access.
abbrev pub cut_periods : Bool → Time → Subscription → Subscription
cut_periods false now s = s
cut_periods true now s = record s {
  current_period_starts_at = start_before s.current_period_starts_at now;
  current_period_ends_at = some now;
}

abbrev pub access_end : Bool → Option Time → Time → Time
access_end true end_at now = now
access_end false end_at now = end_or end_at now

unfoldable pub cancelled_row : CancelMembershipParams → Time → Subscription → Subscription
cancelled_row p now s = record (cut_periods p.revoke_access now s) {
  status = cancelled;
  ended_at = some (access_end p.revoke_access s.current_period_ends_at now);
  cancel_type = some p.cancel_type;
  cancel_feedback = p.cancel_feedback;
  cancelled_at = some now;
}

abbrev pub revoke_reason : CancelType → EntitlementRevokeReason
revoke_reason chargeback = Model.chargeback
revoke_reason _ = by_admin

abbrev pub end_reason : CancelType → PremiumEndReason
end_reason user = user_cancel
end_reason expired = expired_reason
end_reason merchant = processor_cancel
end_reason chargeback = admin

-- Access is taken at once where it is revoked or where the paid term is over.
abbrev pub is_over : Bool → Option Time → Time → Bool
is_over revoke end_at now = revoke || not (is_after end_at now)

abbrev pub cancelled_windows :
    Env → CancelMembershipParams → Subscription → Time → Table → Result Error Table
cancelled_windows env p s now t =
    if is_over p.revoke_access s.current_period_ends_at now
    then revoke_source env.db s subscription (revoke_reason p.cancel_type) now t
    else ok t

unfoldable pub cancel_membership :
    Env → CancelMembershipParams → Uuid → Time → Store → Result Error Store
cancel_membership env p notification now store = do
  found ←
      find_cancelled p.subscription_id p.processor p.processor_subscription_id store.subscriptions
  let s = cancelled_row p now found
  subscriptions ← update now s store.subscriptions
  windows ← cancelled_windows env p s now store.entitlements
  let noted =
      notify notification s.user_id premium_ended (some (end_reason p.cancel_type)) none store
  ok (record noted { subscriptions = subscriptions; entitlements = windows })

abbrev pub expired_row : Time → Subscription → Subscription
expired_row now s = record s {
  status = cancelled;
  cancelled_at = some now;
  cancel_type = some expired;
  ended_at = some now;
}

-- The windows of the subscription and its grace windows go.
unfoldable pub revoke_all : Db → Subscription → Time → Table → Result Error Table
revoke_all db s now t = revoke_source db s subscription dunning_failed now t >>= λ t'.
    revoke_source db s grace dunning_failed now t'

unfoldable pub expire_membership : Env → Uuid → Uuid → Time → Store → Result Error Store
expire_membership env id notification now store = do
  found ← get_by_id id store.subscriptions
  let s = expired_row now found
  subscriptions ← update now s store.subscriptions
  windows ← revoke_all env.db s now store.entitlements
  let noted = notify notification s.user_id premium_ended (some expired_reason) none store
  ok (record noted { subscriptions = subscriptions; entitlements = windows })

-- internal/modules/subscriptions/dunning.go: 72 hours, in microseconds.
abbrev pub dunning_interval : ℕ
dunning_interval = 3 * day

abbrev pub max_dunning_failures : ℕ
max_dunning_failures = 5

-- "transaction_failure"
abbrev pub transaction_failure : Bytes
transaction_failure =
    116 ∷ 114 ∷ 97 ∷ 110 ∷ 115 ∷ 97 ∷ 99 ∷ 116 ∷ 105 ∷ 111 ∷ 110 ∷ 95 ∷ 102 ∷ 97 ∷ 105 ∷ 108 ∷ 117
    ∷ 114 ∷ 101 ∷ []

abbrev pub next_attempt : Option ℕ → ℕ
next_attempt none = 1
next_attempt (some n) = suc n

abbrev pub past_due_row : Time → Subscription → Subscription
past_due_row now s = record s {
  status = past_due;
  last_retry_at = some now;
  retry_attempts = some (next_attempt s.retry_attempts);
}

-- The row after a failure: a retry is scheduled, or the last failure cancels. What `Cancel` returns
-- is not looked at.
unfoldable pub failed_row : Env → Time → Subscription → Subscription
failed_row env now s =
    let due = past_due_row now s in
    if env.dunning_off
    then record s { status = cancelled; ended_at = some now }
    else if leb max_dunning_failures (next_attempt s.retry_attempts)
    then or_unchanged due
        (cancel transaction_failure (some expired) env.cancel_time env.reset_time due)
    else record due { next_retry_at = some (now + dunning_interval) }

abbrev pub grace_window : Subscription → Name → Time → Time → PushNewEntitlementParams
grace_window s n start until_at = record {
  user_id = s.user_id;
  entitlement = n;
  not_before = some start;
  indefinite = false;
  duration = none;
  end_at = some until_at;
  source_type = grace;
  source_id = s.id;
}

unfoldable pub grace_each :
    Db → Subscription → (Name → Uuid) → Time → Time → Time → List Name → Table → Result Error Table
grace_each db s window start until_at now [] t = ok t
grace_each db s window start until_at now (n ∷ names) t =
    or_logged t (
      push_new_entitlement db (grace_window s n start until_at) (window n) now t >>= λ pushed.
      ok (pushed.1))
    >>= λ t'. grace_each db s window start until_at now names t'

-- Grace up to the next retry, where that lies behind the paid term.
abbrev pub grace_from :
    Db
    → Subscription
    → (Name → Uuid)
    → Time
    → Option Time
    → Option Time
    → Table
    → Result Error Table
grace_from db s window now (some paid_end) (some until_at) t =
    if ltb paid_end until_at
    then grace_each db s window (if ltb now paid_end then paid_end else now) until_at now
        (list_distinct_entitlement_names_by_source subscription s.id t) t
    else ok t
grace_from db s window now _ _ t = ok t

unfoldable pub append_grace : Env → Subscription → (Name → Uuid) → Time → Table → Result Error Table
append_grace env s window now t =
    if member ◌==◌ s.processor env.nmi_backed && is_status past_due s
    then grace_from env.db s window now s.current_period_ends_at s.next_retry_at t
    else ok t

abbrev pub failure_event : Subscription → NotificationEventType
failure_event s = if is_status cancelled s then premium_ended else payment_method_failed

abbrev pub failure_reason : Subscription → Option PremiumEndReason
failure_reason s = if is_status cancelled s then some expired_reason else none

-- The failure that ends dunning takes the windows.
abbrev pub failed_windows : Env → Subscription → Time → Table → Result Error Table
failed_windows env s now t =
    if is_status cancelled s && not env.entitlement_expiration_disabled
    then revoke_all env.db s now t
    else ok t

unfoldable pub fail_membership :
    Env → Uuid → Uuid → (Name → Uuid) → Time → Store → Result Error Store
fail_membership env id notification window now store = do
  found ← get_by_id id store.subscriptions
  let s = failed_row env now found
  graced ← append_grace env s window now store.entitlements
  subscriptions ← update now s store.subscriptions
  windows ← failed_windows env s now graced
  let noted = notify notification s.user_id (failure_event s) (failure_reason s) none store
  ok (record noted { subscriptions = subscriptions; entitlements = windows })

-- `CancelUserSubscription`: entitlements are left alone.
abbrev pub user_cancelled_row : Bytes → Time → Subscription → Subscription
user_cancelled_row feedback now s = record s {
  status = cancelled;
  cancelled_at = some now;
  cancel_type = some user;
  cancel_feedback = given_reason feedback s.cancel_feedback;
}

unfoldable pub cancel_user_subscription : Text → Bytes → Uuid → Time → Store → Result Error Store
cancel_user_subscription user_id feedback notification now store = do
  found ← get_latest_by_user_id user_id store.subscriptions
  refuse_if (not (is_status active found)) not_active
  subscriptions ← update now (user_cancelled_row feedback now found) store.subscriptions
  let noted = notify notification user_id premium_ended (some user_cancel) none store
  ok (record noted { subscriptions = subscriptions })
