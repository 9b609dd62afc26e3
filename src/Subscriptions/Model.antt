-- ===== src/Subscriptions/Model.antt =====
-- internal/db/models/subscription.go, with the prices, products and notifications that the
-- lifecycle reads and writes.
use openrails.Base.{ℕ, ◌+◌, ◌-◌, ◌*◌, Bool, true, false, not, Option, none, some, List, ltb, ◌==◌}
use openrails.Base.Int.{ℤ, pos_part, neg_part}
use openrails.Payments.Model.{Time, Uuid, Text}

pub data SubscriptionStatus : Type 0 where
  pending active past_due cancelled : SubscriptionStatus

abbrev pub same_status : SubscriptionStatus → SubscriptionStatus → Bool
same_status pending pending = true
same_status active active = true
same_status past_due past_due = true
same_status cancelled cancelled = true
same_status _ _ = false

pub data CancelType : Type 0 where
  user merchant expired chargeback : CancelType

-- The bytes of a text that the code looks into.
abbrev pub Bytes : Type 0
Bytes = List ℕ

pub record Subscription : Type 0 where
  pub id : Uuid
  pub user_id : Text
  pub product_id : Uuid
  pub price_id : Uuid
  pub scheduled_price_id : Option Uuid
  pub status : SubscriptionStatus
  pub started_at : Time
  pub ended_at : Option Time
  pub current_period_starts_at : Option Time
  pub current_period_ends_at : Option Time
  pub processor : Text
  pub processor_subscription_id : Text
  pub user_email : Option Text
  pub payment_method_id : Option Uuid
  pub last_retry_at : Option Time
  pub retry_attempts : Option ℕ
  pub next_retry_at : Option Time
  pub grace_ends_at : Option Time
  pub cancel_feedback : Option Bytes
  pub cancel_type : Option CancelType
  pub cancelled_at : Option Time
  pub created_at : Time
  pub updated_at : Time

-- internal/db/models/product_catalog.go: a price, and what it gives.
pub record Price : Type 0 where
  pub id : Uuid
  pub product_id : Uuid
  pub amount : ℤ
  pub currency : Text
  pub billing_cycle_days : Option ℤ

-- The names of `EntitlementsSpec`; a nil map has none.
pub record Product : Type 0 where
  pub id : Uuid
  pub entitlements : List Text

pub data NotificationEventType : Type 0 where
  premium_started premium_renewed premium_ended payment_method_failed : NotificationEventType

pub data PremiumEndReason : Type 0 where
  user_cancel expired_reason admin processor_cancel : PremiumEndReason

pub record Notification : Type 0 where
  pub id : Uuid
  pub user_id : Text
  pub event_type : NotificationEventType
  pub reason : Option PremiumEndReason
  pub new_product : Option Uuid

-- 24 hours in microseconds.
abbrev pub day : ℕ
day = 86400000000

-- `t.Add(time.Duration(days) * 24 * time.Hour)`
unfoldable pub add_days : Time → ℤ → Time
add_days t days = t + pos_part days * day - neg_part days * day

-- `p != nil && !p.IsZero()`
abbrev pub is_set : Option Time → Bool
is_set none = false
is_set (some t) = not (t == 0)

-- `p != nil && p.After(t)`
abbrev pub is_after : Option Time → Time → Bool
is_after none t = false
is_after (some u) t = ltb t u

abbrev pub is_status : SubscriptionStatus → Subscription → Bool
is_status status s = same_status s.status status
