-- ===== src/Subscriptions/Repo.antt =====
-- internal/db/repo/subscription.go and the calls that internal/modules/subscriptions/subscription.go
-- makes of it.
use openrails.Base.{
  ℕ, ◌-◌, ◌*◌, Bool, true, false, ◌&&◌, ◌||◌, Option, none, some, List, [], ◌∷◌, leb, ◌==◌, is_none,
  is_some, Result, ◌>>◌, refuse_if, or_error, zero, suc,
}
use openrails.Base.Sql.{select_where, find_where, count_where, order_by, first_by, take}
use openrails.Payments.Model.{Time, Uuid, Text}
use openrails.Subscriptions.Model.{
  Subscription, SubscriptionStatus, active, is_status, same_status, is_after,
}
use openrails.Subscriptions.Table.{
  Subscriptions, Error, no_rows, active_subscription_exists, insert_subscription,
  update_subscription, is_current, has_id,
}

-- `Update` of the repository stamps `updated_at`.
unfoldable pub update : Time → Subscription → Subscriptions → Result Error Subscriptions
update now s t = update_subscription (record s { updated_at = now }) t

unfoldable pub get_by_id : Uuid → Subscriptions → Result Error Subscription
get_by_id id t = or_error (find_where (has_id id) t) no_rows

-- `ORDER BY created_at DESC`
abbrev pub created_later : Subscription → Subscription → Bool
created_later a b = leb b.created_at a.created_at

unfoldable pub get_latest_by_user_id : Text → Subscriptions → Result Error Subscription
get_latest_by_user_id user t =
    or_error (first_by created_later (select_where (λ s. s.user_id == user) t)) no_rows

unfoldable pub get_by_user_id_and_price_id : Text → Uuid → Subscriptions → Result Error Subscription
get_by_user_id_and_price_id user price t =
    or_error (find_where (λ s. s.user_id == user && s.price_id == price) t) no_rows

-- `ORDER BY current_period_ends_at DESC NULLS FIRST`
abbrev pub ends_later : Option Time → Option Time → Bool
ends_later none b = true
ends_later (some a) none = false
ends_later (some a) (some b) = leb b a

abbrev pub is_current_of : Text → Uuid → Subscription → Bool
is_current_of user product s = s.user_id == user && s.product_id == product && is_current s

unfoldable pub get_active_or_pending_by_user_id_and_product_id :
    Text → Uuid → Subscriptions → Result Error Subscription
get_active_or_pending_by_user_id_and_product_id user product t =
    or_error
      (first_by (λ a b. ends_later a.current_period_ends_at b.current_period_ends_at)
        (select_where (is_current_of user product) t))
      no_rows

-- The products of a tier group, as the joined table has them.
unfoldable pub get_active_or_pending_by_user_id_and_tier_group :
    (Uuid → Bool) → Text → Subscriptions → Result Error Subscription
get_active_or_pending_by_user_id_and_tier_group in_group user t =
    or_error
      (first_by (λ a b. ends_later a.current_period_ends_at b.current_period_ends_at)
        (select_where (λ s. s.user_id == user && is_current s && in_group s.product_id) t))
      no_rows

unfoldable pub get_active_subscription : Text → Time → Subscriptions → Result Error Subscription
get_active_subscription user now t =
    or_error
      (first_by created_later (
        select_where
          (λ s.
            s.user_id == user
            && is_status active s
            && (is_none s.current_period_ends_at || is_after s.current_period_ends_at now))
          t))
      no_rows

unfoldable pub get_by_processor_subscription_id :
    Text → Text → Subscriptions → Result Error Subscription
get_by_processor_subscription_id processor id t =
    or_error (find_where (λ s. s.processor == processor && s.processor_subscription_id == id) t)
      no_rows

unfoldable pub get_active_subscriptions_by_user_id : Text → Subscriptions → List Subscription
get_active_subscriptions_by_user_id user t =
    order_by created_later (select_where (λ s. s.user_id == user && is_status active s) t)

unfoldable pub get_subscriptions_by_processor_and_user_id :
    Text → Text → Subscriptions → List Subscription
get_subscriptions_by_processor_and_user_id user processor t =
    order_by created_later (select_where (λ s. s.user_id == user && s.processor == processor) t)

unfoldable pub get_active_subscriptions_by_processor : Text → Subscriptions → List Subscription
get_active_subscriptions_by_processor processor t =
    select_where (λ s. s.processor == processor && is_status active s) t

-- `OFFSET n`
unfoldable pub skip {ℓ} : {A : Type ℓ} → ℕ → List A → List A
skip zero xs = xs
skip (suc n) [] = []
skip (suc n) (x ∷ xs) = skip n xs

-- `GetPaginatedByUserID`: the page and the number of all rows.
unfoldable pub get_paginated_by_user_id : Text → ℕ → ℕ → Subscriptions → List Subscription × ℕ
get_paginated_by_user_id user page page_size t = (
  take page_size (
      skip ((page - 1) * page_size)
        (order_by created_later (select_where (λ s. s.user_id == user) t))),
  count_where (λ s. s.user_id == user) t,
)

-- `SubscriptionFilters`: 0 and `none` filter nothing.
pub record SubscriptionFilters : Type 0 where
  pub user_id : Text
  pub status : Option SubscriptionStatus
  pub price_id : Uuid
  pub processor : Text
  pub created_after : Option Time
  pub created_before : Option Time
  pub cancelled_after : Option Time
  pub cancelled_before : Option Time
  pub expires_before : Option Time

abbrev any_or : ℕ → ℕ → Bool
any_or want have = want == 0 || have == want

abbrev status_or : Option SubscriptionStatus → SubscriptionStatus → Bool
status_or none have = true
status_or (some want) have = same_status have want

-- `column >= ?` and `column <= ?`, where a NULL column passes no filter.
abbrev from_or : Option Time → Option Time → Bool
from_or none column = true
from_or (some t) none = false
from_or (some t) (some u) = leb t u

abbrev until_or : Option Time → Option Time → Bool
until_or none column = true
until_or (some t) none = false
until_or (some t) (some u) = leb u t

-- `applySubscriptionFilters`
abbrev pub passes_filters : SubscriptionFilters → Subscription → Bool
passes_filters f s =
    any_or f.user_id s.user_id
    && status_or f.status s.status
    && any_or f.price_id s.price_id
    && any_or f.processor s.processor
    && from_or f.created_after (some s.created_at)
    && until_or f.created_before (some s.created_at)
    && from_or f.cancelled_after s.cancelled_at
    && until_or f.cancelled_before s.cancelled_at
    && until_or f.expires_before s.current_period_ends_at

-- `Create` of the service: a current subscription of the user to the product stands in the way.
unfoldable pub create : Subscription → Subscriptions → Result Error Subscriptions
create s t = do
  refuse_if (is_current s && is_some (find_where (is_current_of s.user_id s.product_id) t))
      active_subscription_exists
  insert_subscription s t
