-- ===== src/Subscriptions/Renew.antt =====
-- internal/modules/subscriptions/lifecycle_service.go: `RenewMembership` and
-- `ReactivateMembership`.
use openrails.Base.{
  Bool, true, false, not, ◌&&◌, ◌||◌, Option, none, some, List, [], ◌∷◌, ltb, ◌==◌, if◌then◌else◌,
  Result, ok, err, ◌>>=◌, ◌>>◌, refuse_if,
}
use openrails.Base.Int.{ℤ, pos, leb_ℤ}
use openrails.Base.Sql.{member}
use openrails.Payments.Model.{Time, Uuid, Text, Payment, Payments, completed}
use openrails.Payments.Repo.{create_if_not_exists}
use openrails.Entitlements.Model.{Table, Db, Name, subscription, grace, superseded, downgrade}
use openrails.Entitlements.Service.{push_new_entitlement, revoke_existing_entitlement}
use openrails.Subscriptions.Model.{
  Subscription, Price, Product, active, pending, is_status, add_days, premium_renewed,
}
use openrails.Subscriptions.Row.{next_start}
use openrails.Subscriptions.Table.{
  Subscriptions, Error, nil_dereference, fallback_not_pending, missing_processor_id,
  no_future_period_end,
}
use openrails.Subscriptions.Repo.{get_by_id, get_by_processor_subscription_id, update}
use openrails.Subscriptions.Store.{
  Store, Env, Ids, get_price, get_product, from_entitlements, notify, or_logged, revoke_params,
  assert_active_transition_allowed,
}
use openrails.Subscriptions.Create.{paid_window, names_or_premium, currency_or}

pub record RenewMembershipParams : Type 0 where
  pub processor : Text
  pub processor_subscription_id : Text
  pub current_period_ends_at : Option Time
  pub transaction_id : Text
  pub amount : ℤ
  pub currency : Text
  pub allow_terminal_reactivation : Bool

-- The subscription with that identifier, which must be pending and of the same processor.
abbrev pub pending_of : Text → Subscription → Result Error Subscription
pending_of processor s =
    if not (s.processor == processor) || not (is_status pending s)
    then err fallback_not_pending
    else ok s

abbrev pub by_parsed_id : Text → Option Uuid → Error → Subscriptions → Result Error Subscription
by_parsed_id processor none e t = err e
by_parsed_id processor (some id) e t = get_by_id id t >>= pending_of processor

abbrev pub or_by_id :
    Env → Text → Text → Subscriptions → Result Error Subscription → Result Error Subscription
or_by_id env processor id t (ok s) = ok s
or_by_id env processor id t (err e) = by_parsed_id processor (env.parse_uuid id) e t

-- The lookup by the processor's identifier, and by ours where that finds nothing.
unfoldable pub find_renewed :
    Env → RenewMembershipParams → Subscriptions → Result Error Subscription
find_renewed env p t =
    or_by_id env p.processor p.processor_subscription_id t
      (get_by_processor_subscription_id p.processor p.processor_subscription_id t)

pub record Plan : Type 0 where
  pub renewed : Subscription
  pub price : Price
  pub downgrade : Option (Product × Product)

-- The price of the renewal: a scheduled downgrade is applied.
unfoldable pub plan_renewal : Env → Subscription → Option Uuid → Result Error Plan
plan_renewal env s none = do
  price ← get_price env s.price_id
  ok (record { renewed = s; price = price; downgrade = none })
plan_renewal env s (some scheduled) = do
  old_price ← get_price env s.price_id
  old_product ← get_product env old_price.product_id
  price ← get_price env scheduled
  new_product ← get_product env price.product_id
  ok (record {
    renewed = record s {
      price_id = price.id;
      product_id = price.product_id;
      scheduled_price_id = none;
    };
    price = price;
    downgrade = some (old_product, new_product);
  })

abbrev pub amount_or_list : ℤ → ℤ → ℤ
amount_or_list amount list_amount = if leb_ℤ amount (pos 0) then list_amount else amount

abbrev pub renewal_payment : RenewMembershipParams → Price → Subscription → Uuid → Time → Payment
renewal_payment p price s id now = record {
  id = id;
  user_id = s.user_id;
  price_id = price.id;
  subscription_id = some s.id;
  refunded_payment_id = none;
  processor = p.processor;
  transaction_id = p.transaction_id;
  amount = amount_or_list p.amount price.amount;
  list_amount = amount_or_list p.amount price.amount;
  currency = currency_or p.currency price.currency;
  status = completed;
  purchased_at = now;
  created_at = now;
}

-- The payment marks the transaction; a transaction that is marked already is a duplicate.
unfoldable pub mark_transaction : RenewMembershipParams → Payment → Payments → Bool × Payments
mark_transaction p payment t =
    if p.transaction_id == 0 then (true, t) else create_if_not_exists payment t

-- The end of the period: the price's cycle, or the end that the processor names if it is later
-- than the start.
abbrev pub renewed_end : Option Time → Time → ℤ → Time
renewed_end none start days = add_days start days
renewed_end (some t) start days = if not (t == 0) && ltb start t then t else add_days start days

abbrev pub active_row : Time → Time → Subscription → Subscription
active_row start end_at s = record s {
  status = active;
  current_period_starts_at = some start;
  current_period_ends_at = some end_at;
  cancelled_at = none;
  cancel_type = none;
  cancel_feedback = none;
  ended_at = none;
  last_retry_at = none;
  retry_attempts = none;
  next_retry_at = none;
  grace_ends_at = none;
}

-- One entitlement: the grace windows go, the paid window comes.
abbrev pub extend_one :
    Db → Subscription → Uuid → Time → Time → Time → Name → Table → Result Error Table
extend_one db s window start end_at now n t = from_entitlements (
    revoke_existing_entitlement db (revoke_params s n grace superseded) now t >>= λ t'.
    push_new_entitlement db (paid_window s.user_id n s.id start end_at) window now t' >>= λ pushed.
    ok (pushed.1))

unfoldable pub extend_each :
    Db → Subscription → (Name → Uuid) → Time → Time → Time → List Name → Table → Result Error Table
extend_each db s window start end_at now [] t = ok t
extend_each db s window start end_at now (n ∷ names) t =
    extend_one db s (window n) start end_at now n t >>= λ t'.
    extend_each db s window start end_at now names t'

-- The entitlements that the old product has and the new one lacks.
unfoldable pub revoke_lost :
    Db → Subscription → List Name → Time → List Name → Table → Result Error Table
revoke_lost db s new_names now [] t = ok t
revoke_lost db s new_names now (n ∷ names) t =
    (if member ◌==◌ n new_names
      then ok t
      else or_logged t
          (revoke_existing_entitlement db (revoke_params s n subscription downgrade) now t))
    >>= λ t'. revoke_lost db s new_names now names t'

abbrev pub after_downgrade :
    Db → Subscription → Time → Option (Product × Product) → Table → Result Error Table
after_downgrade db s now none t = ok t
after_downgrade db s now (some (old_product, new_product)) t =
    revoke_lost db s new_product.entitlements now old_product.entitlements t

abbrev pub downgraded_to : Option (Product × Product) → Option Uuid
downgraded_to none = none
downgraded_to (some (old_product, new_product)) = some new_product.id

abbrev pub cycle_days : Price → Result Error ℤ
cycle_days price = elim price.billing_cycle_days [
  | none ↦ err nil_dereference
  | some days ↦ ok days
]

abbrev pub effective_product : Env → Price → Option (Product × Product) → Result Error Product
effective_product env price none = get_product env price.product_id
effective_product env price (some (old_product, new_product)) = ok new_product

-- The renewal of a transaction that is new.
unfoldable pub renew_planned :
    Env → RenewMembershipParams → Plan → Ids → Time → Payments → Store → Result Error Store
renew_planned env p plan ids now payments store = do
  days ← cycle_days plan.price
  let start = next_start plan.renewed.current_period_ends_at now
  let end_at = renewed_end p.current_period_ends_at start days
  let s = active_row start end_at plan.renewed
  subscriptions ← update now s store.subscriptions
  product ← effective_product env plan.price plan.downgrade
  windows ← extend_each env.db s ids.window start end_at now product.entitlements store.entitlements
  kept ← after_downgrade env.db s now plan.downgrade windows
  let noted =
      notify ids.notification s.user_id premium_renewed none (downgraded_to plan.downgrade) store
  ok (record noted { subscriptions = subscriptions; payments = payments; entitlements = kept })

abbrev pub renew_marked :
    Env → RenewMembershipParams → Plan → Ids → Time → Bool × Payments → Store → Result Error Store
renew_marked env p plan ids now (false, payments) store = ok (record store { payments = payments })
renew_marked env p plan ids now (true, payments) store =
    renew_planned env p plan ids now payments store

unfoldable pub renew_membership :
    Env → RenewMembershipParams → Ids → Time → Store → Result Error Store
renew_membership env p ids now store = do
  s ← find_renewed env p store.subscriptions
  assert_active_transition_allowed p.allow_terminal_reactivation s
  plan ← plan_renewal env s s.scheduled_price_id
  let payment = renewal_payment p plan.price plan.renewed ids.payment now
  renew_marked env p plan ids now (mark_transaction p payment store.payments) store

pub record ReactivateMembershipParams : Type 0 where
  pub processor : Text
  pub processor_subscription_id : Text
  pub current_period_ends_at : Option Time
  pub allow_terminal_reactivation : Bool

-- A paid-through end in the future.
abbrev pub future_end : Option Time → Time → Result Error Time
future_end none now = err no_future_period_end
future_end (some t) now = if t == 0 || not (ltb now t) then err no_future_period_end else ok t

unfoldable pub reactivate_membership :
    Env → ReactivateMembershipParams → Ids → Time → Store → Result Error (Subscription × Store)
reactivate_membership env p ids now store = do
  refuse_if (p.processor_subscription_id == 0) missing_processor_id
  end_at ← future_end p.current_period_ends_at now
  found ←
      get_by_processor_subscription_id p.processor p.processor_subscription_id store.subscriptions
  assert_active_transition_allowed p.allow_terminal_reactivation found
  price ← get_price env found.price_id
  product ← get_product env price.product_id
  let s = active_row now end_at found
  subscriptions ← update now s store.subscriptions
  windows ←
      extend_each env.db s ids.window now end_at now (names_or_premium product.entitlements)
        store.entitlements
  ok (
    record s { updated_at = now },
    record store { subscriptions = subscriptions; entitlements = windows },
  )
