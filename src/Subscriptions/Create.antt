-- ===== src/Subscriptions/Create.antt =====
-- internal/modules/subscriptions/lifecycle_service.go: `createMembershipCore`, which
-- `CreateMembership` runs in a transaction.
use openrails.Base.{
  ◌+◌, ◌*◌, Bool, false, not, ◌&&◌, Option, none, some, List, [], ◌∷◌, ltb, ◌==◌, if◌then◌else◌,
  Result, ok, err, ◌>>=◌, ◌>>◌, refuse_if,
}
use openrails.Base.Int.{ℤ, pos, eqb_ℤ, ltb_ℤ}
use openrails.Payments.Model.{Time, Uuid, Text, Payment, Payments, completed}
use openrails.Payments.Model
use openrails.Payments.Repo
use openrails.Entitlements.Model.{Table, Db, Name, Entitlement, subscription}
use openrails.Entitlements.Service.{PushNewEntitlementParams, push_new_entitlement}
use openrails.Entitlements.Repo.{exists_by_source}
use openrails.Subscriptions.Model.{
  Subscription, Price, active, is_status, add_days, day, premium_started,
}
use openrails.Subscriptions.Table.{
  Subscriptions, Error, active_subscription_exists, aborted_transaction, nil_dereference,
}
use openrails.Subscriptions.Repo.{
  create, update, get_active_or_pending_by_user_id_and_product_id, get_by_user_id_and_price_id,
}
use openrails.Subscriptions.Store.{
  Store, Env, Ids, get_price, get_product, from_entitlements, notify,
}

pub record CreateMembershipParams : Type 0 where
  pub user_id : Text
  pub price_id : Uuid
  pub processor : Text
  pub processor_subscription_id : Option Text
  pub user_email : Option Text
  pub current_period_ends_at : Option Time
  pub transaction_id : Text
  pub amount : ℤ
  pub currency : Text

-- Only an active subscription stops the creation.
abbrev pub found_active : Result Error Subscription → Bool
found_active (ok s) = is_status active s
found_active (err e) = false

abbrev pub found : Result Error Subscription → Option Subscription
found (ok s) = some s
found (err e) = none

-- The period's end by the price: its cycle if it has a positive one, or 30 days.
abbrev pub price_end : Option ℤ → Time → Time
price_end none now = now + 30 * day
price_end (some days) now = if ltb_ℤ (pos 0) days then add_days now days else now + 30 * day

abbrev pub period_end : Option Time → Option ℤ → Time → Time
period_end none cycle now = price_end cycle now
period_end (some t) cycle now = if not (t == 0) && ltb now t then t else price_end cycle now

-- `params.UserEmail` where it is there and not blank.
abbrev pub given_or : Option Text → Option Text → Option Text
given_or none old = old
given_or (some email) old = if email == 0 then old else some email

abbrev pub id_or : Option Text → Text → Text
id_or none old = old
id_or (some id) old = id

-- The row that is used again.
abbrev pub reused_row : CreateMembershipParams → Price → Time → Time → Subscription → Subscription
reused_row p price start end_at s = record s {
  user_email = given_or p.user_email s.user_email;
  price_id = price.id;
  status = active;
  processor = p.processor;
  processor_subscription_id = id_or p.processor_subscription_id s.processor_subscription_id;
  current_period_starts_at = some start;
  current_period_ends_at = some end_at;
  started_at = start;
  cancelled_at = none;
  cancel_type = none;
  cancel_feedback = none;
  ended_at = none;
}

abbrev pub new_row : CreateMembershipParams → Price → Uuid → Time → Time → Subscription
new_row p price id start end_at = record {
  id = id;
  user_id = p.user_id;
  product_id = price.product_id;
  price_id = price.id;
  scheduled_price_id = none;
  status = active;
  started_at = start;
  ended_at = none;
  current_period_starts_at = some start;
  current_period_ends_at = some end_at;
  processor = p.processor;
  processor_subscription_id = id_or p.processor_subscription_id 0;
  user_email = given_or p.user_email none;
  payment_method_id = none;
  last_retry_at = none;
  retry_attempts = none;
  next_retry_at = none;
  grace_ends_at = none;
  cancel_feedback = none;
  cancel_type = none;
  cancelled_at = none;
  created_at = start;
  updated_at = start;
}

-- The row that was found is updated, or a new one is inserted.
unfoldable pub save_membership :
    CreateMembershipParams
    → Price
    → Uuid
    → Time
    → Time
    → Option Subscription
    → Subscriptions
    → Result Error (Subscription × Subscriptions)
save_membership p price id now end_at (some old) t =
    let s = reused_row p price now end_at old in
    update now s t >>= λ t'. ok (record s { updated_at = now }, t')
save_membership p price id now end_at none t =
    let s = new_row p price id now end_at in create s t >>= λ t'. ok (s, t')

-- The text "premium".
abbrev pub premium : Text
premium = 1

abbrev pub names_or_premium : List Name → List Name
names_or_premium [] = premium ∷ []
names_or_premium (n ∷ names) = n ∷ names

abbrev pub paid_window : Text → Name → Uuid → Time → Time → PushNewEntitlementParams
paid_window user n id start end_at = record {
  user_id = user;
  entitlement = n;
  not_before = some start;
  indefinite = false;
  duration = none;
  end_at = some end_at;
  source_type = subscription;
  source_id = id;
}

-- The log line reads the window that was pushed, which may be nil.
abbrev pub read_window : Option Entitlement × Table → Result Error Table
read_window (none, t) = err nil_dereference
read_window (some e, t) = ok t

abbrev pub grant_one : Db → Text → Uuid → Uuid → Time → Time → Name → Table → Result Error Table
grant_one db user id window now end_at n t =
    if exists_by_source subscription id n t
    then ok t
    else (from_entitlements
          (push_new_entitlement db (paid_window user n id now end_at) window now t)
        >>= read_window)

-- The loop over the entitlements of the product.
unfoldable pub grant_each :
    Db → Text → Uuid → (Name → Uuid) → Time → Time → List Name → Table → Result Error Table
grant_each db user id window now end_at [] t = ok t
grant_each db user id window now end_at (n ∷ names) t =
    grant_one db user id (window n) now end_at n t >>= λ t'.
    grant_each db user id window now end_at names t'

abbrev pub amount_or : ℤ → ℤ → ℤ
amount_or amount list_amount = if eqb_ℤ amount (pos 0) then list_amount else amount

abbrev pub currency_or : Text → Text → Text
currency_or currency default = if currency == 0 then default else currency

abbrev pub first_payment : CreateMembershipParams → Price → Subscription → Uuid → Time → Payment
first_payment p price s id now = record {
  id = id;
  user_id = p.user_id;
  price_id = price.id;
  subscription_id = some s.id;
  refunded_payment_id = none;
  processor = p.processor;
  transaction_id = p.transaction_id;
  amount = amount_or p.amount price.amount;
  list_amount = price.amount;
  currency = currency_or p.currency price.currency;
  status = completed;
  purchased_at = now;
  created_at = now;
}

-- A payment of the user under the same transaction is there already.
abbrev pub is_paid : Text → Result Model.Error Payment → Bool
is_paid user (ok p) = p.user_id == user
is_paid user (err e) = false

-- The code logs that the payment was not stored and goes on, but the insert that the unique index
-- refused has aborted the transaction.
abbrev pub or_aborted : Result Model.Error Payments → Result Error Payments
or_aborted (ok t) = ok t
or_aborted (err e) = err aborted_transaction

-- The payment of the creation.
unfoldable pub record_payment :
    Env
    → CreateMembershipParams
    → Price
    → Subscription
    → Uuid
    → Time
    → Payments
    → Result Error Payments
record_payment env p price s id now t =
    if not (p.transaction_id == 0)
      && env.has_payment_service
      && not (is_paid s.user_id (Repo.get_by_transaction_id p.processor p.transaction_id t))
    then or_aborted (Repo.create (first_payment p price s id now) t)
    else ok t

unfoldable pub create_membership :
    Env → CreateMembershipParams → Ids → Time → Store → Result Error (Subscription × Store)
create_membership env p ids now store = do
  price ← get_price env p.price_id
  refuse_if
      (found_active (
        get_active_or_pending_by_user_id_and_product_id p.user_id price.product_id
          store.subscriptions))
      active_subscription_exists
  let existing = found (get_by_user_id_and_price_id p.user_id price.id store.subscriptions)
  let end_at = period_end p.current_period_ends_at price.billing_cycle_days now
  saved ← save_membership p price ids.subscription now end_at existing store.subscriptions
  product ← get_product env price.product_id
  windows ←
      grant_each env.db p.user_id (saved.0).id ids.window now end_at
        (names_or_premium product.entitlements) store.entitlements
  payments ← record_payment env p price saved.0 ids.payment now store.payments
  let noted = notify ids.notification p.user_id premium_started none none store
  ok (
    saved.0,
    record noted { subscriptions = saved.1; payments = payments; entitlements = windows },
  )
