-- ===== src/Subscriptions/Examples.antt =====
-- The theorems on subscriptions, each at a concrete store.
use openrails.Base.{◌+◌, ◌≡◌, refl, true, false, none, some, [], ◌∷◌, ok, err, arith, All}
use openrails.Base.Int.{pos}
use openrails.Base.Sql.{
  find_where, exists_where, update_where, select_where, order_by, insert_row, first_by, member,
}
use openrails.Payments.Model.{Payment, completed}
use openrails.Payments.Repo
use openrails.Entitlements.Model
use openrails.Entitlements.Model.{Entitlement, Table, Db, Name, subscription, grace, dunning_failed}
use openrails.Entitlements.Timeline.{lock_entitlement_timeline}
use openrails.Entitlements.Service.{
  push_new_entitlement, check_push, push_tx, start_of, tail_end, append_window,
  revoke_existing_entitlement, revoke_key,
}
use openrails.Entitlements.Repo.{
  exists_by_source, list_distinct_entitlement_names_by_source, distinct,
}
use openrails.Subscriptions.Model.{
  Subscription, Price, Product, Notification, active, past_due, cancelled, user, chargeback,
  add_days, premium_started, premium_renewed, premium_ended, expired_reason,
}
use openrails.Subscriptions.Table.{
  has_id, insert_subscription, meets_checks, refused_row, replace_row, update_subscription,
}
use openrails.Subscriptions.Repo.{
  create, get_active_or_pending_by_user_id_and_product_id, get_by_id,
  get_by_processor_subscription_id, get_by_user_id_and_price_id, update,
}
use openrails.Subscriptions.Store.{
  Store, Env, Ids, assert_active_transition_allowed, get_price, get_product, revoke_each,
  revoke_source,
}
use openrails.Subscriptions.Create.{
  CreateMembershipParams, create_membership, grant_each, record_payment, save_membership,
}
use openrails.Subscriptions.Renew.{
  RenewMembershipParams, extend_each, find_renewed, mark_transaction, plan_renewal,
  renew_membership, renew_planned,
}
use openrails.Subscriptions.End.{
  CancelMembershipParams, cancel_membership, cancelled_row, expire_membership, expired_row,
  fail_membership, revoke_all,
}
use openrails.Subscriptions.Sound.{IsSound}
use openrails.Subscriptions.Reach.{start, next, created, Reachable-IsSound}
use openrails.Subscriptions.Terminal.{renewal, attempt_all, attempt_all-is_terminal}
use openrails.Subscriptions.Once.{renew_membership_once}
use openrails.Subscriptions.Dunning.{Due, fail_membership-Due}
use openrails.Subscriptions.Refused.{fail_membership-last, fail_membership-off}
use openrails.Subscriptions.Ending.{
  WritesRow, cancel_membership-succeeds, expire_membership-succeeds,
}
use openrails.Subscriptions.Revoked.{Gone, expire_membership-Gone}
use openrails.Subscriptions.NilWindow.{create_membership-nil}

abbrev price : Price
price = record {
  id = 3;
  product_id = 4;
  amount = pos 500;
  currency = 1;
  billing_cycle_days = some (pos 30);
}

abbrev product : Product
product = record { id = 4; entitlements = 5 ∷ [] }

abbrev env : Env
env = record {
  db = record { accepts = λ t. true; hides_deleted = false };
  prices = price ∷ [];
  products = product ∷ [];
  parse_uuid = λ t. none;
  nmi_backed = 2 ∷ [];
  dunning_off = false;
  entitlement_expiration_disabled = false;
  has_payment_service = true;
  cancel_time = 2592000002000;
  reset_time = 2592000002000;
}

abbrev ids : Ids
ids = record { subscription = 20; payment = 21; notification = 22; window = λ n. 30 + n }

abbrev no_store : Store
no_store = record { subscriptions = []; payments = []; notifications = []; entitlements = [] }

abbrev params : CreateMembershipParams
params = record {
  user_id = 7;
  price_id = 3;
  processor = 2;
  processor_subscription_id = some 40;
  user_email = none;
  current_period_ends_at = none;
  transaction_id = 50;
  amount = pos 500;
  currency = 1;
}

abbrev row : Subscription
row = record {
  id = 20;
  user_id = 7;
  product_id = 4;
  price_id = 3;
  scheduled_price_id = none;
  status = active;
  started_at = 1000;
  ended_at = none;
  current_period_starts_at = some 1000;
  current_period_ends_at = some 2592000001000;
  processor = 2;
  processor_subscription_id = 40;
  user_email = none;
  payment_method_id = none;
  last_retry_at = none;
  retry_attempts = none;
  next_retry_at = none;
  grace_ends_at = none;
  cancel_feedback = none;
  cancel_type = none;
  cancelled_at = none;
  created_at = 1000;
  updated_at = 1000;
}

abbrev window : Entitlement
window = record {
  id = 35;
  user_id = 7;
  entitlement = 5;
  start_at = 1000;
  end_at = some 2592000001000;
  source_id = some 20;
  source_type = subscription;
  revoked_at = none;
  revoke_reason = none;
  created_at = 1000;
  updated_at = 1000;
  deleted_at = none;
}

abbrev payment : Payment
payment = record {
  id = 21;
  user_id = 7;
  price_id = 3;
  subscription_id = some 20;
  refunded_payment_id = none;
  processor = 2;
  transaction_id = 50;
  amount = pos 500;
  list_amount = pos 500;
  currency = 1;
  status = completed;
  purchased_at = 1000;
  created_at = 1000;
}

abbrev note : Notification
note = record {
  id = 22;
  user_id = 7;
  event_type = premium_started;
  reason = none;
  new_product = none;
}

abbrev store : Store
store = record {
  subscriptions = row ∷ [];
  payments = payment ∷ [];
  notifications = note ∷ [];
  entitlements = window ∷ [];
}

created_store : create_membership env params ids 1000 no_store ≡ ok (row, store)
unfolding create_membership get_price get_product find_where
    get_active_or_pending_by_user_id_and_product_id select_where order_by insert_row first_by
    get_by_user_id_and_price_id save_membership create insert_subscription meets_checks exists_where
    grant_each exists_by_source push_new_entitlement check_push push_tx lock_entitlement_timeline
    start_of tail_end append_window record_payment Repo.get_by_transaction_id Repo.create add_days
created_store = refl

sound : IsSound store.subscriptions
unfolding meets_checks
sound = (
  (
    (
      refl,
      λ _. record {
        not_cancelled = refl;
        no_type = refl;
        not_ended = refl;
        starts = refl;
        ends = refl;
      },
    ),
    tt,
  ),
  (tt, tt),
)

Reachable-IsSound_example : IsSound store.subscriptions
unfolding exists_where
Reachable-IsSound_example = Reachable-IsSound store (
    next {store = no_store} {store' = store} (start refl)
      (created env params ids 1000 row refl created_store))

-- The subscription after a chargeback.
abbrev charged_back : Subscription
charged_back = record row {
  status = cancelled;
  ended_at = some 5000;
  cancel_type = some chargeback;
  cancelled_at = some 5000;
}

abbrev ended_store : Store
ended_store = record store { subscriptions = charged_back ∷ [] }

abbrev renew_params : RenewMembershipParams
renew_params = record {
  processor = 2;
  processor_subscription_id = 40;
  current_period_ends_at = none;
  transaction_id = 51;
  amount = pos 500;
  currency = 1;
  allow_terminal_reactivation = false;
}

ended-IsSound : IsSound ended_store.subscriptions
unfolding meets_checks
ended-IsSound = (((refl, λ h. absurd (cc)), tt), (tt, tt))

attempt_all-is_terminal_example :
    find_where
      (has_id 20)
      (attempt_all (renewal env renew_params ids 6000 ∷ []) ended_store).subscriptions
    ≡ some charged_back
unfolding find_where
attempt_all-is_terminal_example =
    attempt_all-is_terminal (renewal env renew_params ids 6000 ∷ []) 20 charged_back ended_store
      ended-IsSound refl refl (refl, tt)

abbrev renewed_row : Subscription
renewed_row = record row {
  current_period_starts_at = some 2592000001000;
  current_period_ends_at = some 5184000001000;
  updated_at = 6000;
}

abbrev renewed_store : Store
renewed_store = record {
  subscriptions = renewed_row ∷ [];
  payments =
      record payment { id = 21; transaction_id = 51; purchased_at = 6000; created_at = 6000 }
      ∷ payment
      ∷ [];
  notifications = record note { event_type = premium_renewed } ∷ note ∷ [];
  entitlements =
      record window {
        start_at = 2592000001000;
        end_at = some 5184000001000;
        created_at = 6000;
        updated_at = 6000;
      }
      ∷ window
      ∷ [];
}

renewed_once : renew_membership env renew_params ids 6000 store ≡ ok renewed_store
unfolding renew_membership find_renewed get_by_processor_subscription_id find_where
    assert_active_transition_allowed plan_renewal get_price get_product mark_transaction
    Repo.create_if_not_exists exists_where renew_planned update update_subscription replace_row
    meets_checks update_where extend_each revoke_existing_entitlement revoke_key
    lock_entitlement_timeline push_new_entitlement check_push push_tx start_of tail_end
    append_window add_days
renewed_once = refl

renewed_again : renew_membership env renew_params ids 7000 renewed_store ≡ ok renewed_store
unfolding renew_membership find_renewed get_by_processor_subscription_id find_where
    assert_active_transition_allowed plan_renewal get_price get_product mark_transaction
    Repo.create_if_not_exists exists_where
renewed_again = refl

renew_membership_once_example : renewed_store ≡ renewed_store
renew_membership_once_example =
    renew_membership_once renew_params refl env env ids ids 6000 7000 store renewed_store
      renewed_store renewed_once renewed_again

-- Four failures are behind it.
abbrev due_row : Subscription
due_row = record row { status = past_due; retry_attempts = some 4 }

abbrev due_store : Store
due_store = record store { subscriptions = due_row ∷ [] }

abbrev early_env : Env
early_env = record env { cancel_time = 2592000000000; reset_time = 2592000000000 }

due-IsSound : IsSound due_store.subscriptions
unfolding meets_checks
due-IsSound = (((refl, λ h. absurd (cc)), tt), (tt, tt))

fail_membership-Due_example :
    (store' : Store) × (fail_membership early_env 20 22 (λ n. 30 + n) 2592000000000 due_store
      ≡ ok store')
    × ((found : Subscription) × (get_by_id 20 store'.subscriptions ≡ ok found)
        × Due 5 2592000000000 found)
unfolding get_by_id find_where
fail_membership-Due_example =
    fail_membership-Due early_env 20 22 (λ n. 30 + n) 2592000000000 2592000001000 due_store due_row
      (λ u. refl) due-IsSound refl refl refl refl (ground arith) (λ e. (ground arith, refl))

fail_membership-last_example :
    fail_membership env 20 22 (λ n. 30 + n) 2592000002000 due_store ≡ err refused_row
unfolding get_by_id find_where
fail_membership-last_example =
    fail_membership-last env 20 22 (λ n. 30 + n) 2592000002000 due_store due_row refl 2592000001000
      refl (ground arith) refl refl (ground arith) (ground arith) (ground arith)

abbrev off_env : Env
off_env = record env { dunning_off = true }

fail_membership-off_example :
    fail_membership off_env 20 22 (λ n. 30 + n) 6000 store ≡ err refused_row
unfolding get_by_id find_where
fail_membership-off_example =
    fail_membership-off off_env 20 22 (λ n. 30 + n) 6000 store row refl refl refl

abbrev cancel_params : CancelMembershipParams
cancel_params = record {
  subscription_id = some 20;
  processor = none;
  processor_subscription_id = none;
  cancel_type = user;
  cancel_feedback = none;
  revoke_access = true;
}

cancel_membership-succeeds_example :
    WritesRow env 22 6000 store row
      (cancelled_row cancel_params 6000 row)
      (cancel_membership env cancel_params 22 6000 store)
unfolding get_by_id find_where
cancel_membership-succeeds_example =
    cancel_membership-succeeds env 22 6000 store row sound cancel_params (λ u. refl) (ground arith)
      refl

expire_membership-succeeds_example :
    WritesRow env 22 6000 store row (expired_row 6000 row) (expire_membership env 20 22 6000 store)
unfolding get_by_id find_where
expire_membership-succeeds_example =
    expire_membership-succeeds env 22 6000 store row sound 20 (λ u. refl) refl

abbrev expired_store : Store
expired_store = record {
  subscriptions = record (expired_row 6000 row) { updated_at = 6000 } ∷ [];
  payments = payment ∷ [];
  notifications =
      record note { event_type = premium_ended; reason = some expired_reason } ∷ note ∷ [];
  entitlements =
      record window {
        revoked_at = some 6000;
        revoke_reason = some dunning_failed;
        updated_at = 6000;
      }
      ∷ [];
}

expired_ok : expire_membership env 20 22 6000 store ≡ ok expired_store
unfolding expire_membership get_by_id find_where update update_subscription replace_row meets_checks
    exists_where update_where revoke_all revoke_source revoke_each distinct member select_where
    list_distinct_entitlement_names_by_source revoke_existing_entitlement revoke_key
    lock_entitlement_timeline
expired_ok = refl

expire_membership-Gone_example :
    All (Gone subscription 20 6000) expired_store.entitlements
    × All (Gone grace 20 6000) expired_store.entitlements
unfolding get_by_id find_where
expire_membership-Gone_example =
    expire_membership-Gone env 20 22 6000 6000 store row {store' = expired_store} (λ u. refl) refl
      refl (λ _. (refl, refl), tt) (λ h. absurd (cc), tt) (ground arith) expired_ok

-- The user has the entitlement without an end from an administrator.
abbrev gift_store : Store
gift_store = record no_store {
  entitlements =
      record window { end_at = none; source_type = Model.admin; source_id = some 99 } ∷ [];
}

create_membership-nil_example :
    ¬ (create_membership env params ids 1000 gift_store ≡ ok (row, store))
unfolding get_price get_product find_where member exists_where exists_by_source
    get_by_user_id_and_price_id
create_membership-nil_example =
    create_membership-nil env params ids 1000 gift_store 5 price product (row, store) refl refl refl
      refl refl (λ old h. absurd (cc))
