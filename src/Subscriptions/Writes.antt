-- ===== src/Subscriptions/Writes.antt =====
-- What each operation of the lifecycle writes to the table of subscriptions.
use openrails.Base.{
  ◌≡◌, refl, sym, subst, ap, Bool, true, false, not, Option, none, some, arith, Result, ok, ◌>>=◌,
  refuse_if, ◌==◌, >>=-then, ok-injective, ◌∙◌,
}
use openrails.Payments.Model.{Time, Uuid, Text, Payments}
use openrails.Entitlements.Model.{Name}
use openrails.Subscriptions.Model.{Bytes, Subscription, Price, active, is_status}
use openrails.Subscriptions.Row.{cancel, reset_current_periods, next_start}
use openrails.Subscriptions.Table.{
  Subscriptions, Error, not_active, missing_processor_id, active_subscription_exists,
}
use openrails.Subscriptions.Repo.{
  create, update, get_by_id, get_by_processor_subscription_id, get_latest_by_user_id,
  get_active_or_pending_by_user_id_and_product_id, get_by_user_id_and_price_id,
}
use openrails.Subscriptions.Store.{
  Store, Env, Ids, get_price, get_product, assert_active_transition_allowed,
}
use openrails.Subscriptions.Create.{
  CreateMembershipParams, reused_row, new_row, save_membership, create_membership, names_or_premium,
  found, found_active, period_end, grant_each, record_payment,
}
use openrails.Subscriptions.Renew.{
  RenewMembershipParams, Plan, active_row, find_renewed, mark_transaction, plan_renewal,
  renew_marked, renew_membership, renew_planned, ReactivateMembershipParams, reactivate_membership,
  future_end, extend_each, cycle_days, renewed_end, effective_product, renewal_payment,
  after_downgrade,
}
use openrails.Subscriptions.End.{
  CancelMembershipParams, cancelled_row, cancel_membership, expire_membership, fail_membership,
  failed_row, cancel_user_subscription, expired_row, user_cancelled_row, find_cancelled,
  cancelled_windows, failed_windows, append_grace, revoke_all,
}
use openrails.Subscriptions.Sound.{IsClean}

-- At most one update, with the row that the code hands to it.
pub data Write (now : Time) (t t' : Subscriptions) : Type 0 where
  nothing : t' ≡ t → Write now t t'
  changed : (s : Subscription) → IsClean s → update now s t ≡ ok t' → Write now t t'

-- The same, or one insert.
pub data Growth (now : Time) (id : Uuid) (t t' : Subscriptions) : Type 0 where
  wrote : Write now t t' → Growth now id t t'
  added : (s : Subscription) → s.id ≡ id → IsClean s → create s t ≡ ok t' → Growth now id t t'

-- The rows that end are not active.
cancelled_row-IsClean :
    (p : CancelMembershipParams) (now : Time) (s : Subscription) → IsClean (cancelled_row p now s)
unfolding cancelled_row
cancelled_row-IsClean p now s h = absurd (cc)

failed_row-IsClean : (env : Env) (now : Time) (s : Subscription) → IsClean (failed_row env now s)
unfolding failed_row cancel reset_current_periods
failed_row-IsClean env now s h = absurd (ground arith)

active_row-IsClean : (start end_at : Time) (s : Subscription) → IsClean (active_row start end_at s)
active_row-IsClean start end_at s h = record {
  not_cancelled = refl;
  no_type = refl;
  not_ended = refl;
  starts = refl;
  ends = refl;
}

-- The tables that an operation returns have the subscriptions that it wrote.
changed_to :
    {now : Time} {t u : Subscriptions} (s : Subscription) {store store' : Store}
    → IsClean s
    → update now s t ≡ ok u
    → ◌≡◌ {A = Result Error Store} (ok store) (ok store')
    → store.subscriptions ≡ u
    → Write now t store'.subscriptions
changed_to {now} {t} {u} s {store} {store'} clean up e same = changed s clean (
    subst (λ v. update now s t ≡ ok v)
      (sym same ∙ ap (λ (x : Store). x.subscriptions) (ok-injective e)) up)

module _ (now : Time) (store : Store) where
  pub cancel_user_subscription-Write :
      (user_id : Text) (feedback : Bytes) (notification : Uuid) {store' : Store}
      → cancel_user_subscription user_id feedback notification now store ≡ ok store'
      → Write now store.subscriptions store'.subscriptions
  unfolding cancel_user_subscription
  cancel_user_subscription-Write user_id feedback notification h =
      >>=-then (get_latest_by_user_id user_id store.subscriptions) _ h λ found _ h₁.
        >>=-then (refuse_if (not (is_status active found)) not_active) _ h₁ λ _ _ h₂.
          >>=-then (update now (user_cancelled_row feedback now found) store.subscriptions) _ h₂
            λ t up e.
              changed_to (user_cancelled_row feedback now found) (λ k. absurd (cc)) up e refl

module _ (env : Env) (now : Time) (store : Store) where
  pub cancel_membership-Write :
      (p : CancelMembershipParams) (notification : Uuid) {store' : Store}
      → cancel_membership env p notification now store ≡ ok store'
      → Write now store.subscriptions store'.subscriptions
  unfolding cancel_membership
  cancel_membership-Write p notification h =
      >>=-then
        (find_cancelled p.subscription_id p.processor p.processor_subscription_id
          store.subscriptions)
        _ h
        λ found _ h₁.
          >>=-then (update now (cancelled_row p now found) store.subscriptions) _ h₁ λ t up h₂.
            >>=-then (cancelled_windows env p (cancelled_row p now found) now store.entitlements) _
              h₂
              λ _ _ e.
                changed_to (cancelled_row p now found) (cancelled_row-IsClean p now found) up e refl

  pub expire_membership-Write :
      (sub notification : Uuid) {store' : Store}
      → expire_membership env sub notification now store ≡ ok store'
      → Write now store.subscriptions store'.subscriptions
  unfolding expire_membership
  expire_membership-Write sub notification h =
      >>=-then (get_by_id sub store.subscriptions) _ h λ found _ h₁.
        >>=-then (update now (expired_row now found) store.subscriptions) _ h₁ λ t up h₂.
          >>=-then (revoke_all env.db (expired_row now found) now store.entitlements) _ h₂
            λ _ _ e. changed_to (expired_row now found) (λ k. absurd (cc)) up e refl

  pub fail_membership-Write :
      (sub notification : Uuid) (window : Name → Uuid) {store' : Store}
      → fail_membership env sub notification window now store ≡ ok store'
      → Write now store.subscriptions store'.subscriptions
  unfolding fail_membership
  fail_membership-Write sub notification window h =
      >>=-then (get_by_id sub store.subscriptions) _ h λ found _ h₁.
        let s = failed_row env now found in
        >>=-then (append_grace env s window now store.entitlements) _ h₁ λ graced _ h₂.
          >>=-then (update now s store.subscriptions) _ h₂ λ t up h₃.
            >>=-then (failed_windows env s now graced) _ h₃
              λ _ _ e. changed_to s (failed_row-IsClean env now found) up e refl

  pub reactivate_membership-Write :
      (p : ReactivateMembershipParams) (ids : Ids) {s : Subscription} {store' : Store}
      → reactivate_membership env p ids now store ≡ ok (s, store')
      → Write now store.subscriptions store'.subscriptions
  unfolding reactivate_membership
  reactivate_membership-Write p ids {s} {store'} h =
      >>=-then (refuse_if (p.processor_subscription_id == 0) missing_processor_id) _ h λ _ _ h₁.
        >>=-then (future_end p.current_period_ends_at now) _ h₁ λ end_at _ h₂.
          >>=-then
            (get_by_processor_subscription_id p.processor p.processor_subscription_id
              store.subscriptions)
            _ h₂
            λ found _ h₃.
              >>=-then (assert_active_transition_allowed p.allow_terminal_reactivation found) _ h₃
                λ _ _ h₄. >>=-then (get_price env found.price_id) _ h₄ λ price _ h₅.
                  >>=-then (get_product env price.product_id) _ h₅ λ product _ h₆.
                    >>=-then (update now (active_row now end_at found) store.subscriptions) _ h₆
                      λ t up h₇.
                        >>=-then
                          (extend_each env.db (active_row now end_at found) ids.window now end_at
                            now (names_or_premium product.entitlements) store.entitlements)
                          _ h₇
                          λ windows _ e.
                            changed_to (active_row now end_at found)
                              (active_row-IsClean now end_at found) up
                              (ap (λ (r : Result Error (Subscription × Store)). r >>= λ x. ok x.1)
                                e)
                              refl

  renew_planned-Write :
      (p : RenewMembershipParams) (plan : Plan) (ids : Ids) (payments : Payments) {store' : Store}
      → renew_planned env p plan ids now payments store ≡ ok store'
      → Write now store.subscriptions store'.subscriptions
  unfolding renew_planned
  renew_planned-Write p plan ids payments h =
      let start = next_start plan.renewed.current_period_ends_at now in
      >>=-then (cycle_days plan.price) _ h λ days _ h₁.
        let end_at = renewed_end p.current_period_ends_at start days in
        let s = active_row start end_at plan.renewed in
        >>=-then (update now s store.subscriptions) _ h₁ λ t up h₂.
          >>=-then (effective_product env plan.price plan.downgrade) _ h₂ λ product _ h₃.
            >>=-then
              (extend_each env.db s ids.window start end_at now product.entitlements
                store.entitlements)
              _ h₃
              λ windows _ h₄.
                >>=-then (after_downgrade env.db s now plan.downgrade windows) _ h₄
                  λ _ _ e. changed_to s (active_row-IsClean start end_at plan.renewed) up e refl

  renew_marked-Write :
      (p : RenewMembershipParams) (plan : Plan) (ids : Ids) (marked : Bool × Payments)
      {store' : Store}
      → renew_marked env p plan ids now marked store ≡ ok store'
      → Write now store.subscriptions store'.subscriptions
  renew_marked-Write p plan ids (false, payments) h =
      nothing (sym (ap (λ (x : Store). x.subscriptions) (ok-injective h)))
  renew_marked-Write p plan ids (true, payments) h = renew_planned-Write p plan ids payments h

  pub renew_membership-Write :
      (p : RenewMembershipParams) (ids : Ids) {store' : Store}
      → renew_membership env p ids now store ≡ ok store'
      → Write now store.subscriptions store'.subscriptions
  unfolding renew_membership
  renew_membership-Write p ids h =
      >>=-then (find_renewed env p store.subscriptions) _ h λ found _ h₁.
        >>=-then (assert_active_transition_allowed p.allow_terminal_reactivation found) _ h₁
          λ _ _ h₂. >>=-then (plan_renewal env found found.scheduled_price_id) _ h₂ λ plan _ h₃.
            renew_marked-Write p plan ids
              (mark_transaction p (renewal_payment p plan.price plan.renewed ids.payment now)
                store.payments)
              h₃

  save_membership-Growth :
      (p : CreateMembershipParams) (price : Price) (id : Uuid) (end_at : Time)
      (existing : Option Subscription) (t : Subscriptions) {saved : Subscription × Subscriptions}
      → save_membership p price id now end_at existing t ≡ ok saved
      → Growth now id t saved.1
  unfolding save_membership
  save_membership-Growth p price id end_at (some old) t {saved} h =
      >>=-then (update now (reused_row p price now end_at old) t) _ h λ u up e. wrote (
        changed (reused_row p price now end_at old)
          (λ _. record {
            not_cancelled = refl;
            no_type = refl;
            not_ended = refl;
            starts = refl;
            ends = refl;
          })
          (subst (λ v. update now (reused_row p price now end_at old) t ≡ ok v)
            (ap (λ (x : Subscription × Subscriptions). x.1) (ok-injective e)) up))
  save_membership-Growth p price id end_at none t {saved} h =
      >>=-then (create (new_row p price id now end_at) t) _ h λ u made e.
        added (new_row p price id now end_at) refl
          (λ _. record {
            not_cancelled = refl;
            no_type = refl;
            not_ended = refl;
            starts = refl;
            ends = refl;
          })
          (subst (λ v. create (new_row p price id now end_at) t ≡ ok v)
            (ap (λ (x : Subscription × Subscriptions). x.1) (ok-injective e)) made)

  pub create_membership-Growth :
      (p : CreateMembershipParams) (ids : Ids) {s : Subscription} {store' : Store}
      → create_membership env p ids now store ≡ ok (s, store')
      → Growth now ids.subscription store.subscriptions store'.subscriptions
  unfolding create_membership
  create_membership-Growth p ids {s} {store'} h =
      >>=-then (get_price env p.price_id) _ h λ price _ h₁.
        >>=-then
          (refuse_if
            (found_active (
              get_active_or_pending_by_user_id_and_product_id p.user_id price.product_id
                store.subscriptions))
            active_subscription_exists)
          _ h₁
          λ _ _ h₂.
            let end_at = period_end p.current_period_ends_at price.billing_cycle_days now in
            let existing =
              found (get_by_user_id_and_price_id p.user_id price.id store.subscriptions) in
            >>=-then
              (save_membership p price ids.subscription now end_at existing store.subscriptions) _
              h₂
              λ saved saved_ok h₃. >>=-then (get_product env price.product_id) _ h₃ λ product _ h₄.
                >>=-then
                  (grant_each env.db p.user_id (saved.0).id ids.window now end_at
                    (names_or_premium product.entitlements) store.entitlements)
                  _ h₄
                  λ windows _ h₅.
                    >>=-then (record_payment env p price saved.0 ids.payment now store.payments) _
                      h₅
                      λ _ _ e.
                        subst (λ t. Growth now ids.subscription store.subscriptions t)
                          (ap (λ (x : Subscription × Store). x.1.subscriptions) (ok-injective e))
                          (save_membership-Growth p price ids.subscription end_at existing
                            store.subscriptions {saved = saved} saved_ok)
