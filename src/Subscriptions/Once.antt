-- ===== src/Subscriptions/Once.antt =====
-- internal/modules/subscriptions/lifecycle_service.go: `RenewMembership` and the payment that marks
-- its transaction.
use openrails.Base.{
  ◌≡◌, sym, subst, ap, inl, inr, true, false, ◌∷◌, arith, ◌==◌, Bool-cases, ok, >>=-then,
  ok-injective,
}
use openrails.Base.Sql.{exists_where}
use openrails.Payments.Model.{Time, Payments}
use openrails.Payments.Repo.{create_if_not_exists, has_transaction}
use openrails.Subscriptions.Model.{Subscription}
use openrails.Subscriptions.Row.{next_start}
use openrails.Subscriptions.Repo.{update}
use openrails.Subscriptions.Store.{Store, Env, Ids, assert_active_transition_allowed}
use openrails.Subscriptions.Renew.{
  RenewMembershipParams, Plan, active_row, cycle_days, effective_product, after_downgrade,
  extend_each, find_renewed, mark_transaction, plan_renewal, renew_marked, renew_membership,
  renew_planned, renewal_payment, renewed_end,
}

module _ (p : RenewMembershipParams) (given : (p.transaction_id == 0) ≡ false) where
  abbrev Marked : Payments → Type 0
  Marked t = exists_where (has_transaction p.processor p.transaction_id) t ≡ true

  planned-payments :
      (env : Env) (plan : Plan) (ids : Ids) (now : Time) (payments : Payments)
      (store store' : Store)
      → renew_planned env p plan ids now payments store ≡ ok store'
      → payments ≡ store'.payments
  unfolding renew_planned
  planned-payments env plan ids now payments store store' h =
      let start = next_start plan.renewed.current_period_ends_at now in
      >>=-then (cycle_days plan.price) _ h λ days _ h₁.
        let end_at = renewed_end p.current_period_ends_at start days in
        let s = active_row start end_at plan.renewed in
        >>=-then (update now s store.subscriptions) _ h₁ λ u _ h₂.
          >>=-then (effective_product env plan.price plan.downgrade) _ h₂ λ product _ h₃.
            >>=-then
              (extend_each env.db s ids.window start end_at now product.entitlements
                store.entitlements)
              _ h₃
              λ windows _ h₄.
                >>=-then (after_downgrade env.db s now plan.downgrade windows) _ h₄
                  λ _ _ e. ap (λ (y : Store). y.payments) (ok-injective e)

  -- A renewal that succeeds leaves the mark.
  marks :
      (env : Env) (plan : Plan) (ids : Ids) (now : Time) (s : Subscription) (store store' : Store)
      → renew_marked env p plan ids now
          (mark_transaction p (renewal_payment p plan.price s ids.payment now) store.payments)
          store
        ≡ ok store'
      → Marked store'.payments
  unfolding mark_transaction create_if_not_exists exists_where
  marks env plan ids now s store store' h =
      elim (Bool-cases
        (exists_where (has_transaction p.processor p.transaction_id) store.payments)) [
          | inl there ↦
              subst Marked (ap (λ (y : Store). y.payments) (ok-injective (rw (given, there) at h)))
                there
          | inr new ↦
              subst Marked
                (planned-payments env plan ids now
                  (renewal_payment p plan.price s ids.payment now ∷ store.payments) store store'
                  (rw (given, new) at h))
                (ground arith)
        ]

  -- A marked transaction changes nothing.
  skips :
      (env : Env) (plan : Plan) (ids : Ids) (now : Time) (s : Subscription) (store store' : Store)
      → Marked store.payments
      → renew_marked env p plan ids now
          (mark_transaction p (renewal_payment p plan.price s ids.payment now) store.payments)
          store
        ≡ ok store'
      → store' ≡ store
  unfolding mark_transaction create_if_not_exists
  skips env plan ids now s store store' there h = sym (ok-injective (rw (given, there) at h))

  renewed-Marked :
      (env : Env) (ids : Ids) (now : Time) (store store' : Store)
      → renew_membership env p ids now store ≡ ok store'
      → Marked store'.payments
  unfolding renew_membership
  renewed-Marked env ids now store store' h =
      >>=-then (find_renewed env p store.subscriptions) _ h λ s _ h₁.
        >>=-then (assert_active_transition_allowed p.allow_terminal_reactivation s) _ h₁ λ _ _ h₂.
          >>=-then (plan_renewal env s s.scheduled_price_id) _ h₂
            λ plan _ h₃. marks env plan ids now plan.renewed store store' h₃

  -- A transaction renews a subscription once. If the renewal names its transaction and succeeds,
  -- then a second RenewMembership with the same parameters, at any time, with any new identifiers
  -- and any settings, changes no table when it succeeds.
  pub renew_membership_once :
      (env env' : Env) (ids ids' : Ids) (now now' : Time) (store first second : Store)
      → renew_membership env p ids now store ≡ ok first
      → renew_membership env' p ids' now' first ≡ ok second
      → second ≡ first
  unfolding renew_membership
  renew_membership_once env env' ids ids' now now' store first second once again =
      >>=-then (find_renewed env' p first.subscriptions) _ again λ s _ h₁.
        >>=-then (assert_active_transition_allowed p.allow_terminal_reactivation s) _ h₁ λ _ _ h₂.
          >>=-then (plan_renewal env' s s.scheduled_price_id) _ h₂ λ plan _ h₃.
            skips env' plan ids' now' plan.renewed first second
              (renewed-Marked env ids now store first once) h₃
