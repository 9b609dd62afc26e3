-- ===== src/Subscriptions/Refused.antt =====
-- internal/modules/subscriptions/lifecycle_service.go: `FailMembership` against the checks of
-- migrations/postgres/007_add_consistency_constraints.up.sql.
use openrails.Base.{
  ◌≤◌, ◌<◌, ◌+◌, ◌≡◌, refl, sym, subst, ◌∙◌, true, false, none, some, arith, ◌==◌, ok, err,
  or_error-ok,
}
use openrails.Base.Sql.{find_where}
use openrails.Rows.{find-test}
use openrails.Payments.Model.{Time, Uuid}
use openrails.Entitlements.Model.{Name, second}
use openrails.Subscriptions.Model.{Subscription, past_due, is_status}
use openrails.Subscriptions.Row.{cancel, reset_current_periods}
use openrails.Subscriptions.Table.{
  Subscriptions, no_rows, refused_row, has_id, meets_checks, replace_row, update_subscription,
}
use openrails.Subscriptions.Repo.{get_by_id, update}
use openrails.Subscriptions.Store.{Store, Env}
use openrails.Subscriptions.End.{failed_row, append_grace, fail_membership, next_attempt}

update-refused :
    (now : Time) (s old : Subscription) (t : Subscriptions)
    → find_where (has_id s.id) t ≡ some old
    → meets_checks s ≡ false
    → update now s t ≡ err refused_row
unfolding update update_subscription replace_row meets_checks
update-refused now s old t found bad = rw (found, bad) refl

pub failed_id : (env : Env) (now : Time) (s : Subscription) → (failed_row env now s).id ≡ s.id
unfolding failed_row cancel reset_current_periods
failed_id env now s = ground arith

-- A failure whose row is cancelled and refused by the checks fails as a whole.
refused :
    (env : Env) (id notification : Uuid) (window : Name → Uuid) (now : Time) (store : Store)
    (s : Subscription)
    → get_by_id id store.subscriptions ≡ ok s
    → is_status past_due (failed_row env now s) ≡ false
    → meets_checks (failed_row env now s) ≡ false
    → fail_membership env id notification window now store ≡ err refused_row
unfolding fail_membership get_by_id append_grace
refused env id notification window now store s found ended bad =
    let here = or_error-ok (find_where (has_id id) store.subscriptions) no_rows {a = s} found in
    let same : s.id ≡ id = ground (arith, find-test (has_id id) store.subscriptions here) in
    let own =
      subst (λ k. find_where (has_id k) store.subscriptions ≡ some s)
        (sym same ∙ sym (failed_id env now s)) here in
    let none_graced : append_grace env (failed_row env now s) window now store.entitlements
        ≡ ok store.entitlements =
      ground (arith, ended) in
    rw (found, none_graced, update-refused now (failed_row env now s) s store.subscriptions own bad)
      refl

module _ (env : Env) (id notification : Uuid) (window : Name → Uuid) (now : Time) (store : Store)
    (s : Subscription) (found : get_by_id id store.subscriptions ≡ ok s) where
  -- The failure that ends dunning cannot be stored once the paid period is over. If dunning is on,
  -- at least four failures are counted, the period's end is set and not after the time that
  -- ResetCurrentPeriods reads, and that time is less than a second after the one that Cancel reads,
  -- which is not the zero time, then FailMembership fails at the database: the row that Cancel
  -- makes has ended before it was cancelled.
  pub fail_membership-last :
      (end_at : Time)
      → env.dunning_off ≡ false
      → 5 ≤ next_attempt s.retry_attempts
      → s.current_period_ends_at ≡ some end_at
      → (end_at == 0) ≡ false
      → end_at ≤ env.reset_time
      → 0 < env.cancel_time
      → env.reset_time < env.cancel_time + second
      → fail_membership env id notification window now store ≡ err refused_row
  unfolding failed_row cancel reset_current_periods meets_checks
  fail_membership-last end_at on last ends set over later soon =
      refused env id notification window now store s found (rw on (ground arith))
        (rw on (ground arith))

  -- With dunning off a failure cannot be stored at all: if the subscription was not cancelled
  -- before, the row that FailMembership makes is cancelled without a time, and the database refuses
  -- it.
  pub fail_membership-off :
      env.dunning_off ≡ true
      → s.cancelled_at ≡ none
      → fail_membership env id notification window now store ≡ err refused_row
  unfolding failed_row meets_checks
  fail_membership-off off before =
      refused env id notification window now store s found (rw off refl) (rw off (ground arith))
