-- ===== src/Subscriptions/Terminal.antt =====
-- internal/modules/subscriptions/lifecycle_service.go: attempts to bring a subscription back, by
-- renewal or reactivation, one after another; an attempt that fails changes nothing.
use openrails.Base.{
  ◌≡◌, refl, sym, subst, ap, ◌∙◌, inl, inr, ◌⊎◌, Bool, true, false, ◌&&◌, Option, none, some, List,
  [], ◌∷◌, arith, ◌==◌, Bool-cases, Result, ok, err, ◌>>=◌, refuse_if, >>=-then, ok-injective,
  or_error-ok, All, Pairwise,
}
use openrails.Base.Sql.{find_where}
use openrails.Rows.{find-test, find-All, find-Pairwise}
use openrails.Payments.Model.{Time, Uuid, Text, Payments}
use openrails.Subscriptions.Model.{Subscription}
use openrails.Subscriptions.Table.{Subscriptions, Error, has_id, missing_processor_id}
use openrails.Subscriptions.Repo.{get_by_id, get_by_processor_subscription_id, update}
use openrails.Subscriptions.Store.{
  Store, Env, Ids, get_price, get_product, or_unchanged, is_terminal,
  assert_active_transition_allowed,
}
use openrails.Subscriptions.Create.{names_or_premium}
use openrails.Subscriptions.Renew.{
  RenewMembershipParams, Plan, active_row, by_parsed_id, cycle_days, after_downgrade,
  effective_product, extend_each, find_renewed, future_end, mark_transaction, or_by_id,
  plan_renewal, ReactivateMembershipParams, reactivate_membership, renew_marked, renew_membership,
  renew_planned, renewal_payment, renewed_end,
}
use openrails.Subscriptions.Row.{next_start}
use openrails.Subscriptions.Sound.{IsSound, Together, flip, update-other}
use openrails.Subscriptions.Reach.{renewed, reactivated, Step-IsSound}

pub data Attempt : Type 0 where
  renewal : Env → RenewMembershipParams → Ids → Time → Attempt
  reactivation : Env → ReactivateMembershipParams → Ids → Time → Attempt

abbrev second_of {ℓ κ} : {A : Type ℓ} {B : Type κ} → A × B → B
second_of (a, b) = b

-- The store after an attempt.
unfoldable pub attempt : Attempt → Store → Store
attempt (renewal env p ids now) store = or_unchanged store (renew_membership env p ids now store)
attempt (reactivation env p ids now) store =
    or_unchanged store (reactivate_membership env p ids now store >>= λ r. ok (second_of r))

unfoldable pub attempt_all : List Attempt → Store → Store
unfolding attempt
attempt_all [] store = store
attempt_all (a ∷ attempts) store = attempt_all attempts (attempt a store)

-- No manual override.
abbrev pub WithoutOverride : Attempt → Type 0
WithoutOverride (renewal env p ids now) = p.allow_terminal_reactivation ≡ false
WithoutOverride (reactivation env p ids now) = p.allow_terminal_reactivation ≡ false

-- A lookup that gave a row.
pub record Found (t : Subscriptions) (s : Subscription) : Type 0 where
  pub test : Subscription → Bool
  pub found : find_where test t ≡ some s

pub by_id-Found :
    (id : Uuid) (t : Subscriptions) {s : Subscription} → get_by_id id t ≡ ok s → Found t s
unfolding get_by_id
by_id-Found id t {s} h = record { test = has_id id; found = or_error-ok _ _ h }

pub by_processor-Found :
    (processor id : Text) (t : Subscriptions) {s : Subscription}
    → get_by_processor_subscription_id processor id t ≡ ok s
    → Found t s
unfolding get_by_processor_subscription_id
by_processor-Found processor id t {s} h = record {
  test = λ x. x.processor == processor && x.processor_subscription_id == id;
  found = or_error-ok _ _ h;
}

or_by_id-Found :
    (env : Env) (processor id : Text) (t : Subscriptions) (first : Result Error Subscription)
    {s : Subscription}
    → ((x : Subscription) → first ≡ ok x → Found t x)
    → or_by_id env processor id t first ≡ ok s
    → Found t s
or_by_id-Found env processor id t (ok x) {s} first_found h =
    subst (Found t) (ok-injective h) (first_found x refl)
or_by_id-Found env processor id t (err e) {s} first_found h = parsed (env.parse_uuid id) h
  where
    parsed : (o : Option Uuid) → by_parsed_id processor o e t ≡ ok s → Found t s
    parsed none k = absurd (cc)
    parsed (some uuid) k = >>=-then (get_by_id uuid t) _ k λ x found pending_ok.
        subst (Found t) (ground (arith, pending_ok)) (by_id-Found uuid t {s = x} found)

find_renewed-Found :
    (env : Env) (p : RenewMembershipParams) (t : Subscriptions) {s : Subscription}
    → find_renewed env p t ≡ ok s
    → Found t s
unfolding find_renewed
find_renewed-Found env p t {s} h =
    or_by_id-Found env p.processor p.processor_subscription_id t _
      (λ x k. by_processor-Found p.processor p.processor_subscription_id t {s = x} k) h

plan_renewal-id :
    (env : Env) (s : Subscription) (scheduled : Option Uuid) {plan : Plan}
    → plan_renewal env s scheduled ≡ ok plan
    → plan.renewed.id ≡ s.id
unfolding plan_renewal
plan_renewal-id env s none h =
    >>=-then (get_price env s.price_id) _ h
      λ price _ e. sym (ap (λ (x : Plan). x.renewed.id) (ok-injective e))
plan_renewal-id env s (some scheduled) h = >>=-then (get_price env s.price_id) _ h λ old_price _ h₁.
    >>=-then (get_product env old_price.product_id) _ h₁ λ old_product _ h₂.
      >>=-then (get_price env scheduled) _ h₂ λ price _ h₃.
        >>=-then (get_product env price.product_id) _ h₃
          λ new_product _ e. sym (ap (λ (x : Plan). x.renewed.id) (ok-injective e))

module _ (x : Uuid) (row : Subscription) (t : Subscriptions) (apart : Pairwise Together t)
    (here : find_where (has_id x) t ≡ some row) (terminal : is_terminal row ≡ true) where
  -- A row that may be brought back is another row.
  other_row :
      (s : Subscription)
      → Found t s
      → assert_active_transition_allowed false s ≡ ok tt
      → (x == s.id) ≡ false
  unfolding assert_active_transition_allowed
  other_row s found_s allowed = elim (Bool-cases (x == s.id)) [
    | inr differs ↦ differs
    | inl same ↦
        let side =
          find-All (λ r. (r ≡ s) ⊎ Together s r) (has_id x) t
            (find-Pairwise Together flip found_s.test t apart found_s.found) here in
        elim side [
          | inl is ↦ absurd (ground (arith, subst (λ r. is_terminal r ≡ true) is terminal, allowed))
          | inr beside ↦ absurd (ground (arith, beside.0, find-test (has_id x) t here, same))
        ]
  ]

  -- So it stays as it is.
  stays :
      (now : Time) (s found_row : Subscription) {t' : Subscriptions}
      → Found t found_row
      → assert_active_transition_allowed false found_row ≡ ok tt
      → s.id ≡ found_row.id
      → update now s t ≡ ok t'
      → find_where (has_id x) t' ≡ some row
  stays now s found_row {t'} found_s allowed same up =
      update-other now s t x {t' = t'}
        (subst (λ k. (x == k) ≡ false) (sym same) (other_row found_row found_s allowed)) up
      ∙ here

  planned-stays :
      (env : Env) (p : RenewMembershipParams) (plan : Plan) (ids : Ids) (now : Time)
      (found_row : Subscription) (store store' : Store) (marked : Bool × Payments)
      → store.subscriptions ≡ t
      → Found t found_row
      → assert_active_transition_allowed false found_row ≡ ok tt
      → plan.renewed.id ≡ found_row.id
      → renew_marked env p plan ids now marked store ≡ ok store'
      → find_where (has_id x) store'.subscriptions ≡ some row
  unfolding renew_planned
  planned-stays env p plan ids now found_row store store' (false, payments) of_t found_s allowed
        same h =
      subst (λ u. find_where (has_id x) u ≡ some row)
        (sym of_t ∙ ap (λ (y : Store). y.subscriptions) (ok-injective h)) here
  planned-stays env p plan ids now found_row store store' (true, payments) of_t found_s allowed same
        h =
      let start = next_start plan.renewed.current_period_ends_at now in
      >>=-then (cycle_days plan.price) _ h λ days _ h₁.
        let end_at = renewed_end p.current_period_ends_at start days in
        let s = active_row start end_at plan.renewed in
        >>=-then (update now s store.subscriptions) _ h₁ λ u up h₂.
          >>=-then (effective_product env plan.price plan.downgrade) _ h₂ λ product _ h₃.
            >>=-then
              (extend_each env.db s ids.window start end_at now product.entitlements
                store.entitlements)
              _ h₃
              λ windows _ h₄.
                >>=-then (after_downgrade env.db s now plan.downgrade windows) _ h₄ λ _ _ e.
                  subst (λ v. find_where (has_id x) v ≡ some row)
                    (ap (λ (y : Store). y.subscriptions) (ok-injective e))
                    (stays now s found_row {t' = u} found_s allowed same
                      (subst (λ v. update now s v ≡ ok u) of_t up))

module _ (x : Uuid) (row : Subscription) (store : Store) (v : IsSound store.subscriptions)
    (here : find_where (has_id x) store.subscriptions ≡ some row)
    (terminal : is_terminal row ≡ true) where
  renewal-stays :
      (env : Env) (p : RenewMembershipParams) (ids : Ids) (now : Time) (store' : Store)
      → p.allow_terminal_reactivation ≡ false
      → renew_membership env p ids now store ≡ ok store'
      → find_where (has_id x) store'.subscriptions ≡ some row
  unfolding renew_membership
  renewal-stays env p ids now store' no_override h =
      >>=-then (find_renewed env p store.subscriptions) _ h λ found_row found_ok h₁.
        >>=-then (assert_active_transition_allowed p.allow_terminal_reactivation found_row) _ h₁
          λ _ allowed h₂.
            >>=-then (plan_renewal env found_row found_row.scheduled_price_id) _ h₂
              λ plan planned h₃.
                planned-stays x row store.subscriptions v.1 here terminal env p plan ids now
                  found_row store store'
                  (mark_transaction p (renewal_payment p plan.price plan.renewed ids.payment now)
                    store.payments)
                  refl (find_renewed-Found env p store.subscriptions {s = found_row} found_ok)
                  (subst (λ b. assert_active_transition_allowed b found_row ≡ ok tt) no_override
                    allowed)
                  (plan_renewal-id env found_row found_row.scheduled_price_id {plan = plan} planned)
                  h₃

  reactivation-stays :
      (env : Env) (p : ReactivateMembershipParams) (ids : Ids) (now : Time)
      (result : Subscription × Store)
      → p.allow_terminal_reactivation ≡ false
      → reactivate_membership env p ids now store ≡ ok result
      → find_where (has_id x) (second_of result).subscriptions ≡ some row
  unfolding reactivate_membership
  reactivation-stays env p ids now (s', store') no_override h =
      >>=-then (refuse_if (p.processor_subscription_id == 0) missing_processor_id) _ h λ _ _ h₁.
        >>=-then (future_end p.current_period_ends_at now) _ h₁ λ end_at _ h₂.
          >>=-then
            (get_by_processor_subscription_id p.processor p.processor_subscription_id
              store.subscriptions)
            _ h₂
            λ found_row found_ok h₃.
              >>=-then (assert_active_transition_allowed p.allow_terminal_reactivation found_row) _
                h₃
                λ _ allowed h₄. >>=-then (get_price env found_row.price_id) _ h₄ λ price _ h₅.
                  >>=-then (get_product env price.product_id) _ h₅ λ product _ h₆.
                    >>=-then (update now (active_row now end_at found_row) store.subscriptions) _ h₆
                      λ u up h₇.
                        >>=-then
                          (extend_each env.db (active_row now end_at found_row) ids.window now
                            end_at now (names_or_premium product.entitlements) store.entitlements)
                          _ h₇
                          λ windows _ e.
                            subst (λ w. find_where (has_id x) w ≡ some row)
                              (ap (λ (y : Subscription × Store). y.1.subscriptions)
                                (ok-injective e))
                              (stays x row store.subscriptions v.1 here terminal now
                                (active_row now end_at found_row) found_row {t' = u}
                                (by_processor-Found p.processor p.processor_subscription_id
                                  store.subscriptions {s = found_row} found_ok)
                                (subst (λ b. assert_active_transition_allowed b found_row ≡ ok tt)
                                  no_override allowed)
                                refl up)

  -- After one attempt the table is sound, and the row is where it was.
  attempt-stays :
      (a : Attempt)
      → WithoutOverride a
      → IsSound (attempt a store).subscriptions
        × (find_where (has_id x) (attempt a store).subscriptions ≡ some row)
  unfolding attempt
  attempt-stays (renewal env p ids now) no_override =
      after (renew_membership env p ids now store) refl
    where
      after :
          (r : Result Error Store)
          → renew_membership env p ids now store ≡ r
          → IsSound (or_unchanged store r).subscriptions
            × (find_where (has_id x) (or_unchanged store r).subscriptions ≡ some row)
      after (err e) h = (v, here)
      after (ok store') h = (
        Step-IsSound store store' (renewed env p ids now h) v,
        renewal-stays env p ids now store' no_override h,
      )
  attempt-stays (reactivation env p ids now) no_override =
      after (reactivate_membership env p ids now store) refl
    where
      after :
          (r : Result Error (Subscription × Store))
          → reactivate_membership env p ids now store ≡ r
          → let store' = or_unchanged store (r >>= λ q. ok (second_of q)) in
            IsSound store'.subscriptions × (find_where (has_id x) store'.subscriptions ≡ some row)
      after (err e) h = (v, here)
      after (ok (s, store')) h = (
        Step-IsSound store store' (reactivated env p ids now s h) v,
        reactivation-stays env p ids now (s, store') no_override h,
      )

-- A subscription that ended with a chargeback is not brought back. In a sound table, whatever
-- renewals and reactivations are attempted without the manual override, at any times and with any
-- settings, the row of a cancelled subscription whose cancel type or feedback says chargeback is
-- afterwards exactly what it was.
pub attempt_all-is_terminal :
    (attempts : List Attempt) (x : Uuid) (row : Subscription) (store : Store)
    → IsSound store.subscriptions
    → find_where (has_id x) store.subscriptions ≡ some row
    → is_terminal row ≡ true
    → All WithoutOverride attempts
    → find_where (has_id x) (attempt_all attempts store).subscriptions ≡ some row
unfolding attempt_all
attempt_all-is_terminal [] x row store v here terminal no_override = here
attempt_all-is_terminal (a ∷ attempts) x row store v here terminal no_override =
    let (v', here') = attempt-stays x row store v here terminal a no_override.0 in
    attempt_all-is_terminal attempts x row (attempt a store) v' here' terminal no_override.1
