-- ===== src/Subscriptions/Ending.antt =====
-- internal/modules/subscriptions/lifecycle_service.go: `CancelMembership` and `ExpireMembership` on
-- a subscription that is there.
use openrails.Base.{
  ◌<◌, ◌≡◌, refl, sym, subst, ap, ◌∙◌, Bool, true, false, not, ◌&&◌, Option, none, some, arith, inl,
  inr, Result, ok, err, ◌>>=◌, ok-injective, Bool-cases,
}
use openrails.Base.Sql.{find_where, exists_where, update_where}
use openrails.Rows.{find-weaker, exists-never, find-All}
use openrails.Payments.Model.{Time, Uuid, Text}
use openrails.Entitlements.Model.{Table, subscription}
use openrails.Subscriptions.Model.{Subscription}
use openrails.Subscriptions.Table.{
  Subscriptions, Error, has_id, is_current, meets_checks, replace_row, update_subscription,
  write_columns, collides,
}
use openrails.Subscriptions.Repo.{get_by_id, update}
use openrails.Subscriptions.Store.{Store, Env}
use openrails.Subscriptions.End.{
  CancelMembershipParams, cancelled_row, cancel_membership, expire_membership, expired_row,
  find_cancelled, cut_periods, cancelled_windows, is_over, revoke_reason,
}
use openrails.Subscriptions.Accepted.{revoked_source, revoke_source-ok, revoke_all-ok}
use openrails.Subscriptions.Sound.{IsSound, IsGoodRow}
use openrails.Subscriptions.Terminal.{Found, by_id-Found, by_processor-Found}

-- A row that is not current collides with none.
pub update-succeeds :
    (now : Time) (s : Subscription) (t : Subscriptions) {old : Subscription}
    → find_where (has_id s.id) t ≡ some old
    → meets_checks s ≡ true
    → is_current s ≡ false
    → update now s t
      ≡ ok (update_where (has_id s.id) (λ _. write_columns (record s { updated_at = now }) old) t)
unfolding update update_subscription replace_row meets_checks
update-succeeds now s t {old} found good ended =
    let row = write_columns (record s { updated_at = now }) old in
    let free : exists_where (λ b. not (has_id s.id b) && collides row b) t ≡ false =
      exists-never (λ b. not (has_id s.id b) && collides row b) t (λ b. ground (arith, ended)) in
    rw (found, good, free) refl

cancelled_row-checks :
    (p : CancelMembershipParams) (now : Time) (s : Subscription)
    → 0 < now
    → meets_checks s ≡ true
    → meets_checks (cancelled_row p now s) ≡ true
unfolding cancelled_row meets_checks
cancelled_row-checks p now s later good = ground arith

expired_row-checks :
    (now : Time) (s : Subscription)
    → meets_checks s ≡ true
    → meets_checks (expired_row now s) ≡ true
unfolding meets_checks
expired_row-checks now s good = ground arith

find_cancelled-Found :
    (id : Option Uuid) (processor processor_id : Option Text) (t : Subscriptions) {s : Subscription}
    → find_cancelled id processor processor_id t ≡ ok s
    → Found t s
find_cancelled-Found (some id) processor processor_id t {s} h = by_id-Found id t {s = s} h
find_cancelled-Found none (some processor) (some id) t {s} h =
    by_processor-Found processor id t {s = s} h
find_cancelled-Found none (some processor) none t h = absurd (cc)
find_cancelled-Found none none processor_id t h = absurd (cc)

pub good_row :
    (t : Subscriptions) (s : Subscription) → IsSound t → Found t s → meets_checks s ≡ true
good_row t s v f = (find-All IsGoodRow f.test t v.0 f.found).0

own_row :
    (t : Subscriptions) (s : Subscription)
    → Found t s
    → (old : Subscription) × (find_where (has_id s.id) t ≡ some old)
own_row t s f = find-weaker f.test (has_id s.id) {x = s} t (ground arith) f.found

-- An operation whose table of subscriptions is known has succeeded.
pub finished :
    (operation : Result Error Store) (t : Subscriptions)
    → (operation >>= λ y. ok y.subscriptions) ≡ ok t
    → (store' : Store) × (operation ≡ ok store') × (store'.subscriptions ≡ t)
finished (ok store') t h = (store', refl, ok-injective h)
finished (err e) t h = absurd (cc)

same_id : (b : Bool) (now : Time) (s : Subscription) → (cut_periods b now s).id ≡ s.id
same_id true now s = refl
same_id false now s = refl

module _ (env : Env) (notification : Uuid) (now : Time) (store : Store) (s : Subscription) where
  -- What the update makes of the table.
  abbrev pub WritesRow : Subscription → Result Error Store → Type 0
  WritesRow row operation =
      (store' : Store) × (operation ≡ ok store')
      × (update now row store.subscriptions ≡ ok store'.subscriptions)

  windows_cut :
      (p : CancelMembershipParams) (row : Subscription) (t : Table)
      → ((u : Table) → env.db.accepts u ≡ true)
      → (t' : Table) × (cancelled_windows env p row now t ≡ ok t')
  windows_cut p row t accepts =
      elim (Bool-cases (is_over p.revoke_access row.current_period_ends_at now)) [
        | inl over ↦ (
          revoked_source env.db accepts row subscription (revoke_reason p.cancel_type) now t,
          rw over (
              revoke_source-ok env.db accepts row subscription (revoke_reason p.cancel_type) now t),
        )
        | inr runs ↦ (t, rw runs refl)
      ]

  cancel_updated :
      (p : CancelMembershipParams) {t : Subscriptions}
      → find_cancelled p.subscription_id p.processor p.processor_subscription_id store.subscriptions
        ≡ ok s
      → ((u : Table) → env.db.accepts u ≡ true)
      → update now (cancelled_row p now s) store.subscriptions ≡ ok t
      → WritesRow (cancelled_row p now s) (cancel_membership env p notification now store)
  unfolding cancel_membership
  cancel_updated p {t} found accepts up =
      let (t', cut) = windows_cut p (cancelled_row p now s) store.entitlements accepts in
      let (store', done, same) =
        finished (cancel_membership env p notification now store) t (rw (found, up, cut) refl) in
      (store', done, up ∙ ap ok (sym same))

  expire_updated :
      (id : Uuid) {t : Subscriptions}
      → get_by_id id store.subscriptions ≡ ok s
      → ((u : Table) → env.db.accepts u ≡ true)
      → update now (expired_row now s) store.subscriptions ≡ ok t
      → WritesRow (expired_row now s) (expire_membership env id notification now store)
  unfolding expire_membership
  expire_updated id {t} found accepts up =
      let gone = revoke_all-ok env.db accepts (expired_row now s) now store.entitlements in
      let (store', done, same) =
        finished (expire_membership env id notification now store) t (rw (found, up, gone) refl) in
      (store', done, up ∙ ap ok (sym same))

  module _ (v : IsSound store.subscriptions) where
    -- CancelMembership ends every subscription that it finds. If the database accepts every table
    -- of entitlements and the table of subscriptions is sound, then at any time after the zero time
    -- a CancelMembership whose lookup finds a subscription, in whatever status, succeeds, and the
    -- table that it leaves is the update by the cancelled row.
    pub cancel_membership-succeeds :
        (p : CancelMembershipParams)
        → ((u : Table) → env.db.accepts u ≡ true)
        → 0 < now
        → find_cancelled p.subscription_id p.processor p.processor_subscription_id
            store.subscriptions
          ≡ ok s
        → WritesRow (cancelled_row p now s) (cancel_membership env p notification now store)
    unfolding cancelled_row
    cancel_membership-succeeds p accepts later found =
        let f =
          find_cancelled-Found p.subscription_id p.processor p.processor_subscription_id
            store.subscriptions {s = s} found in
        let (old, here) = own_row store.subscriptions s f in
        cancel_updated p found accepts (
          update-succeeds now (cancelled_row p now s) store.subscriptions {old = old}
            (subst (λ k. find_where (has_id k) store.subscriptions ≡ some old)
              (sym (same_id p.revoke_access now s)) here)
            (cancelled_row-checks p now s later (good_row store.subscriptions s v f)) refl)

    -- So does ExpireMembership: if the database accepts every table of entitlements and the table
    -- of subscriptions is sound, it succeeds for a subscription that is there, and the table that
    -- it leaves is the update by the expired row.
    pub expire_membership-succeeds :
        (id : Uuid)
        → ((u : Table) → env.db.accepts u ≡ true)
        → get_by_id id store.subscriptions ≡ ok s
        → WritesRow (expired_row now s) (expire_membership env id notification now store)
    expire_membership-succeeds id accepts found =
        let f = by_id-Found id store.subscriptions {s = s} found in
        let (old, here) = own_row store.subscriptions s f in
        expire_updated id found accepts (
          update-succeeds now (expired_row now s) store.subscriptions {old = old} here
            (expired_row-checks now s (good_row store.subscriptions s v f)) refl)
