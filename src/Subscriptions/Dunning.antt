-- ===== src/Subscriptions/Dunning.antt =====
-- internal/modules/subscriptions/lifecycle_service.go: a failure of `FailMembership` that is stored.
use openrails.Base.{
  ℕ, suc, ◌+◌, ◌*◌, ◌<◌, ◌≡◌, refl, sym, subst, ap, ◌∙◌, true, false, Option, none, some, arith,
  ◌==◌, if◌then◌else◌, ok, or_error-ok,
}
use openrails.Base.Sql.{find_where, update_where}
use openrails.Rows.{find-All, find-test, find-update}
use openrails.Payments.Model.{Time, Uuid}
use openrails.Entitlements.Model.{Name, Table, second}
use openrails.Subscriptions.Model.{Subscription, past_due, cancelled, expired}
use openrails.Subscriptions.Row.{cancel, reset_current_periods}
use openrails.Subscriptions.Table.{
  Subscriptions, no_rows, has_id, is_current, meets_checks, write_columns,
}
use openrails.Subscriptions.Repo.{get_by_id, update}
use openrails.Subscriptions.Store.{Store, Env}
use openrails.Subscriptions.End.{failed_row, fail_membership}
use openrails.Subscriptions.Sound.{IsSound, IsGoodRow}
use openrails.Subscriptions.Accepted.{append_grace-ok, failed_windows-ok}
use openrails.Subscriptions.Ending.{update-succeeds, finished}
use openrails.Subscriptions.Refused.{failed_id}

abbrev pub attempts_of : Option ℕ → ℕ
attempts_of none = 0
attempts_of (some n) = n

-- What the `n`-th failure makes of a subscription.
pub record Due (n : ℕ) (at : Time) (s : Subscription) : Type 0 where
  pub counted : s.retry_attempts ≡ some n
  pub ended : n ≡ 5 → (s.status ≡ cancelled) × (s.cancel_type ≡ some expired)
  pub waiting : n < 5 → (s.status ≡ past_due) × (s.next_retry_at ≡ some (at + 72 * (3600 * second)))

-- The failure that cancels comes within the paid period, to a subscription that has not ended.
abbrev pub EndsInPeriod : Env → Time → Subscription → Type 0
EndsInPeriod env end_at s =
    suc (attempts_of s.retry_attempts) ≡ 5 → (env.reset_time < end_at) × (s.ended_at ≡ none)

module _ (env : Env) (now end_at : Time) (s : Subscription) (on : env.dunning_off ≡ false)
    (ends : s.current_period_ends_at ≡ some end_at) (set : (end_at == 0) ≡ false)
    (few : attempts_of s.retry_attempts < 5) (last : EndsInPeriod env end_at s) where
  -- The row, whatever the columns that the update keeps.
  failed_row-Due :
      (old : Subscription)
      → Due
          (suc (attempts_of s.retry_attempts))
          now
          (write_columns (record (failed_row env now s) { updated_at = now }) old)
  unfolding failed_row cancel reset_current_periods
  failed_row-Due old = record {
    counted = ground (arith, last);
    ended = λ e. ground (arith, last e);
    waiting = λ w. ground arith;
  }

  failed_row-checks : meets_checks s ≡ true → meets_checks (failed_row env now s) ≡ true
  unfolding failed_row cancel reset_current_periods meets_checks
  failed_row-checks good = ground (arith, last)

  failed_row-ended : is_current (failed_row env now s) ≡ false
  unfolding failed_row cancel reset_current_periods
  failed_row-ended = ground (arith, last)

-- The row that an update writes is found under its identifier.
get_updated :
    (id : Uuid) (row : Subscription) (t : Subscriptions) {old : Subscription}
    → find_where (has_id id) t ≡ some old
    → row.id ≡ id
    → get_by_id id (update_where (has_id row.id) (λ _. row) t) ≡ ok row
unfolding get_by_id
get_updated id row t {old} found same =
    let keep : (a : Subscription) → has_id id (if has_id row.id a then row else a) ≡ has_id id a =
      λ a. ground arith in
    let own : has_id id old ≡ true = find-test (has_id id) t found in
    let there : find_where (has_id id) (update_where (has_id row.id) (λ _. row) t) ≡ some row =
      find-update (has_id id) (has_id row.id) (λ _. row) t keep ∙ rw found (ground arith) in
    rw there refl

-- A failure whose update the database takes is stored.
failure_stored :
    (env : Env) (id notification : Uuid) (window : Name → Uuid) (now : Time) (store : Store)
    (s : Subscription) {t : Subscriptions}
    → ((u : Table) → env.db.accepts u ≡ true)
    → get_by_id id store.subscriptions ≡ ok s
    → update now (failed_row env now s) store.subscriptions ≡ ok t
    → (store' : Store) × (fail_membership env id notification window now store ≡ ok store')
      × (store'.subscriptions ≡ t)
unfolding fail_membership
failure_stored env id notification window now store s {t} accepts found up =
    let row = failed_row env now s in
    let (graced, e₁) = append_grace-ok env row now accepts window store.entitlements in
    let (gone, e₂) = failed_windows-ok env row now accepts graced in
    finished (fail_membership env id notification window now store) t (rw (found, e₁, up, e₂) refl)

-- FailMembership counts the failures and ends dunning at the fifth. If dunning is on, the database
-- accepts every table of entitlements, the table of subscriptions is sound, the subscription is
-- there with its period's end set and fewer than five failures counted, and, should this failure be
-- the fifth, the period's end is still ahead of the time that ResetCurrentPeriods reads and no end
-- is stored, then the call succeeds, and the stored row has one failure more: below five it is past
-- due, with its next retry 72 hours after the call, and with five it is cancelled as expired.
pub fail_membership-Due :
    (env : Env) (id notification : Uuid) (window : Name → Uuid) (now end_at : Time) (store : Store)
    (s : Subscription)
    → ((u : Table) → env.db.accepts u ≡ true)
    → IsSound store.subscriptions
    → get_by_id id store.subscriptions ≡ ok s
    → env.dunning_off ≡ false
    → s.current_period_ends_at ≡ some end_at
    → (end_at == 0) ≡ false
    → attempts_of s.retry_attempts < 5
    → (suc (attempts_of s.retry_attempts) ≡ 5 → (env.reset_time < end_at) × (s.ended_at ≡ none))
    → (store' : Store) × (fail_membership env id notification window now store ≡ ok store')
      × ((row : Subscription) × (get_by_id id store'.subscriptions ≡ ok row)
          × Due (suc (attempts_of s.retry_attempts)) now row)
unfolding get_by_id
fail_membership-Due env id notification window now end_at store s accepts sound found on ends set
      few last =
    let here = or_error-ok (find_where (has_id id) store.subscriptions) no_rows {a = s} found in
    let same : s.id ≡ id = ground (arith, find-test (has_id id) store.subscriptions here) in
    let row = failed_row env now s in
    let row_id : row.id ≡ id = failed_id env now s ∙ same in
    let good = (find-All IsGoodRow (has_id id) store.subscriptions sound.0 here).0 in
    let up =
      update-succeeds now row store.subscriptions {old = s}
        (subst (λ k. find_where (has_id k) store.subscriptions ≡ some s) (sym row_id) here)
        (failed_row-checks env now end_at s on ends set few last good)
        (failed_row-ended env now end_at s on ends set few last) in
    let written = write_columns (record row { updated_at = now }) s in
    let (store', done, table) =
      failure_stored env id notification window now store s accepts found up in
    (
      store',
      done,
      (
        written,
        ap (get_by_id id) table ∙ get_updated id written store.subscriptions {old = s} here row_id,
        failed_row-Due env now end_at s on ends set few last s,
      ),
    )
