-- ===== src/Subscriptions/Reach.antt =====
-- The runs of the subscription lifecycle: internal/modules/subscriptions/lifecycle_service.go and
-- internal/modules/subscriptions/subscription.go, one call after another.
use openrails.Base.{◌≡◌, subst, sym, false, [], ok}
use openrails.Base.Sql.{exists_where}
use openrails.Payments.Model.{Time, Uuid, Text}
use openrails.Entitlements.Model.{Name}
use openrails.Subscriptions.Model.{Bytes, Subscription}
use openrails.Subscriptions.Table.{Subscriptions, has_id}
use openrails.Subscriptions.Store.{Store, Env, Ids}
use openrails.Subscriptions.Create.{CreateMembershipParams, create_membership}
use openrails.Subscriptions.Renew.{
  RenewMembershipParams, renew_membership, ReactivateMembershipParams, reactivate_membership,
}
use openrails.Subscriptions.End.{
  CancelMembershipParams, cancel_membership, expire_membership, fail_membership,
  cancel_user_subscription,
}
use openrails.Subscriptions.Sound.{IsSound, update-IsSound, create-IsSound}
use openrails.Subscriptions.Writes.{
  Write, nothing, changed, Growth, wrote, added, create_membership-Growth, renew_membership-Write,
  reactivate_membership-Write, cancel_membership-Write, expire_membership-Write,
  fail_membership-Write, cancel_user_subscription-Write,
}

-- One call that succeeds. What other code does to the payments, the notifications and the
-- entitlements between two calls is a step too.
pub data Step : Store → Store → Type 0 where
  created :
      (env : Env) (p : CreateMembershipParams) (ids : Ids) (now : Time) (s : Subscription)
      {store store' : Store}
      → exists_where (has_id ids.subscription) store.subscriptions ≡ false
      → create_membership env p ids now store ≡ ok (s, store')
      → Step store store'
  renewed :
      (env : Env) (p : RenewMembershipParams) (ids : Ids) (now : Time) {store store' : Store}
      → renew_membership env p ids now store ≡ ok store'
      → Step store store'
  reactivated :
      (env : Env) (p : ReactivateMembershipParams) (ids : Ids) (now : Time) (s : Subscription)
      {store store' : Store}
      → reactivate_membership env p ids now store ≡ ok (s, store')
      → Step store store'
  cancelled :
      (env : Env) (p : CancelMembershipParams) (id : Uuid) (now : Time) {store store' : Store}
      → cancel_membership env p id now store ≡ ok store'
      → Step store store'
  expired :
      (env : Env) (sub id : Uuid) (now : Time) {store store' : Store}
      → expire_membership env sub id now store ≡ ok store'
      → Step store store'
  failed :
      (env : Env) (sub id : Uuid) (window : Name → Uuid) (now : Time) {store store' : Store}
      → fail_membership env sub id window now store ≡ ok store'
      → Step store store'
  cancelled_by_user :
      (user : Text) (feedback : Bytes) (id : Uuid) (now : Time) {store store' : Store}
      → cancel_user_subscription user feedback id now store ≡ ok store'
      → Step store store'
  elsewhere :
      {store store' : Store} → store'.subscriptions ≡ store.subscriptions → Step store store'

pub data Reachable : Store → Type 0 where
  start : {store : Store} → store.subscriptions ≡ [] → Reachable store
  next : {store store' : Store} → Reachable store → Step store store' → Reachable store'

Write-IsSound : (now : Time) (t t' : Subscriptions) → Write now t t' → IsSound t → IsSound t'
Write-IsSound now t t' (nothing e) v = subst IsSound (sym e) v
Write-IsSound now t t' (changed s clean up) v = update-IsSound now s t v clean up

Growth-IsSound :
    (now : Time) (id : Uuid) (t t' : Subscriptions)
    → exists_where (has_id id) t ≡ false
    → Growth now id t t'
    → IsSound t
    → IsSound t'
Growth-IsSound now id t t' fresh (wrote w) v = Write-IsSound now t t' w v
Growth-IsSound now id t t' fresh (added s same clean made) v =
    create-IsSound s t v clean (subst (λ k. exists_where (has_id k) t ≡ false) (sym same) fresh)
      made

pub Step-IsSound :
    (store store' : Store)
    → Step store store'
    → IsSound store.subscriptions
    → IsSound store'.subscriptions
Step-IsSound store store' (created env p ids now s fresh h) =
    Growth-IsSound now ids.subscription _ _ fresh
      (create_membership-Growth env now store p ids {s = s} {store' = store'} h)
Step-IsSound store store' (renewed env p ids now h) =
    Write-IsSound now _ _ (renew_membership-Write env now store p ids {store' = store'} h)
Step-IsSound store store' (reactivated env p ids now s h) =
    Write-IsSound now _ _
      (reactivate_membership-Write env now store p ids {s = s} {store' = store'} h)
Step-IsSound store store' (cancelled env p id now h) =
    Write-IsSound now _ _ (cancel_membership-Write env now store p id {store' = store'} h)
Step-IsSound store store' (expired env sub id now h) =
    Write-IsSound now _ _ (expire_membership-Write env now store sub id {store' = store'} h)
Step-IsSound store store' (failed env sub id window now h) =
    Write-IsSound now _ _ (fail_membership-Write env now store sub id window {store' = store'} h)
Step-IsSound store store' (cancelled_by_user user feedback id now h) =
    Write-IsSound now _ _
      (cancel_user_subscription-Write now store user feedback id {store' = store'} h)
Step-IsSound store store' (elsewhere e) = subst IsSound (sym e)

-- However the calls of the subscription lifecycle follow each other from an empty table, the table
-- of subscriptions is sound: identifiers differ, every row meets the checks of the database, an
-- active row has a period and no trace of a cancellation, a user has at most one active
-- subscription, and at most one that is active or pending for each product. A subscription that a
-- step creates has a fresh identifier.
pub Reachable-IsSound : (store : Store) → Reachable store → IsSound store.subscriptions
Reachable-IsSound store (start e) = subst IsSound (sym e) (tt, tt)
Reachable-IsSound store (next {store = before} r step) =
    Step-IsSound before store step (Reachable-IsSound before r)
