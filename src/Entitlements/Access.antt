-- ===== src/Entitlements/Access.antt =====
-- internal/db/repo/entitlement.go and internal/modules/entitlements/entitlement_service.go: who
-- has access, and what takes access away.
use mathlib.Core.List.{map}
use openrails.Base.{
  is_some, ◌≤◌, ◌≡◌, refl, sym, subst, ◌∙◌, inl, inr, Bool, false, not, ◌&&◌, Option, none, some,
  List, [], ◌∷◌, leb, ◌==◌, if◌then◌else◌, ok, ◌>>=◌, arith, Bool-cases, >>=-eq-ok,
}
use openrails.Base.Sql.{update_where, exists_where, member, select_where, count_where}
use openrails.Rows.{exists-update, exists-update_update, exists-update_same}
use openrails.Entitlements.Model.{
  one_off, Time, UserId, Uuid, Name, Entitlement, EntitlementRevokeReason, Table, Db, exec, is_live,
  covers, subscription, grace,
}
use openrails.Entitlements.Timeline.{lock_entitlement_timeline, delete_row}
use openrails.Entitlements.Ends.{exec-ok}
use openrails.Entitlements.Service.{
  RevokeExistingEntitlementParams, is_active_now, is_future, mark_revoked, revoke_key,
  revoke_selected, revoke_existing_entitlement,
}
use openrails.Entitlements.Repo.{
  end_active_by_payment, is_endless_purchase, entitles, is_entitled, distinct,
  list_active_entitlements, from_origin, to_end, end_row, end_active_by_subscription,
}
use openrails.Entitlements.Grace.{soft_delete_grace_by_subscription}

pub member-distinct : (n : Name) (ns : List Name) → member ◌==◌ n (distinct ns) ≡ member ◌==◌ n ns
unfolding distinct member
member-distinct n [] = refl
member-distinct n (m ∷ ns) = elim (Bool-cases (member ◌==◌ m ns)) [
  | inl seen ↦ rw (member-distinct m ns, seen) (ground (arith, member-distinct n ns))
  | inr new ↦ rw (member-distinct m ns, new) (ground (arith, member-distinct n ns))
]

abbrev is_current : UserId → Time → Entitlement → Bool
is_current u at e = e.user_id == u && covers at e && is_live e

member-select :
    (u : UserId) (n : Name) (at : Time) (t : Table)
    → exists_where (entitles u n at) t
      ≡ member ◌==◌ n (map (λ (e : Entitlement). e.entitlement) (select_where (is_current u at) t))
unfolding exists_where select_where member
member-select u n at [] = refl
member-select u n at (e ∷ t) = elim (Bool-cases (is_current u at e)) [
  | inl current ↦ rw current (ground (arith, member-select u n at t))
  | inr other ↦ rw other (ground (arith, member-select u n at t))
]

-- IsEntitled and ListActiveEntitlements agree: a user is entitled to a name at a time exactly if
-- the list of the names that are active then has it.
pub is_entitled-list_active_entitlements :
    (u : UserId) (n : Name) (at : Time) (t : Table)
    → is_entitled u n at t ≡ member ◌==◌ n (list_active_entitlements u at t)
unfolding is_entitled list_active_entitlements
is_entitled-list_active_entitlements u n at t = member-select u n at t ∙ sym (member-distinct n _)

-- What two statements in a row produce.
two_execs :
    (db : Db) (u : Table) (k : Table → Table) {t' : Table}
    → (exec db u >>= λ v. exec db (k v)) ≡ ok t'
    → t' ≡ k u
two_execs db u k h = elim (Bool-cases (db.accepts u)) [
  | inl yes_row ↦ exec-ok db (k u) (rw yes_row at h)
  | inr no_row ↦ absurd (ground arith)
]

module _ (db : Db) (p : RevokeExistingEntitlementParams) (now : Time) (t : Table) where
  revoke_key-ok :
      (u : UserId) (n : Name) {t' : Table}
      → revoke_key db p u n now t ≡ ok t'
      → t'
        ≡ update_where
            (is_future p u n now)
            (delete_row now)
            (update_where (is_active_now p u n now) (mark_revoked p.reason now) t)
  unfolding revoke_key
  revoke_key-ok u n h =
      let (_, locked, rest) = >>=-eq-ok (lock_entitlement_timeline u n) _ h in
      two_execs db _ (update_where (is_future p u n now) (delete_row now)) rest

  revoked_row :
      (u : UserId) (n : Name) (at : Time)
      → now ≤ at
      → p.source_type ≡ none
      → p.source_id ≡ none
      → (e : Entitlement)
      → entitles u n at (
          let r = if is_active_now p u n now e then mark_revoked p.reason now e else e in
          if is_future p u n now r then delete_row now r else r)
        ≡ false
  revoked_row u n at le any_type any_id e = ground arith

  checked :
      {t' : Table}
      → revoke_existing_entitlement db p now t ≡ ok t'
      → revoke_selected p.entitlement_id db p now t ≡ ok t'
  unfolding revoke_existing_entitlement
  checked h = ground arith

  -- A successful RevokeExistingEntitlement by user and entitlement, without a source filter, ends
  -- access: IsEntitled answers no at the call's time and at every later time.
  pub revoke_existing_entitlement-is_entitled :
      (at : Time) {t' : Table}
      → p.entitlement_id ≡ none
      → p.source_type ≡ none
      → p.source_id ≡ none
      → now ≤ at
      → revoke_existing_entitlement db p now t ≡ ok t'
      → is_entitled p.user_id p.entitlement at t' ≡ false
  unfolding is_entitled
  revoke_existing_entitlement-is_entitled at {t'} by_key any_type any_id le h =
      let table =
        revoke_key-ok p.user_id p.entitlement {t' = t'}
          (selected p.entitlement_id {t' = t'} by_key (checked h)) in
      subst (λ v. exists_where (entitles p.user_id p.entitlement at) v ≡ false) (sym table)
        (exists-update_update (entitles p.user_id p.entitlement at)
          (is_active_now p p.user_id p.entitlement now) (is_future p p.user_id p.entitlement now)
          (mark_revoked p.reason now) (delete_row now) t
          (revoked_row p.user_id p.entitlement at le any_type any_id))
    where
      selected :
          (o : Option Uuid) {t' : Table}
          → o ≡ none
          → revoke_selected o db p now t ≡ ok t'
          → revoke_key db p p.user_id p.entitlement now t ≡ ok t'
      selected none e k = k
      selected (some id) e k = absurd (cc)

-- A successful EndActiveBySubscription found no window that would lose its length, and afterwards
-- no live window of the subscription covers a time at or after the end.
pub end_active_by_subscription-covers :
    (db : Db) (id : Uuid) (end_at now at : Time) (reason : Option EntitlementRevokeReason)
    (t : Table) {t' : Table}
    → end_at ≤ at
    → end_active_by_subscription db id end_at now reason t ≡ ok t'
    → (count_where (λ e. to_end id end_at e && leb end_at e.start_at) t ≡ 0)
      × (exists_where (λ e. from_origin subscription id e && is_live e && covers at e) t' ≡ false)
unfolding end_active_by_subscription
end_active_by_subscription-covers db id end_at now at reason t le h =
    elim (Bool-cases (count_where (λ e. to_end id end_at e && leb end_at e.start_at) t == 0)) [
      | inl fits ↦ (
        ground arith,
        rw (exec-ok db _ (rw fits at h)) (
            exists-update (λ e. from_origin subscription id e && is_live e && covers at e)
              (to_end id end_at) (end_row end_at now reason) t (ended reason)),
      )
      | inr short ↦ absurd (ground arith)
    ]
  where
    ended :
        (r : Option EntitlementRevokeReason) (e : Entitlement)
        → (let b = if to_end id end_at e then end_row end_at now r e else e in
            from_origin subscription id b && is_live b && covers at b)
          ≡ false
    ended none e = ground arith
    ended (some r) e = ground arith

-- SoftDeleteGraceBySubscription leaves no live grace window of the subscription, and the windows of
-- every other source give exactly the access that they gave.
pub soft_delete_grace-sweeps :
    (db : Db) (id : Uuid) (now : Time) (t : Table) {t' : Table}
    → soft_delete_grace_by_subscription db id now t ≡ ok t'
    → (exists_where (λ e. from_origin grace id e && is_live e) t' ≡ false)
      × ((u : UserId) (n : Name) (at : Time)
          → exists_where (λ e. entitles u n at e && not (from_origin grace id e)) t'
            ≡ exists_where (λ e. entitles u n at e && not (from_origin grace id e)) t)
unfolding soft_delete_grace_by_subscription
soft_delete_grace-sweeps db id now t h = rw (exec-ok db _ h) (
  exists-update (λ e. from_origin grace id e && is_live e)
      (λ e. from_origin grace id e && is_live e) (delete_row now) t (λ e. ground arith),
  λ u n at.
      exists-update_same (λ e. entitles u n at e && not (from_origin grace id e))
        (λ e. from_origin grace id e && is_live e) (delete_row now) t (λ e. ground arith),
)

-- A successful EndActiveByPayment takes no access away that windows with an end give: for every
-- user, name and time, the one-off windows of the payment that have an end give access afterwards
-- exactly if they gave it before.
pub end_active_by_payment-finite :
    (db : Db) (id : Uuid) (end_at now : Time) (reason : Option EntitlementRevokeReason) (t : Table)
    (u : UserId) (n : Name) (at : Time) {t' : Table}
    → end_active_by_payment db id end_at now reason t ≡ ok t'
    → exists_where (λ e. from_origin one_off id e && is_some e.end_at && entitles u n at e) t'
      ≡ exists_where (λ e. from_origin one_off id e && is_some e.end_at && entitles u n at e) t
unfolding end_active_by_payment
end_active_by_payment-finite db id end_at now reason t u n at h =
    elim (Bool-cases
      (count_where (λ e. is_endless_purchase id e && leb end_at e.start_at) t == 0)) [
        | inl fits ↦ rw (exec-ok db _ (rw fits at h)) (
            exists-update_same
              (λ e. from_origin one_off id e && is_some e.end_at && entitles u n at e)
              (is_endless_purchase id) _ t (λ e. ground arith))
        | inr short ↦ absurd (ground arith)
      ]
