-- ===== src/Subscriptions/Revoked.antt =====
-- internal/modules/subscriptions/lifecycle_service.go: the loops that revoke the windows of a
-- subscription, and `ExpireMembership`.
use mathlib.Core.List.{map}
use openrails.Base.{
  ◌≤◌, ◌≡◌, sym, subst, ap, ◌∙◌, inl, inr, ◌⊎◌, Bool, true, false, ◌&&◌, List, [], ◌∷◌, arith, ◌==◌,
  if◌then◌else◌, Bool-cases, ok, >>=-then, ok-injective, All, All-imp, All-imp₂, All-map,
}
use openrails.Base.Sql.{select_where, member}
use openrails.Rows.{update-update}
use openrails.Payments.Model.{Time, Uuid}
use openrails.Entitlements.Model.{
  Entitlement, EntitlementRevokeReason, EntitlementSourceType, Name, Table, Db, subscription, grace,
  dunning_failed, is_live, covers,
}
use openrails.Entitlements.Timeline.{delete_row, lock_entitlement_timeline}
use openrails.Entitlements.Service.{
  is_active_now, is_future, mark_revoked, revoke_existing_entitlement, revoke_key,
}
use openrails.Entitlements.Repo.{from_origin, list_distinct_entitlement_names_by_source, distinct}
use openrails.Entitlements.Access.{member-distinct}
use openrails.Subscriptions.Model.{Subscription}
use openrails.Subscriptions.Store.{Store, Env, revoke_params}
use openrails.Subscriptions.Accepted.{
  revoke_one, revoked_each, revoked_source, revoked_all, revoke_all-ok,
}
use openrails.Subscriptions.Repo.{get_by_id, update}
use openrails.Subscriptions.End.{expire_membership, expired_row, revoke_all}

-- A window that gives no access from a source of a subscription at a time.
abbrev pub Gone : EntitlementSourceType → Uuid → Time → Entitlement → Type 0
Gone source id at e = (from_origin source id e && is_live e && covers at e) ≡ false

-- The live windows of a source belong to the subscription's user, and have a name.
abbrev pub Belongs : EntitlementSourceType → Subscription → Entitlement → Type 0
Belongs source s e =
    (from_origin source s.id e && is_live e) ≡ true
    → ((e.user_id == s.user_id) ≡ true) × ((e.entitlement == 0) ≡ false)

abbrev names_of : Table → List Name
names_of t = map (λ (x : Entitlement). x.entitlement) t

grows :
    (n : Name) (b : Bool) (x : Entitlement) (rest : Table)
    → member ◌==◌ n (names_of rest) ≡ true
    → member ◌==◌ n (names_of (if b then x ∷ rest else rest)) ≡ true
unfolding member
grows n true x rest h = ground (arith, h)
grows n false x rest h = h

-- Every selected row's name is among the names of the selected rows.
names-All :
    (p : Entitlement → Bool) (t : Table) (names : List Name)
    → ((n : Name) → member ◌==◌ n (names_of (select_where p t)) ≡ true → member ◌==◌ n names ≡ true)
    → All (λ e. p e ≡ true → member ◌==◌ e.entitlement names ≡ true) t
unfolding select_where member
names-All p [] names within = tt
names-All p (x ∷ t) names within = (
  λ chosen. within x.entitlement (rw chosen (ground arith)),
  names-All p t names λ n h. within n (grows n (p x) x (select_where p t) h),
)

module _ (db : Db) (s : Subscription) (source : EntitlementSourceType)
    (reason : EntitlementRevokeReason) (now : Time) (accepts : (u : Table) → db.accepts u ≡ true)
    (user : (s.user_id == 0) ≡ false) where
  -- The row function of one revocation.
  abbrev revoked_row : Name → Entitlement → Entitlement
  revoked_row n e =
      let p = revoke_params s n source reason in
      let b = if is_active_now p s.user_id n now e then mark_revoked reason now e else e in
      if is_future p s.user_id n now b then delete_row now b else b

  revoke_one-row :
      (n : Name) (t : Table)
      → (n == 0) ≡ false
      → revoke_one db accepts s source reason now n t ≡ map (revoked_row n) t
  unfolding revoke_existing_entitlement revoke_key lock_entitlement_timeline
  revoke_one-row n t named =
      let p = revoke_params s n source reason in
      rw (user, named)
        (rw (accepts _, accepts _)
          (update-update (is_active_now p s.user_id n now) (is_future p s.user_id n now)
            (mark_revoked reason now) (delete_row now) t))

  revoke_one-nameless :
      (n : Name) (t : Table) → (n == 0) ≡ true → revoke_one db accepts s source reason now n t ≡ t
  unfolding revoke_existing_entitlement
  revoke_one-nameless n t nameless = ground (arith, nameless)

  -- What every row of the table keeps through the loop.
  each-All :
      (P : Entitlement → Type 0)
      → ((n : Name) (e : Entitlement) → P e → P (revoked_row n e))
      → (names : List Name) (t : Table) → All P t
      → All P (revoked_each db accepts s source reason now names t)
  unfolding revoked_each
  each-All P keep [] t h = h
  each-All P keep (n ∷ names) t h =
      each-All P keep names (revoke_one db accepts s source reason now n t)
        (one (Bool-cases (n == 0)))
    where
      one :
          ((n == 0) ≡ true) ⊎ ((n == 0) ≡ false)
          → All P (revoke_one db accepts s source reason now n t)
      one (inl nameless) = subst (All P) (sym (revoke_one-nameless n t nameless)) h
      one (inr named) =
          subst (All P) (sym (revoke_one-row n t named)) (All-map P P (revoked_row n) t (keep n) h)

  -- A revocation gives no access back, and takes that of its own name.
  kept-Gone :
      (other : EntitlementSourceType) (id : Uuid) (at : Time) (n : Name) (e : Entitlement)
      → Gone other id at e
      → Gone other id at (revoked_row n e)
  kept-Gone other id at n e h = ground (arith, h)

  -- Gone, or still to be visited.
  abbrev Pending : Time → List Name → Entitlement → Type 0
  Pending at names e =
      Gone source s.id at e
      ⊎ ((e.user_id == s.user_id) ≡ true)
        × ((e.entitlement == 0) ≡ false)
        × (member ◌==◌ e.entitlement names ≡ true)

  visited :
      (at : Time) (n : Name) (names : List Name) (e : Entitlement)
      → now ≤ at
      → Pending at (n ∷ names) e
      → Pending at names (revoked_row n e)
  unfolding member
  visited at n names e le (inl gone) = inl (kept-Gone source s.id at n e gone)
  visited at n names e le (inr (mine, named, waits)) = elim (Bool-cases (e.entitlement == n)) [
    | inl now_turn ↦ inl (ground (arith, mine, now_turn))
    | inr later_turn ↦ inr (ground arith, ground arith, ground arith)
  ]

  all-Gone :
      (at : Time) (names : List Name) (t : Table)
      → now ≤ at
      → All (Pending at names) t
      → All (Gone source s.id at) (revoked_each db accepts s source reason now names t)
  unfolding revoked_each member
  all-Gone at [] t le h = All-imp (Pending at []) (Gone source s.id at) t none_waits h
    where
      none_waits : (e : Entitlement) → Pending at [] e → Gone source s.id at e
      none_waits e (inl gone) = gone
      none_waits e (inr (mine, named, waits)) = absurd (cc)
  all-Gone at (n ∷ names) t le h =
      all-Gone at names (revoke_one db accepts s source reason now n t) le
        (one (Bool-cases (n == 0)))
    where
      skipped : (e : Entitlement) → (n == 0) ≡ true → Pending at (n ∷ names) e → Pending at names e
      skipped e nameless (inl gone) = inl gone
      skipped e nameless (inr (mine, named, waits)) =
          inr (mine, named, ground (arith, named, nameless, waits))

      one :
          ((n == 0) ≡ true) ⊎ ((n == 0) ≡ false)
          → All (Pending at names) (revoke_one db accepts s source reason now n t)
      one (inl nameless) =
          subst (All (Pending at names)) (sym (revoke_one-nameless n t nameless))
            (All-imp (Pending at (n ∷ names)) (Pending at names) t (λ e k. skipped e nameless k) h)
      one (inr named) = subst (All (Pending at names)) (sym (revoke_one-row n t named)) (
          All-map (Pending at (n ∷ names)) (Pending at names) (revoked_row n) t
            (λ e k. visited at n names e le k) h)

  pub revoke_source-Gone :
      (at : Time) (t : Table)
      → now ≤ at
      → All (Belongs source s) t
      → All (Gone source s.id at) (revoked_source db accepts s source reason now t)
  unfolding list_distinct_entitlement_names_by_source
  revoke_source-Gone at t le belongs =
      let live = λ (e : Entitlement). from_origin source s.id e && is_live e in
      let names = distinct (names_of (select_where live t)) in
      all-Gone at names t le (
        All-imp₂ (Belongs source s) (λ e. live e ≡ true → member ◌==◌ e.entitlement names ≡ true)
          (Pending at names) t (λ e mine visits. either e names mine visits (Bool-cases (live e)))
          belongs (names-All live t names λ n h. member-distinct n _ ∙ h))
    where
      either :
          (e : Entitlement) (names : List Name)
          → Belongs source s e
          → ((from_origin source s.id e && is_live e) ≡ true
              → member ◌==◌ e.entitlement names ≡ true)
          → ((from_origin source s.id e && is_live e) ≡ true)
            ⊎ ((from_origin source s.id e && is_live e) ≡ false)
          → Pending at names e
      either e names mine visits (inl yes_live) =
          inr ((mine yes_live).0, (mine yes_live).1, visits yes_live)
      either e names mine visits (inr dead) = inl (ground (arith, dead))

  pub revoke_source-All :
      (P : Entitlement → Type 0)
      → ((n : Name) (e : Entitlement) → P e → P (revoked_row n e))
      → (t : Table) → All P t
      → All P (revoked_source db accepts s source reason now t)
  revoke_source-All P keep t h =
      each-All P keep (list_distinct_entitlement_names_by_source source s.id t) t h

-- Both passes over the windows.
module _ (db : Db) (s : Subscription) (now : Time) (accepts : (u : Table) → db.accepts u ≡ true)
    (user : (s.user_id == 0) ≡ false) where
  kept-Belongs :
      (n : Name) (e : Entitlement)
      → Belongs grace s e
      → Belongs grace s (revoked_row db s subscription dunning_failed now accepts user n e)
  kept-Belongs n e mine live =
      let before : (from_origin grace s.id e && is_live e) ≡ true = ground (arith, live) in
      let (of_user, named) = mine before in (ground (arith, of_user), ground (arith, named))

  revoke_all-Gone :
      (at : Time) (t : Table)
      → now ≤ at
      → All (Belongs subscription s) t
      → All (Belongs grace s) t
      → All (Gone subscription s.id at) (revoked_all db accepts s now t)
        × All (Gone grace s.id at) (revoked_all db accepts s now t)
  revoke_all-Gone at t le paid graced =
      let t' = revoked_source db accepts s subscription dunning_failed now t in
      (
        revoke_source-All db s grace dunning_failed now accepts user (Gone subscription s.id at)
            (λ n e h.
              kept-Gone db s grace dunning_failed now accepts user subscription s.id at n e h)
            t' (revoke_source-Gone db s subscription dunning_failed now accepts user at t le paid),
        revoke_source-Gone db s grace dunning_failed now accepts user at t' le (
            revoke_source-All db s subscription dunning_failed now accepts user (Belongs grace s)
              (λ n e mine. kept-Belongs n e mine) t graced),
      )

-- ExpireMembership ends access. If the database accepts every table of entitlements and the live
-- windows of the subscription and its live grace windows belong to its user and have names, then
-- after a successful ExpireMembership no window of the subscription and no grace window of it gives
-- access at the call's time or later.
pub expire_membership-Gone :
    (env : Env) (id notification : Uuid) (now at : Time) (store : Store) (s : Subscription)
    {store' : Store}
    → ((u : Table) → env.db.accepts u ≡ true)
    → get_by_id id store.subscriptions ≡ ok s
    → (s.user_id == 0) ≡ false
    → All (Belongs subscription s) store.entitlements
    → All (Belongs grace s) store.entitlements
    → now ≤ at
    → expire_membership env id notification now store ≡ ok store'
    → All (Gone subscription s.id at) store'.entitlements
      × All (Gone grace s.id at) store'.entitlements
unfolding expire_membership
expire_membership-Gone env id notification now at store s {store'} accepts found user paid graced le
      h =
    >>=-then (get_by_id id store.subscriptions) _ h λ row found_row h₁.
      >>=-then (update now (expired_row now row) store.subscriptions) _ h₁ λ _ _ h₂.
        >>=-then (revoke_all env.db (expired_row now row) now store.entitlements) _ h₂ λ _ gone e.
          subst (λ t. All (Gone subscription s.id at) t × All (Gone grace s.id at) t)
            (ap
                (λ (r : Subscription).
                  revoked_all env.db accepts (expired_row now r) now store.entitlements)
                (ok-injective (sym found ∙ found_row))
              ∙ ok-injective (
                  sym (revoke_all-ok env.db accepts (expired_row now row) now store.entitlements)
                  ∙ gone)
              ∙ ap (λ (y : Store). y.entitlements) (ok-injective e))
            (revoke_all-Gone env.db (expired_row now s) now accepts user at store.entitlements le
              paid graced)
