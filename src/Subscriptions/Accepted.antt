-- ===== src/Subscriptions/Accepted.antt =====
-- internal/modules/subscriptions/lifecycle_service.go: the entitlement calls whose errors are only
-- logged, on a database that accepts what they write.
use openrails.Base.{
  ◌≡◌, refl, inl, inr, Bool, true, false, not, ◌&&◌, ◌||◌, Option, none, some, List, [], ◌∷◌, ltb,
  ◌==◌, if◌then◌else◌, Bool-cases, Result, ok, err, ◌>>=◌, refuse_if, is_value, is_none, is_some,
}
use openrails.Base.Sql.{exists_where, member}
use openrails.Payments.Model.{Time, Uuid}
use openrails.Entitlements.Model
use openrails.Entitlements.Model.{
  EntitlementRevokeReason, EntitlementSourceType, Name, Table, Db, subscription, grace,
  dunning_failed, Entitlement, UserId, exec,
}
use openrails.Entitlements.Timeline.{lock_entitlement_timeline}
use openrails.Entitlements.Service.{
  revoke_existing_entitlement, revoke_key, RevokeExistingEntitlementParams,
  PushNewEntitlementParams, push_new_entitlement, check_push, set_count, no_length, revoke_selected,
  push_tx, append_window, is_indefinite,
}
use openrails.Entitlements.Repo.{list_distinct_entitlement_names_by_source}
use openrails.Subscriptions.Model.{Subscription, past_due, cancelled, is_status}
use openrails.Subscriptions.Store.{
  Env, is_db_error, or_logged, or_unchanged, revoke_each, revoke_params, revoke_source,
}
use openrails.Subscriptions.End.{
  revoke_all, grace_each, grace_from, append_grace, failed_windows, grace_window,
}

-- Whether a call failed because the database refused a statement.
abbrev refused {ℓ} : {A : Type ℓ} → Result Model.Error A → Bool
refused (ok a) = false
refused (err e) = is_db_error e

-- A call that the database does not refuse.
record Allowed {ℓ} {A : Type ℓ} (r : Result Model.Error A) : Type 0 where
  allowed : refused r ≡ false

logged-ok :
    (t : Table) (r : Result Model.Error Table) → Allowed r → or_logged t r ≡ ok (or_unchanged t r)
logged-ok t (ok u) h = refl
logged-ok t (err e) h = rw h.allowed refl

-- A chain none of whose steps is refused.
bind_ok :
    {A B : Type 0} (r : Result Model.Error A) (f : A → Result Model.Error B)
    → Allowed r
    → ((a : A) → Allowed (f a))
    → Allowed (r >>= f)
bind_ok (ok a) f h k = k a
bind_ok (err e) f h k = record { allowed = h.allowed }

check_ok : (b : Bool) (e : Model.Error) → is_db_error e ≡ false → Allowed (refuse_if b e)
check_ok true e h = record { allowed = h }
check_ok false e h = record { allowed = refl }

lock_ok : (u : UserId) (n : Name) → Allowed (lock_entitlement_timeline u n)
unfolding lock_entitlement_timeline
lock_ok u n = check_ok _ _ refl

check_push_ok : (p : PushNewEntitlementParams) → Allowed (check_push p)
unfolding check_push
check_push_ok p =
    bind_ok (refuse_if (p.user_id == 0 || p.entitlement == 0) Model.missing_key) _
      (check_ok _ _ refl)
      λ _. bind_ok (refuse_if (p.source_id == 0) Model.missing_source) _ (check_ok _ _ refl) λ _.
        bind_ok (refuse_if (not (set_count p == 1)) Model.bad_window_choice) _ (check_ok _ _ refl)
          λ _.
            bind_ok (refuse_if (no_length p.duration) Model.bad_duration) _ (check_ok _ _ refl)
              λ _. check_ok (is_value p.end_at 0) Model.bad_end_at refl

module _ (db : Db) (accepts : (u : Table) → db.accepts u ≡ true) where
  exec_ok : (t : Table) → Allowed (exec db t)
  exec_ok t = rw (accepts t) (record { allowed = refl })

  revoke_ok :
      (p : RevokeExistingEntitlementParams) (now : Time) (t : Table)
      → p.entitlement_id ≡ none
      → Allowed (revoke_existing_entitlement db p now t)
  unfolding revoke_existing_entitlement revoke_key
  revoke_ok p now t keyed =
      bind_ok
        (refuse_if (is_none p.entitlement_id && (p.user_id == 0 || p.entitlement == 0))
          Model.bad_selector)
        _ (check_ok _ _ refl)
        λ _.
          bind_ok
            (refuse_if
              (is_some p.entitlement_id && (not (p.user_id == 0) || not (p.entitlement == 0)))
              Model.bad_selector)
            (λ _. revoke_selected p.entitlement_id db p now t) (check_ok _ _ refl)
            λ _. rw keyed (
              bind_ok (lock_entitlement_timeline p.user_id p.entitlement) _
                (lock_ok p.user_id p.entitlement) λ _. bind_ok _ _ (exec_ok _) λ _. exec_ok _)

  append_ok :
      (p : PushNewEntitlementParams) (id : Uuid) (now start : Time) (end_at : Option (Option Time))
      (t : Table)
      → Allowed (append_window db p id now start end_at t)
  unfolding append_window
  append_ok p id now start none t = record { allowed = refl }
  append_ok p id now start (some e) t = bind_ok _ _ (exec_ok _) λ _. record { allowed = refl }

  push_ok :
      (p : PushNewEntitlementParams) (id : Uuid) (now : Time) (t : Table)
      → Allowed (push_new_entitlement db p id now t)
  unfolding push_new_entitlement push_tx
  push_ok p id now t = bind_ok _ _ (check_push_ok p) λ _.
      bind_ok _ _ (lock_ok p.user_id p.entitlement) λ _.
        elim (Bool-cases (exists_where (is_indefinite p.user_id p.entitlement) t)) [
          | inl endless ↦ rw endless (record { allowed = refl })
          | inr ends ↦ rw ends (append_ok p id now _ _ t)
        ]

  module _ (s : Subscription) (source : EntitlementSourceType) (reason : EntitlementRevokeReason)
      (now : Time) where
    abbrev pub revoke_one : Name → Table → Table
    revoke_one n t =
        or_unchanged t (revoke_existing_entitlement db (revoke_params s n source reason) now t)

    -- The loop of the revocations, which goes through.
    unfoldable pub revoked_each : List Name → Table → Table
    revoked_each [] t = t
    revoked_each (n ∷ names) t = revoked_each names (revoke_one n t)

    pub revoke_each-ok :
        (names : List Name) (t : Table)
        → revoke_each db s source reason now names t ≡ ok (revoked_each names t)
    unfolding revoke_each revoked_each
    revoke_each-ok [] t = refl
    revoke_each-ok (n ∷ names) t =
        rw
          (logged-ok t (revoke_existing_entitlement db (revoke_params s n source reason) now t)
            (revoke_ok (revoke_params s n source reason) now t refl))
          (revoke_each-ok names (revoke_one n t))

    abbrev pub revoked_source : Table → Table
    revoked_source t = revoked_each (list_distinct_entitlement_names_by_source source s.id t) t

    pub revoke_source-ok :
        (t : Table) → revoke_source db s source reason now t ≡ ok (revoked_source t)
    unfolding revoke_source
    revoke_source-ok t = revoke_each-ok (list_distinct_entitlement_names_by_source source s.id t) t

  module _ (s : Subscription) (now : Time) where
    abbrev pub revoked_all : Table → Table
    revoked_all t =
        revoked_source s grace dunning_failed now
          (revoked_source s subscription dunning_failed now t)

    pub revoke_all-ok : (t : Table) → revoke_all db s now t ≡ ok (revoked_all t)
    unfolding revoke_all
    revoke_all-ok t =
        rw (revoke_source-ok s subscription dunning_failed now t)
          (revoke_source-ok s grace dunning_failed now _)

    grace_each-ok :
        (window : Name → Uuid) (start until_at : Time) (names : List Name) (t : Table)
        → (t' : Table) × (grace_each db s window start until_at now names t ≡ ok t')
    unfolding grace_each
    grace_each-ok window start until_at [] t = (t, refl)
    grace_each-ok window start until_at (n ∷ names) t =
        let pushed = push_new_entitlement db (grace_window s n start until_at) (window n) now t in
        let logged = logged-ok t (pushed >>= λ q. ok (q.1)) (
          bind_ok pushed (λ q. ok (q.1))
            (push_ok (grace_window s n start until_at) (window n) now t)
            λ _. record { allowed = refl }) in
        let (t', done) =
          grace_each-ok window start until_at names (or_unchanged t (pushed >>= λ q. ok (q.1))) in
        (t', rw logged done)

    grace_from-ok :
        (window : Name → Uuid) (paid_end until_at : Option Time) (t : Table)
        → (t' : Table) × (grace_from db s window now paid_end until_at t ≡ ok t')
    grace_from-ok window (some paid_end) (some until_at) t =
        elim (Bool-cases (ltb paid_end until_at)) [
          | inl ahead ↦
              let (t', done) =
                grace_each-ok window (if ltb now paid_end then paid_end else now) until_at
                  (list_distinct_entitlement_names_by_source subscription s.id t) t in
              (t', rw ahead done)
          | inr behind ↦ (t, rw behind refl)
        ]
    grace_from-ok window none until_at t = (t, refl)
    grace_from-ok window (some paid_end) none t = (t, refl)

-- What FailMembership asks of the entitlements goes through.
module _ (env : Env) (s : Subscription) (now : Time)
    (accepts : (u : Table) → env.db.accepts u ≡ true) where
  pub append_grace-ok :
      (window : Name → Uuid) (t : Table) → (t' : Table) × (append_grace env s window now t ≡ ok t')
  unfolding append_grace
  append_grace-ok window t =
      elim (Bool-cases (member ◌==◌ s.processor env.nmi_backed && is_status past_due s)) [
        | inl due ↦
            let (t', done) =
              grace_from-ok env.db accepts s now window s.current_period_ends_at s.next_retry_at
                t in
            (t', rw due done)
        | inr ends ↦ (t, rw ends refl)
      ]

  pub failed_windows-ok : (t : Table) → (t' : Table) × (failed_windows env s now t ≡ ok t')
  failed_windows-ok t =
      elim (Bool-cases (is_status cancelled s && not env.entitlement_expiration_disabled)) [
        | inl gone ↦
            (revoked_all env.db accepts s now t, rw gone (revoke_all-ok env.db accepts s now t))
        | inr stay ↦ (t, rw stay refl)
      ]
