-- ===== src/Subscriptions/NilWindow.antt =====
-- internal/modules/subscriptions/lifecycle_service.go: the log line of `createMembershipCore` that
-- reads the window which `PushNewEntitlement` returned.
use openrails.Base.{
  ◌≡◌, refl, sym, subst, inl, inr, true, false, Option, none, some, List, [], ◌∷◌, arith, ◌==◌,
  Bool-cases, Result, ok, err, ◌>>=◌, refuse_if, >>=-then, ok-injective, ◌∙◌, ==→eq,
}
use openrails.Rows.{true_ne_false}
use openrails.Base.Sql.{exists_where, member}
use openrails.Payments.Model.{Time, Uuid, Text}
use openrails.Entitlements.Model.{
  Entitlement, Name, Table, Db, subscription, is_live, has_key, same_source,
}
use openrails.Entitlements.Model
use openrails.Entitlements.Service.{is_indefinite, push_new_entitlement}
use openrails.Entitlements.Repo.{exists_by_source}
use openrails.Entitlements.Push.{Pushed, unchanged, appended, push_new_entitlement-Pushed}
use openrails.Subscriptions.Model.{Subscription, Price, Product}
use openrails.Subscriptions.Table.{Error, Subscriptions, active_subscription_exists}
use openrails.Subscriptions.Repo.{
  get_active_or_pending_by_user_id_and_product_id, get_by_user_id_and_price_id, create, update,
}
use openrails.Subscriptions.Store.{Store, Env, Ids, from_entitlements, get_price, get_product}
use openrails.Subscriptions.Create.{
  CreateMembershipParams, create_membership, found, found_active, grant_each, grant_one,
  names_or_premium, new_row, paid_window, reused_row, period_end, read_window, save_membership,
}

read_window-ok :
    (r : Result Model.Error (Option Entitlement × Table)) {t : Table}
    → (from_entitlements r >>= read_window) ≡ ok t
    → (w : Entitlement) × (r ≡ ok (some w, t))
read_window-ok (err e) h = absurd (cc)
read_window-ok (ok (none, u)) h = absurd (cc)
read_window-ok (ok (some w, u)) h = (w, cc)

==-differs : (a b : Name) → (a ≡ b → ⊥) → (a == b) ≡ false
==-differs a b h = elim (Bool-cases (a == b)) [
  | inl same ↦ absurd (h (==→eq a b same))
  | inr differs ↦ differs
]

module _ (db : Db) (user : Text) (id : Uuid) (n : Name) where
  -- The user has the entitlement without an end, from elsewhere.
  abbrev Endless : Table → Type 0
  Endless t =
      (exists_where (is_indefinite user n) t ≡ true)
      × (exists_by_source subscription id n t ≡ false)

  module _ (window : Uuid) (now end_at : Time) where
    -- Another name's window changes neither.
    pushed :
        (m : Name) (t : Table) {o : Option Entitlement} {t' : Table}
        → Pushed (paid_window user m id now end_at) window now t o t'
        → (o ≡ none → ⊥)
        → Endless t
        → Endless t' × ((n == m) ≡ false)
    unfolding exists_where exists_by_source
    pushed m t (unchanged gone same) some_window endless = absurd (some_window gone)
    pushed m t (appended until_at c no_end w_is table) some_window endless =
        elim (Bool-cases (n == m)) [
          | inl same ↦ absurd (
              true_ne_false (
                sym endless.0
                ∙ subst (λ k. exists_where (is_indefinite user k) t ≡ false) (sym (==→eq n m same))
                    no_end))
          | inr differs ↦
              subst (λ u. Endless u × ((n == m) ≡ false)) (sym table)
                ((ground (arith, endless.0), ground (arith, differs, endless.1)), differs)
        ]

    granted :
        (m : Name) (t : Table) {t' : Table}
        → grant_one db user id window now end_at m t ≡ ok t'
        → Endless t
        → Endless t' × ((n == m) ≡ false)
    granted m t {t'} h endless = elim (Bool-cases (exists_by_source subscription id m t)) [
      | inl there ↦
          let same : t ≡ t' = ok-injective (rw there at h) in
          (
            subst Endless same endless,
            ==-differs n m λ e.
                true_ne_false (
                  sym there
                  ∙ subst (λ k. exists_by_source subscription id k t ≡ false) e endless.1),
          )
      | inr new ↦
          let (w, pushed_ok) =
            read_window-ok (push_new_entitlement db (paid_window user m id now end_at) window now t)
              (rw new at h) in
          pushed m t
            (push_new_entitlement-Pushed db (paid_window user m id now end_at) window now t
              {o = some w} {t' = t'} pushed_ok).2
            (λ e. absurd (cc)) endless
    ]

  -- The loop does not get past the name.
  grant_each-Endless :
      (window : Name → Uuid) (now end_at : Time) (names : List Name) (t : Table) {t' : Table}
      → member ◌==◌ n names ≡ true
      → Endless t
      → ¬ (grant_each db user id window now end_at names t ≡ ok t')
  unfolding grant_each member
  grant_each-Endless window now end_at [] t among endless h = absurd (cc)
  grant_each-Endless window now end_at (m ∷ names) t among endless h =
      >>=-then (grant_one db user id (window m) now end_at m t) _ h λ u one rest.
        let (endless', differs) = granted (window m) now end_at m t {t' = u} one endless in
        grant_each-Endless window now end_at names u (ground (arith, among, differs)) endless' rest

among-names_or_premium :
    (n : Name) (names : List Name)
    → member ◌==◌ n names ≡ true
    → member ◌==◌ n (names_or_premium names) ≡ true
unfolding member
among-names_or_premium n [] h = absurd (cc)
among-names_or_premium n (m ∷ names) h = h

-- The identifier of the row that is saved.
saved_id :
    (p : CreateMembershipParams) (price : Price) (id : Uuid) (now end_at : Time)
    (r : Result Error Subscription) (t : Subscriptions) {saved : Subscription × Subscriptions}
    → (Free : Uuid → Type 0) → Free id
    → ((old : Subscription) → r ≡ ok old → Free old.id)
    → save_membership p price id now end_at (found r) t ≡ ok saved
    → Free (saved.0).id
unfolding save_membership
saved_id p price id now end_at (err e) t Free new_free old_free h =
    >>=-then (create (new_row p price id now end_at) t) _ h λ u _ e'.
      subst (λ (x : Subscription × Subscriptions). Free (x.0).id) (ok-injective e') new_free
saved_id p price id now end_at (ok old) t Free new_free old_free h =
    >>=-then (update now (reused_row p price now end_at old) t) _ h λ u _ e'.
      subst (λ (x : Subscription × Subscriptions). Free (x.0).id) (ok-injective e')
        (old_free old refl)

-- CreateMembership does not succeed for a user who has one of the product's entitlements without an
-- end. If the price and its product are in the catalog, the product has the entitlement, the user
-- has a live window of it with no end, and neither the new subscription nor the user's row for the
-- price that is used again has a live window of it, then the call returns no subscription (its log
-- line reads a nil window).
pub create_membership-nil :
    (env : Env) (p : CreateMembershipParams) (ids : Ids) (now : Time) (store : Store) (n : Name)
    (price : Price) (product : Product) (r : Subscription × Store)
    → get_price env p.price_id ≡ ok price
    → get_product env price.product_id ≡ ok product
    → member ◌==◌ n product.entitlements ≡ true
    → exists_where (is_indefinite p.user_id n) store.entitlements ≡ true
    → exists_by_source subscription ids.subscription n store.entitlements ≡ false
    → ((old : Subscription)
        → get_by_user_id_and_price_id p.user_id price.id store.subscriptions ≡ ok old
        → exists_by_source subscription old.id n store.entitlements ≡ false)
    → ¬ (create_membership env p ids now store ≡ ok r)
unfolding create_membership
create_membership-nil env p ids now store n price product r priced sold among endless new_free
      old_free h =
    >>=-then (get_price env p.price_id) _ h λ price' priced' h₁.
      >>=-then
        (refuse_if
          (found_active (
            get_active_or_pending_by_user_id_and_product_id p.user_id price'.product_id
              store.subscriptions))
          active_subscription_exists)
        _ h₁
        λ _ _ h₂.
          let end_at = period_end p.current_period_ends_at price'.billing_cycle_days now in
          let lookup = get_by_user_id_and_price_id p.user_id price'.id store.subscriptions in
          >>=-then
            (save_membership p price' ids.subscription now end_at (found lookup)
              store.subscriptions)
            _ h₂
            λ saved saved_ok h₃.
              >>=-then (get_product env price'.product_id) _ h₃ λ product' sold' h₄.
                >>=-then
                  (grant_each env.db p.user_id (saved.0).id ids.window now end_at
                    (names_or_premium product'.entitlements) store.entitlements)
                  _ h₄
                  λ windows granted_ok _.
                    let same_price : price ≡ price' = ok-injective (sym priced ∙ priced') in
                    let same_product : product ≡ product' = ok-injective (
                      sym sold
                      ∙ subst (λ (x : Price). get_product env x.product_id ≡ ok product')
                          (sym same_price) sold') in
                    grant_each-Endless env.db p.user_id (saved.0).id n ids.window now end_at
                      (names_or_premium product'.entitlements) store.entitlements {t' = windows}
                      (subst
                        (λ (x : Product). member ◌==◌ n (names_or_premium x.entitlements) ≡ true)
                        same_product (among-names_or_premium n product.entitlements among))
                      (
                        endless,
                        saved_id p price' ids.subscription now end_at lookup store.subscriptions
                            {saved = saved}
                            (λ id. exists_by_source subscription id n store.entitlements ≡ false)
                            new_free
                            (subst
                              (λ (x : Price).
                                (old : Subscription)
                                → get_by_user_id_and_price_id p.user_id x.id store.subscriptions
                                  ≡ ok old
                                → exists_by_source subscription old.id n store.entitlements ≡ false)
                              same_price old_free)
                            saved_ok,
                      )
                      granted_ok
