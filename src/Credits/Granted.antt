-- ===== src/Credits/Granted.antt =====
-- internal/modules/credits/subscription_credits.go: a grant that is repeated.
use mathlib.Core.List.{Permᴰ}
use openrails.Base.{
  ◌≡◌, ◌⊎◌, refl, ap, ◌∙◌, subst, inl, inr, ℕ, suc, true, false, not, some, [], ◌∷◌, ◌==◌, ok,
  >>=-then, or_error-ok, refuse_if, or_error, arith, Bool-cases, ok-injective, All, All-perm,
}
use openrails.Base.Sql.{find_where}
use openrails.Credits.Model.{Time, Uuid, Text, CreditType, Store}
use openrails.Credits.Service.{deposit_tx}
use openrails.Credits.Grants.{
  CreditGrantSpec, CreditsSpec, Subscription, Catalog, GrantSubscriptionCreditsParams, same_cadence,
  cadence_or_once, validate_credit_grant_spec, GrantEnv, grant_deposit, grant_one, grant_each,
  grant_subscription_credits, unknown_credit_type, inactive_credit_type, subscription_required,
  period_end_required, cadence_required, source_required, missing_row, unset,
}
use openrails.Credits.Posted.{
  Posted, Kept, deposit_tx-Kept, deposit_tx-Posted, deposit_tx-Posted_again,
}

module _ (new_sha1 : Uuid → Uuid → Time → Uuid) (p : GrantSubscriptionCreditsParams)
    (sub : Subscription) where
  -- The grant of a credit type is posted.
  abbrev Granted : Text → Store → Type 0
  Granted name s =
      (ct : CreditType) × (find_where (λ t. t.name == name) s.credit_types ≡ some ct)
      × (ct.is_active ≡ true)
      × Posted sub.user_id ct.id (new_sha1 sub.id ct.id p.period_end) s

  -- An entry that a grant went through: it is valid, and it is for another cadence or granted.
  record Done (entry : Text × CreditGrantSpec) (s : Store) : Type 0 where
    valid : validate_credit_grant_spec entry.0 entry.1 ≡ ok tt
    settled : (same_cadence (cadence_or_once entry.1.cadence) p.cadence ≡ false) ⊎ Granted entry.0 s

  Done-Kept :
      (entry : Text × CreditGrantSpec) (s s' : Store) → Kept s s' → Done entry s → Done entry s'
  Done-Kept (name, spec) s s' k h = record {
    valid = h.valid;
    settled = elim h.settled [
      | inl other ↦ inl other
      | inr (ct, found, is_on, posted) ↦
          inr (
            ct,
            ap (find_where (λ t. t.name == name)) k.types ∙ found,
            is_on,
            k.posted _ _ _ posted,
          )
    ];
  }

  grant_one-Done :
      (env : GrantEnv) (now : Time) (n : ℕ) (name : Text) (spec : CreditGrantSpec) (s s' : Store)
      → grant_one new_sha1 env p sub now n (name, spec) s ≡ ok s'
      → Kept s s' × Done (name, spec) s'
  unfolding grant_one
  grant_one-Done env now n name spec s s' h =
      >>=-then (validate_credit_grant_spec name spec) _ h λ a valid h₁.
        elim (Bool-cases (same_cadence (cadence_or_once spec.cadence) p.cadence)) [
          | inr other ↦
              (let same : s ≡ s' = ok-injective (rw other at h₁) in
                subst (λ x. Kept s x × Done (name, spec) x) same
                  (
                    record { types = refl; posted = λ u c k q. q },
                    record { valid = valid; settled = inl other },
                  ))
          | inl due ↦
              (>>=-then
                (or_error (find_where (λ t. t.name == name) s.credit_types) unknown_credit_type) _
                (rw due at h₁)
                λ ct found h₂.
                  >>=-then (refuse_if (not ct.is_active) inactive_credit_type) _ h₂ λ b is_on h₃.
                    let params = grant_deposit new_sha1 p sub ct name spec now in
                    let kept = deposit_tx-Kept (env.ids n) ct params (env.deposit_time n) s in
                    let posted =
                      deposit_tx-Posted (env.ids n) ct params (env.deposit_time n) s refl refl in
                    subst (λ x. Kept s x × Done (name, spec) x) (ok-injective h₃)
                      (
                        kept,
                        record {
                          valid = valid;
                          settled = inr (
                            ct,
                            ap (find_where (λ t. t.name == name)) kept.types
                                ∙ or_error-ok _ _ found,
                            ground (arith, is_on),
                            posted,
                          );
                        },
                      ))
        ]

  grant_one-again :
      (env : GrantEnv) (now : Time) (n : ℕ) (entry : Text × CreditGrantSpec) (s : Store)
      → Done entry s
      → grant_one new_sha1 env p sub now n entry s ≡ ok s
  unfolding grant_one deposit_tx
  grant_one-again env now n (name, spec) s h = elim h.settled [
    | inl other ↦ rw (h.valid, other) refl
    | inr (ct, found, is_on, posted) ↦
        elim (Bool-cases (same_cadence (cadence_or_once spec.cadence) p.cadence)) [
          | inr other ↦ rw (h.valid, other) refl
          | inl due ↦
              rw (h.valid, due, found, is_on)
                (ap ok (
                  deposit_tx-Posted_again (env.ids n) ct
                    (grant_deposit new_sha1 p sub ct name spec now) (env.deposit_time n) s refl refl
                    posted))
        ]
  ]

  grant_each-Done :
      (env : GrantEnv) (now : Time) (n : ℕ) (entries : CreditsSpec) (s s' : Store)
      → grant_each new_sha1 env p sub now n entries s ≡ ok s'
      → Kept s s' × All (λ e. Done e s') entries
  unfolding grant_each
  grant_each-Done env now n [] s s' h =
      let same : s ≡ s' = ok-injective h in
      subst (λ x. Kept s x × Unit) same (record { types = refl; posted = λ u c k q. q }, tt)
  grant_each-Done env now n ((name, spec) ∷ rest) s s' h =
      >>=-then (grant_one new_sha1 env p sub now n (name, spec) s) _ h λ s₁ first h₁.
        let (kept, settled) = grant_one-Done env now n name spec s s₁ first in
        let (kept', others) = grant_each-Done env now (suc n) rest s₁ s' h₁ in
        (
          record {
            types = kept'.types ∙ kept.types;
            posted = λ u c k q. kept'.posted u c k (kept.posted u c k q);
          },
          (Done-Kept (name, spec) s₁ s' kept' settled, others),
        )

  grant_each-again :
      (env : GrantEnv) (now : Time) (n : ℕ) (entries : CreditsSpec) (s : Store)
      → All (λ e. Done e s) entries
      → grant_each new_sha1 env p sub now n entries s ≡ ok s
  unfolding grant_each
  grant_each-again env now n [] s h = refl
  grant_each-again env now n (e ∷ rest) s h =
      rw (grant_one-again env now n e s h.0) (grant_each-again env now (suc n) rest s h.1)

-- GrantSubscriptionCredits grants a period once. After a successful call, a second call for the
-- same subscription, period and cadence succeeds and changes no table, at any time, with any new
-- identifiers, and in whatever order it visits the entries of the product's map (a permutation of
-- the first order).
pub grant_subscription_credits_once :
    (new_sha1 : Uuid → Uuid → Time → Uuid) (visit visit' : CreditsSpec → CreditsSpec)
    (env env' : GrantEnv) (p : GrantSubscriptionCreditsParams) (now now' : Time) (catalog : Catalog)
    (s s' : Store)
    → ((spec : CreditsSpec) → Permᴰ (visit spec) (visit' spec))
    → grant_subscription_credits new_sha1 visit env p now catalog s ≡ ok s'
    → grant_subscription_credits new_sha1 visit' env' p now' catalog s' ≡ ok s'
unfolding grant_subscription_credits
grant_subscription_credits_once new_sha1 visit visit' env env' p now now' catalog s s' perm h =
    >>=-then (refuse_if (p.subscription_id == 0) subscription_required) _ h λ a₁ e₁ h₁.
      >>=-then (refuse_if (p.period_end == 0) period_end_required) _ h₁ λ a₂ e₂ h₂.
        >>=-then (refuse_if (same_cadence p.cadence unset) cadence_required) _ h₂ λ a₃ e₃ h₃.
          >>=-then (refuse_if (p.source == 0) source_required) _ h₃ λ a₄ e₄ h₄.
            >>=-then
              (or_error (find_where (λ r. r.id == p.subscription_id) catalog.subscriptions)
                missing_row)
              _ h₄
              λ sub e₅ h₅.
                >>=-then
                  (or_error (find_where (λ r. r.id == sub.product_id) catalog.products) missing_row)
                  _ h₅
                  λ prod e₆ h₆.
                    let (kept, done) =
                      grant_each-Done new_sha1 p sub env now 0 (visit prod.credits_spec) s s' h₆ in
                    rw (e₁, e₂, e₃, e₄, e₅, e₆)
                      (grant_each-again new_sha1 p sub env' now' 0 (visit' prod.credits_spec) s'
                        (All-perm (λ e. Done new_sha1 p sub e s') (perm prod.credits_spec) done))
