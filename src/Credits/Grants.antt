-- ===== src/Credits/Grants.antt =====
-- internal/modules/credits/subscription_credits.go: the credits that a product gives with a
-- subscription, with the part of internal/db/models/product_catalog.go that says which.
use openrails.Base.{
  ℕ, suc, ◌+◌, ◌*◌, Bool, true, false, not, Option, none, some, List, [], ◌∷◌, ◌==◌, if◌then◌else◌,
  Result, ok, ◌>>=◌, ◌>>◌, refuse_if, or_error,
}
use openrails.Base.Int.{ℤ, pos, leb_ℤ, pos_part}
use openrails.Base.Sql.{find_where}
use openrails.Credits.Model.{Time, UserId, Uuid, Text, CreditType, Store}
use openrails.Credits.Service.{Ids, CreditDepositParams, deposit_tx}

-- A cadence is a text; the empty one is `unset`.
pub data CreditGrantCadence : Type 0 where
  unset once per_renewal other_cadence : CreditGrantCadence

pub record CreditGrantSpec : Type 0 where
  pub amount : ℤ
  pub expires_days : Option ℤ
  pub cadence : CreditGrantCadence

-- A map from the names of credit types, as a list in the order in which it is visited.
abbrev pub CreditsSpec : Type 0
CreditsSpec = List (Text × CreditGrantSpec)

-- The columns that the grant reads.
pub record Product : Type 0 where
  pub id : Uuid
  pub credits_spec : CreditsSpec

pub record Subscription : Type 0 where
  pub id : Uuid
  pub user_id : UserId
  pub product_id : Uuid

pub record Catalog : Type 0 where
  pub subscriptions : List Subscription
  pub products : List Product

pub data GrantError : Type 0 where
  subscription_required period_end_required cadence_required source_required : GrantError
  missing_row empty_name bad_grant_amount bad_expiry bad_cadence : GrantError
  unknown_credit_type inactive_credit_type : GrantError

pub record GrantSubscriptionCreditsParams : Type 0 where
  pub subscription_id : Uuid
  pub period_end : Time
  pub cadence : CreditGrantCadence
  pub source : Text

abbrev pub same_cadence : CreditGrantCadence → CreditGrantCadence → Bool
same_cadence unset unset = true
same_cadence once once = true
same_cadence per_renewal per_renewal = true
same_cadence other_cadence other_cadence = true
same_cadence _ _ = false

abbrev pub cadence_or_once : CreditGrantCadence → CreditGrantCadence
cadence_or_once unset = once
cadence_or_once c = c

abbrev pub is_known_cadence : CreditGrantCadence → Bool
is_known_cadence other_cadence = false
is_known_cadence _ = true

abbrev pub is_bad_expiry : Option ℤ → Bool
is_bad_expiry none = false
is_bad_expiry (some days) = leb_ℤ days (pos 0)

unfoldable pub validate_credit_grant_spec : Text → CreditGrantSpec → Result GrantError (Unit {0})
validate_credit_grant_spec name spec = do
  refuse_if (name == 0) empty_name
  refuse_if (leb_ℤ spec.amount (pos 0)) bad_grant_amount
  refuse_if (is_bad_expiry spec.expires_days) bad_expiry
  refuse_if (not (is_known_cadence (cadence_or_once spec.cadence))) bad_cadence

-- 24 hours in microseconds.
abbrev pub day : ℕ
day = 86400000000

abbrev pub grant_expiry : Option ℤ → Time → Option Time
grant_expiry none now = none
grant_expiry (some days) now = if leb_ℤ days (pos 0) then none else some (now + day * pos_part days)

-- "subscription_credit_grant"
abbrev pub subscription_credit_grant : Text
subscription_credit_grant = 1

-- What a grant gets from outside: for each entry that is visited, the identifiers and the time of
-- its deposit.
pub record GrantEnv : Type 0 where
  pub ids : ℕ → Ids
  pub deposit_time : ℕ → Time

-- `new_sha1` makes the identifier of a grant from its subscription, credit type and period.
module _ (new_sha1 : Uuid → Uuid → Time → Uuid) where
  abbrev pub grant_deposit :
      GrantSubscriptionCreditsParams
      → Subscription
      → CreditType
      → Text
      → CreditGrantSpec
      → Time
      → CreditDepositParams
  grant_deposit p sub ct name spec now = record {
    user_id = sub.user_id;
    credit_type = name;
    amount = spec.amount;
    source = subscription_credit_grant;
    source_id = some (new_sha1 sub.id ct.id p.period_end);
    expires_at = grant_expiry spec.expires_days now;
    description = none;
  }

  -- One entry of the map, the `n`th that is visited.
  unfoldable pub grant_one :
      GrantEnv
      → GrantSubscriptionCreditsParams
      → Subscription
      → Time
      → ℕ
      → Text × CreditGrantSpec
      → Store
      → Result GrantError Store
  grant_one env p sub now n (name, spec) s =
      validate_credit_grant_spec name spec
      >> (if not (same_cadence (cadence_or_once spec.cadence) p.cadence)
          then ok s
          else or_error (find_where (λ ct. ct.name == name) s.credit_types) unknown_credit_type
            >>= λ ct.
                refuse_if (not ct.is_active) inactive_credit_type
                >> ok
                    (deposit_tx (env.ids n) ct (grant_deposit p sub ct name spec now)
                      (env.deposit_time n) s).1)

  unfoldable pub grant_each :
      GrantEnv
      → GrantSubscriptionCreditsParams
      → Subscription
      → Time
      → ℕ
      → CreditsSpec
      → Store
      → Result GrantError Store
  grant_each env p sub now n [] s = ok s
  grant_each env p sub now n (entry ∷ rest) s =
      grant_one env p sub now n entry s >>= λ s'. grant_each env p sub now (suc n) rest s'

  -- `GrantSubscriptionCredits`, whose loop visits the map's entries in the order that `visit` gives.
  unfoldable pub grant_subscription_credits :
      (CreditsSpec → CreditsSpec)
      → GrantEnv
      → GrantSubscriptionCreditsParams
      → Time
      → Catalog
      → Store
      → Result GrantError Store
  grant_subscription_credits visit env p now catalog s = do
    refuse_if (p.subscription_id == 0) subscription_required
    refuse_if (p.period_end == 0) period_end_required
    refuse_if (same_cadence p.cadence unset) cadence_required
    refuse_if (p.source == 0) source_required
    sub ← or_error (find_where (λ r. r.id == p.subscription_id) catalog.subscriptions) missing_row
    prod ← or_error (find_where (λ r. r.id == sub.product_id) catalog.products) missing_row
    grant_each env p sub now 0 (visit prod.credits_spec) s
