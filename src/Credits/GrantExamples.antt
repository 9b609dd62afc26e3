-- ===== src/Credits/GrantExamples.antt =====
-- internal/modules/credits/subscription_credits.go and internal/modules/credits/credit_type_service.go:
-- a grant of a monthly stipend and its repetition, and a credit type that is renamed and switched off.
use mathlib.Core.List.Permᴰ
use openrails.Base.{ℕ, ◌≡◌, refl, ◌+◌, ◌*◌, none, some, List, [], ◌∷◌, true, ok}
use openrails.Base.Int.{pos}
use openrails.Base.Sql.{find_where}
use openrails.Credits.Model.{Time, Uuid, Text, CreditType, Store}
use openrails.Credits.Service.{deposit_tx}
use openrails.Credits.Grants.{
  per_renewal, CreditsSpec, Catalog, GrantSubscriptionCreditsParams, GrantEnv,
  validate_credit_grant_spec, grant_one, grant_each, grant_subscription_credits,
}
use openrails.Credits.Types.{has_id}
use openrails.Credits.TypeRows.{SameKind}
use openrails.Credits.Fixed.{
  TypeCall, create_call, update_call, deactivate_call, call_each, call_each-SameKind,
}
use openrails.Credits.Granted.{grant_subscription_credits_once}

-- Two hundred credits of the type 2 with every renewal, for thirty days.
abbrev stipend : CreditsSpec
stipend = (2, record { amount = pos 200; expires_days = some (pos 30); cadence = per_renewal }) ∷ []

abbrev catalog : Catalog
catalog = record {
  subscriptions = record { id = 50; user_id = 1; product_id = 60 } ∷ [];
  products = record { id = 60; credits_spec = stipend } ∷ [];
}

abbrev empty_store : Store
empty_store = record {
  credit_types =
      record {
        id = 3;
        name = 2;
        display_name = 4;
        unit = 5;
        decimal_places = pos 2;
        is_active = true;
        created_at = 1;
      }
      ∷ [];
  balances = [];
  transactions = [];
  blocks = [];
}

abbrev renewal : GrantSubscriptionCreditsParams
renewal = record { subscription_id = 50; period_end = 900; cadence = per_renewal; source = 8 }

abbrev env : GrantEnv
env = record {
  ids = λ n. record { balance = 100 + n; transaction = 200 + n; block = 300 + n };
  deposit_time = λ n. 10 + n;
}

abbrev later_env : GrantEnv
later_env = record {
  ids = λ n. record { balance = 400 + n; transaction = 500 + n; block = 600 + n };
  deposit_time = λ n. 20 + n;
}

abbrev name_based : Uuid → Uuid → Time → Uuid
name_based sub ct period_end = 1000 * sub + ct + period_end

abbrev granted : Store
granted =
    (deposit_tx (env.ids 0)
      (record {
        id = 3;
        name = 2;
        display_name = 4;
        unit = 5;
        decimal_places = pos 2;
        is_active = true;
        created_at = 1;
      })
      (record {
        user_id = 1;
        credit_type = 2;
        amount = pos 200;
        source = 1;
        source_id = some 50903;
        expires_at = some 2592000000010;
        description = none;
      })
      10 empty_store).1

grant_subscription_credits_once_example :
    grant_subscription_credits name_based (λ spec. spec) later_env renewal 20 catalog granted
    ≡ ok granted
unfolding grant_subscription_credits grant_each grant_one validate_credit_grant_spec find_where
grant_subscription_credits_once_example =
    grant_subscription_credits_once name_based (λ spec. spec) (λ spec. spec) env later_env renewal
      10 20 catalog empty_store granted (λ spec. Permᴰ.refl spec) refl

abbrev gpu_minutes : CreditType
gpu_minutes = record {
  id = 3;
  name = 2;
  display_name = 4;
  unit = 5;
  decimal_places = pos 2;
  is_active = true;
  created_at = 1;
}

abbrev some_changes : List TypeCall
some_changes =
    create_call 9 30 (record gpu_minutes { id = 0 })
    ∷ update_call 2 (record { display_name = some 7; is_active = none })
    ∷ deactivate_call 2
    ∷ []

-- "gpu"
abbrev spelled : Text → List ℕ
spelled text = 103 ∷ 112 ∷ 117 ∷ []

call_each-SameKind_example :
    (ct : CreditType) × (find_where (has_id 3) (call_each spelled some_changes (gpu_minutes ∷ []))
      ≡ some ct)
    × SameKind gpu_minutes ct
unfolding find_where
call_each-SameKind_example =
    call_each-SameKind spelled some_changes (gpu_minutes ∷ []) 3 gpu_minutes (tt, tt) refl
