-- ===== src/Subscriptions/Store.antt =====
-- internal/modules/subscriptions/lifecycle_service.go and lifecycle_types.go: the tables that the
-- lifecycle changes, its surroundings, and the steps that its operations share.
use openrails.Base.{
  ℕ, ◌-◌, Bool, true, false, not, ◌&&◌, ◌||◌, Option, none, some, List, [], ◌∷◌, leb, ◌==◌,
  if◌then◌else◌, Result, ok, err, ◌>>=◌, refuse_if, or_error,
}
use openrails.Base.Sql.{find_where}
use openrails.Payments.Model.{Time, Uuid, Text, Payments}
use openrails.Entitlements.Model
use openrails.Entitlements.Model.{
  Table, Db, Name, EntitlementSourceType, EntitlementRevokeReason, db_error,
}
use openrails.Entitlements.Service.{RevokeExistingEntitlementParams, revoke_existing_entitlement}
use openrails.Entitlements.Repo.{list_distinct_entitlement_names_by_source}
use openrails.Subscriptions.Model.{
  Bytes, Subscription, Price, Product, Notification, NotificationEventType, PremiumEndReason,
  CancelType, chargeback, cancelled, is_status,
}
use openrails.Subscriptions.Table.{
  Subscriptions, Error, no_rows, aborted_transaction, entitlement_error,
  terminal_transition_blocked,
}

pub record Store : Type 0 where
  pub subscriptions : Subscriptions
  pub payments : Payments
  pub notifications : List Notification
  pub entitlements : Table

-- What the operations read beside the tables: the database's rules on entitlements, the catalog,
-- the parser of identifiers, the settings, and what `time.Now()` gives to `Cancel` and to
-- `ResetCurrentPeriods`, which do not ask the service's clock.
pub record Env : Type 0 where
  pub db : Db
  pub prices : List Price
  pub products : List Product
  pub parse_uuid : Text → Option Uuid
  pub nmi_backed : List Text
  pub dunning_off : Bool
  pub entitlement_expiration_disabled : Bool
  pub has_payment_service : Bool
  pub cancel_time : Time
  pub reset_time : Time

-- What `uuid.New` gives in one call; each window has an identifier of its own.
pub record Ids : Type 0 where
  pub subscription : Uuid
  pub payment : Uuid
  pub notification : Uuid
  pub window : Name → Uuid

-- `GetByID` of the price and the product services.
unfoldable pub get_price : Env → Uuid → Result Error Price
get_price env id = or_error (find_where (λ (p : Price). p.id == id) env.prices) no_rows

unfoldable pub get_product : Env → Uuid → Result Error Product
get_product env id = or_error (find_where (λ (p : Product). p.id == id) env.products) no_rows

-- An error of the entitlement service, wrapped.
abbrev pub from_entitlements {ℓ} : {A : Type ℓ} → Result Model.Error A → Result Error A
from_entitlements (ok a) = ok a
from_entitlements (err e) = err entitlement_error

-- `notificationRepo.Create`
abbrev pub notify :
    Uuid → Text → NotificationEventType → Option PremiumEndReason → Option Uuid → Store → Store
notify id user event reason new_product s = record s {
  notifications =
      record {
        id = id;
        user_id = user;
        event_type = event;
        reason = reason;
        new_product = new_product;
      }
      ∷ s.notifications;
}

-- The revocation of one name of a subscription's windows.
abbrev pub revoke_params :
    Subscription
    → Name
    → EntitlementSourceType
    → EntitlementRevokeReason
    → RevokeExistingEntitlementParams
revoke_params s n source reason = record {
  entitlement_id = none;
  user_id = s.user_id;
  entitlement = n;
  source_type = some source;
  source_id = some s.id;
  reason = reason;
}

-- An error that nothing looks at: the value is as it was.
abbrev pub or_unchanged {ℓ κ} : {E : Type ℓ} {A : Type κ} → A → Result E A → A
or_unchanged old (ok new) = new
or_unchanged old (err e) = old

abbrev pub is_db_error : Model.Error → Bool
is_db_error db_error = true
is_db_error _ = false

-- `if err := …; err != nil { log }` around an entitlement call. The call runs in the transaction of
-- the operation, which a refused statement aborts: what follows fails, the commit included. Any
-- other error comes before the call's first write.
abbrev pub or_logged : Table → Result Model.Error Table → Result Error Table
or_logged old (ok new) = ok new
or_logged old (err e) = if is_db_error e then err aborted_transaction else ok old

-- The loop over the names, which logs what fails.
unfoldable pub revoke_each :
    Db
    → Subscription
    → EntitlementSourceType
    → EntitlementRevokeReason
    → Time
    → List Name
    → Table
    → Result Error Table
revoke_each db s source reason now [] t = ok t
revoke_each db s source reason now (n ∷ names) t =
    or_logged t (revoke_existing_entitlement db (revoke_params s n source reason) now t) >>= λ t'.
    revoke_each db s source reason now names t'

-- Every live window of the source, by name.
unfoldable pub revoke_source :
    Db
    → Subscription
    → EntitlementSourceType
    → EntitlementRevokeReason
    → Time
    → Table
    → Result Error Table
revoke_source db s source reason now t =
    revoke_each db s source reason now (list_distinct_entitlement_names_by_source source s.id t) t

-- `strings.ToUpper` on the letters of ASCII.
abbrev pub to_upper : ℕ → ℕ
to_upper c = if leb 97 c && leb c 122 then c - 32 else c

-- `strings.HasPrefix(strings.ToUpper(text), word)`
unfoldable pub has_upper_prefix : Bytes → Bytes → Bool
has_upper_prefix [] text = true
has_upper_prefix (w ∷ word) [] = false
has_upper_prefix (w ∷ word) (c ∷ text) = w == to_upper c && has_upper_prefix word text

-- `strings.Contains(strings.ToUpper(text), word)`
unfoldable pub contains_upper : Bytes → Bytes → Bool
unfolding has_upper_prefix
contains_upper word [] = has_upper_prefix word []
contains_upper word (c ∷ text) = has_upper_prefix word (c ∷ text) || contains_upper word text

-- "CHARGEBACK"
abbrev pub chargeback_word : Bytes
chargeback_word = 67 ∷ 72 ∷ 65 ∷ 82 ∷ 71 ∷ 69 ∷ 66 ∷ 65 ∷ 67 ∷ 75 ∷ []

abbrev pub is_chargeback : Option CancelType → Bool
is_chargeback (some chargeback) = true
is_chargeback _ = false

abbrev pub mentions_chargeback : Option Bytes → Bool
mentions_chargeback none = false
mentions_chargeback (some text) = contains_upper chargeback_word text

-- `TerminalCancelReason`: whether there is one.
abbrev pub is_terminal : Subscription → Bool
is_terminal s =
    is_status cancelled s && (is_chargeback s.cancel_type || mentions_chargeback s.cancel_feedback)

-- `assertActiveTransitionAllowed`
unfoldable pub assert_active_transition_allowed : Bool → Subscription → Result Error (Unit {0})
assert_active_transition_allowed allow_override s =
    refuse_if (is_terminal s && not allow_override) terminal_transition_blocked
