-- ===== src/Payments/Model.antt =====
-- internal/db/models/payment.go: the log of charges and of the refunds that point back to them.
use openrails.Base.{ℕ, Bool, true, false, Option, List}
use openrails.Base.Int.{ℤ}

-- Microseconds since Go's zero time.
abbrev pub Time : Type 0
Time = ℕ

-- Identifiers and texts are only compared; 0 is the empty text and the nil UUID.
abbrev pub Uuid : Type 0
Uuid = ℕ

abbrev pub Text : Type 0
Text = ℕ

pub data PaymentStatus : Type 0 where
  pending completed failed refunded : PaymentStatus

abbrev pub is_failed : PaymentStatus → Bool
is_failed failed = true
is_failed _ = false

abbrev pub is_completed : PaymentStatus → Bool
is_completed completed = true
is_completed _ = false

pub record Payment : Type 0 where
  pub id : Uuid
  pub user_id : Text
  pub price_id : Uuid
  pub subscription_id : Option Uuid
  pub refunded_payment_id : Option Uuid
  pub processor : Text
  pub transaction_id : Text
  pub amount : ℤ
  pub list_amount : ℤ
  pub currency : Text
  pub status : PaymentStatus
  pub purchased_at : Time
  pub created_at : Time

abbrev pub Payments : Type 0
Payments = List Payment

pub data Error : Type 0 where
  no_rows no_rows_affected unique_violation user_required immutable undeletable : Error
  bad_refund_amount not_a_charge synthetic_reference missing_transaction : Error
  refund_too_large refund_total_too_large : Error
