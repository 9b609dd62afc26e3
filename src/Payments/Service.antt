-- ===== src/Payments/Service.antt =====
-- internal/modules/payments/payment.go: refunds as negative entries that point to their payment.
use openrails.Base.{Bool, ◌&&◌, ◌||◌, some, ◌==◌, is_some, Result, ok, err, ◌>>=◌, ◌>>◌, refuse_if}
use openrails.Base.Int.{ℤ, pos, ltb_ℤ, leb_ℤ, add64, sub64}
use openrails.Payments.Model.{
  Time, Uuid, Text, Payment, Payments, completed, Error, immutable, undeletable, bad_refund_amount,
  not_a_charge, synthetic_reference, missing_transaction, refund_too_large, refund_total_too_large,
}
use openrails.Payments.Repo.{create, get_by_id, get_refund_total_by_payment_id}

-- `Update` and `Delete` of the service refuse.
unfoldable pub update : Payment → Payments → Result Error Payments
update p t = err immutable

unfoldable pub delete : Uuid → Payments → Result Error Payments
delete id t = err undeletable

-- The sum is an `int64` computed by the database; `is_synthetic` tests a transaction for `sub:`.
unfoldable pub validate_refund : (Text → Bool) → Payment → ℤ → Payments → Result Error (Unit {0})
validate_refund is_synthetic orig amount t = do
  refuse_if (leb_ℤ amount (pos 0)) bad_refund_amount
  refuse_if (leb_ℤ orig.amount (pos 0) || is_some orig.refunded_payment_id) not_a_charge
  refuse_if (is_synthetic orig.transaction_id) synthetic_reference
  let total = pos (get_refund_total_by_payment_id orig.id t)
  refuse_if (ltb_ℤ orig.amount amount) refund_too_large
  refuse_if (ltb_ℤ (pos 0) total && ltb_ℤ orig.amount (add64 amount total)) refund_total_too_large

abbrev pub refund_entry : Payment → Uuid → Text → ℤ → Time → Payment
refund_entry orig id transaction amount now = record {
  id = id;
  user_id = orig.user_id;
  price_id = orig.price_id;
  subscription_id = orig.subscription_id;
  refunded_payment_id = some orig.id;
  processor = orig.processor;
  transaction_id = transaction;
  amount = sub64 (pos 0) amount;
  list_amount = orig.list_amount;
  currency = orig.currency;
  status = completed;
  purchased_at = now;
  created_at = now;
}

-- `Refund`: `id` is the identifier that `uuid.New` gives.
unfoldable pub refund :
    (Text → Bool) → Uuid → Text → ℤ → Uuid → Time → Payments → Result Error (Payment × Payments)
refund is_synthetic original transaction amount id now t = do
  orig ← get_by_id original t
  validate_refund is_synthetic orig amount t
  refuse_if (transaction == 0) missing_transaction
  let entry = refund_entry orig id transaction amount now
  t' ← create entry t
  ok (entry, t')
