-- ===== src/Payments/Repo.antt =====
-- internal/db/repo/payment.go: the statements on the table of payments, with its constraint
-- `UNIQUE (processor, transaction_id)`.
use openrails.Base.{
  ℕ, ◌+◌, Bool, true, false, not, ◌&&◌, [], ◌∷◌, leb, ◌==◌, if◌then◌else◌, is_value, Result, ok,
  err, or_error,
}
use openrails.Base.Int.{pos, pos_part, neg_part, ltb_ℤ}
use openrails.Base.Sql.{update_where, select_where, find_where, exists_where, count_where, first_by}
use openrails.Payments.Model.{
  Uuid, Text, Payment, Payments, failed, is_failed, is_completed, Error, no_rows, no_rows_affected,
  unique_violation, user_required,
}

-- `processor = ? AND transaction_id = ?`
abbrev pub has_transaction : Text → Text → Payment → Bool
has_transaction processor transaction p =
    p.processor == processor && p.transaction_id == transaction

-- `Create`: the insert meets the unique constraint, or fails.
unfoldable pub create : Payment → Payments → Result Error Payments
create p t =
    if exists_where (has_transaction p.processor p.transaction_id) t
    then err unique_violation
    else ok (p ∷ t)

-- `CreateIfNotExists`: `ON CONFLICT (processor, transaction_id) DO NOTHING`.
unfoldable pub create_if_not_exists : Payment → Payments → Bool × Payments
create_if_not_exists p t =
    if exists_where (has_transaction p.processor p.transaction_id) t
    then (false, t)
    else (true, p ∷ t)

unfoldable pub get_by_id : Uuid → Payments → Result Error Payment
get_by_id id t = or_error (find_where (λ p. p.id == id) t) no_rows

unfoldable pub get_by_transaction_id : Text → Text → Payments → Result Error Payment
get_by_transaction_id processor transaction t =
    or_error (find_where (has_transaction processor transaction) t) no_rows

-- `ORDER BY purchased_at DESC`
abbrev purchased_later : Payment → Payment → Bool
purchased_later a b = leb b.purchased_at a.purchased_at

unfoldable pub get_latest_by_user_and_processor : Text → Text → Payments → Result Error Payment
get_latest_by_user_and_processor user processor t =
    or_error
      (first_by purchased_later
        (select_where (λ p. p.user_id == user && p.processor == processor) t))
      no_rows

unfoldable pub get_latest_by_subscription_id : Uuid → Payments → Result Error Payment
get_latest_by_subscription_id id t =
    or_error (first_by purchased_later (select_where (λ p. is_value p.subscription_id id) t))
      no_rows

-- `amount > 0`
abbrev pub is_charge : Payment → Bool
is_charge p = ltb_ℤ (pos 0) p.amount

unfoldable pub get_latest_charge_by_subscription_id : Uuid → Payments → Result Error Payment
get_latest_charge_by_subscription_id id t =
    or_error
      (first_by purchased_later
        (select_where (λ p. is_value p.subscription_id id && is_charge p) t))
      no_rows

-- `SUM(ABS(amount))` over the refunds of a payment, 0 without any.
unfoldable pub get_refund_total_by_payment_id : Uuid → Payments → ℕ
get_refund_total_by_payment_id id [] = 0
get_refund_total_by_payment_id id (p ∷ t) =
    let rest = get_refund_total_by_payment_id id t in
    if is_value p.refunded_payment_id id then pos_part p.amount + neg_part p.amount + rest else rest

unfoldable pub count_by_user_and_processor : Text → Text → Payments → Result Error (ℕ × ℕ)
count_by_user_and_processor user processor t =
    if user == 0
    then err user_required
    else ok (
      count_where
          (λ p.
            p.user_id == user && p.processor == processor && is_charge p && is_completed p.status)
          t,
      count_where (λ p. p.user_id == user && p.processor == processor && is_failed p.status) t,
    )

unfoldable pub mark_failed : Uuid → Payments → Payments
mark_failed id t = update_where (λ p. p.id == id) (λ p. record p { status = failed }) t

-- `Delete`
unfoldable pub delete_payment : Uuid → Payments → Result Error Payments
delete_payment id t =
    if exists_where (λ p. p.id == id) t
    then ok (select_where (λ p. not (p.id == id)) t)
    else err no_rows_affected
