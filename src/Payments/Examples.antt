-- ===== src/Payments/Examples.antt =====
-- The theorems on payments, each at a concrete table.
use openrails.Base.{false, ◌≡◌, refl, none, some, [], ◌∷◌, ok, arith, All, Pairwise}
use openrails.Base.Int.{pos, negsuc, wrap64, add64, sub64, ◌+ℤ◌, ◌-ℤ◌}
use openrails.Base.Sql.{find_where, exists_where}
use openrails.Payments.Model.{Payment, Payments, completed}
use openrails.Payments.Repo.{
  create, create_if_not_exists, get_by_id, get_by_transaction_id, get_refund_total_by_payment_id,
}
use openrails.Payments.Service.{refund, validate_refund, refund_entry}
use openrails.Payments.Refunds.{refund-WithinCharge, WithinCharge}
use openrails.Payments.Unique.{create_if_not_exists-once, OtherTransaction}

-- A charge of 500 with a refund of 200.
abbrev charge : Payment
charge = record {
  id = 1;
  user_id = 7;
  price_id = 3;
  subscription_id = some 9;
  refunded_payment_id = none;
  processor = 2;
  transaction_id = 40;
  amount = pos 500;
  list_amount = pos 500;
  currency = 1;
  status = completed;
  purchased_at = 1000;
  created_at = 1000;
}

abbrev first_refund : Payment
first_refund = record charge {
  id = 2;
  refunded_payment_id = some 1;
  transaction_id = 41;
  amount = negsuc 199;
}

abbrev payments : Payments
payments = first_refund ∷ charge ∷ []

abbrev second_refund : Payment
second_refund = refund_entry charge 3 42 (pos 300) 2000

abbrev third_payment : Payment
third_payment = record charge { id = 5; transaction_id = 50 }

refund-WithinCharge_example :
    All (WithinCharge (second_refund ∷ payments)) (second_refund ∷ payments)
unfolding refund validate_refund get_by_id get_refund_total_by_payment_id create add64 sub64 wrap64
    ◌+ℤ◌ ◌-ℤ◌ find_where exists_where
refund-WithinCharge_example =
    refund-WithinCharge (λ transaction. false) 1 42 (pos 300) 3 2000 payments
      {entry = second_refund} {t' = second_refund ∷ payments} ((refl, tt), (tt, tt))
      (λ c. absurd (cc), (λ c. ground arith, tt)) refl

create_if_not_exists-once_example :
    Pairwise OtherTransaction (third_payment ∷ payments)
    × (get_by_transaction_id 2 50 (third_payment ∷ payments) ≡ ok third_payment)
    × (create_if_not_exists (record third_payment { id = 6 }) (third_payment ∷ payments)
        ≡ (false, third_payment ∷ payments))
unfolding create_if_not_exists get_by_transaction_id find_where exists_where
create_if_not_exists-once_example =
    create_if_not_exists-once third_payment (record third_payment { id = 6 }) payments
      ((refl, tt), (tt, tt)) refl refl
