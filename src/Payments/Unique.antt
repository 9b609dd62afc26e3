-- ===== src/Payments/Unique.antt =====
-- internal/db/repo/payment.go: `CreateIfNotExists` and the constraint on processor and transaction.
use openrails.Base.{◌≡◌, refl, inl, inr, false, arith, if◌then◌else◌, Bool-cases, ok, Pairwise}
use openrails.Base.Sql.{find_where, exists_where}
use openrails.Rows.{exists-All}
use openrails.Payments.Model.{Payment, Payments}
use openrails.Payments.Repo.{has_transaction, create_if_not_exists, get_by_transaction_id}

abbrev pub OtherTransaction : Payment → Payment → Type 0
OtherTransaction a b = has_transaction a.processor a.transaction_id b ≡ false

-- CreateIfNotExists keeps the transactions of a table apart. Afterwards GetByTransactionID finds
-- the new payment if the call reports that it created it, and what it found before if not; and
-- every further CreateIfNotExists of that processor and transaction reports false and changes
-- nothing.
pub create_if_not_exists-once :
    (p q : Payment) (t : Payments)
    → Pairwise OtherTransaction t
    → q.processor ≡ p.processor
    → q.transaction_id ≡ p.transaction_id
    → let (created, t') = create_if_not_exists p t in
      Pairwise OtherTransaction t'
      × (get_by_transaction_id p.processor p.transaction_id t'
          ≡ (if created then ok p else get_by_transaction_id p.processor p.transaction_id t))
      × (create_if_not_exists q t' ≡ (false, t'))
unfolding create_if_not_exists get_by_transaction_id find_where exists_where
create_if_not_exists-once p q t apart same_processor same_transaction =
    elim (Bool-cases (exists_where (has_transaction p.processor p.transaction_id) t)) [
      | inl there ↦ rw (there, same_processor, same_transaction, there) (apart, refl, refl)
      | inr new ↦
          rw (new, same_processor, same_transaction)
            (
              (exists-All (has_transaction p.processor p.transaction_id) t new, apart),
              ground arith,
              ground arith,
            )
    ]
