-- ===== src/Credits/Reads.antt =====
-- internal/modules/credits/credits_service.go: `GetTransactions` and `GetTransactionBySource`.
use openrails.Base.{
  ℕ, zero, suc, Bool, List, [], ◌∷◌, ◌==◌, leb, if◌then◌else◌, Result, ok, ◌>>=◌, ◌>>◌, refuse_if,
  or_error,
}
use openrails.Base.Int.{ℤ, pos, leb_ℤ, ltb_ℤ, pos_part}
use openrails.Base.Sql.{find_where, select_where, count_where, order_by, take}
use openrails.Credits.Model.{
  UserId, Text, TransactionType, CreditTransaction, Store, Error, owns_transaction,
}
use openrails.Credits.Service.{get_credit_type_by_name, has_source}

-- `ORDER BY created_at DESC`
abbrev pub created_later : CreditTransaction → CreditTransaction → Bool
created_later a b = leb b.created_at a.created_at

-- `OFFSET n`
unfoldable pub drop_rows : ℕ → List CreditTransaction → List CreditTransaction
drop_rows zero rows = rows
drop_rows (suc n) [] = []
drop_rows (suc n) (r ∷ rows) = drop_rows n rows

abbrev pub limit_or_fifty : ℤ → ℕ
limit_or_fifty limit = if leb_ℤ limit (pos 0) then 50 else pos_part limit

abbrev pub offset_or_zero : ℤ → ℕ
offset_or_zero offset = if ltb_ℤ offset (pos 0) then 0 else pos_part offset

-- `GetTransactions`: a page of a user's transactions, and how many there are.
unfoldable pub get_transactions :
    UserId → Text → ℤ → ℤ → Store → Result Error (List CreditTransaction × ℕ)
get_transactions u credit_type limit offset s = do
  ct ← get_credit_type_by_name credit_type s
  let rows = select_where (owns_transaction u ct.id) s.transactions
  let total = count_where (owns_transaction u ct.id) s.transactions
  ok (
    take (limit_or_fifty limit) (drop_rows (offset_or_zero offset) (order_by created_later rows)),
    total,
  )

pub data LookupError : Type 0 where
  user_id_required credit_type_required transaction_type_required : LookupError
  source_required source_id_required unknown_type no_transaction : LookupError

-- `GetTransactionBySource`: the texts come trimmed, and `is_type` tests whether a text names a
-- transaction type.
unfoldable pub get_transaction_by_source :
    (Text → TransactionType → Bool)
    → UserId
    → Text
    → Text
    → Text
    → Text
    → Store
    → Result LookupError CreditTransaction
get_transaction_by_source is_type u credit_type transaction_type source source_id s = do
  refuse_if (u == 0) user_id_required
  refuse_if (credit_type == 0) credit_type_required
  refuse_if (transaction_type == 0) transaction_type_required
  refuse_if (source == 0) source_required
  refuse_if (source_id == 0) source_id_required
  ct ← or_error (find_where (λ t. t.name == credit_type) s.credit_types) unknown_type
  or_error
      (find_where (has_source (is_type transaction_type) u ct.id source source_id) s.transactions)
      no_transaction
