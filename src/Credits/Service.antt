-- ===== src/Credits/Service.antt =====
-- internal/modules/credits/credits_service.go: deposits, withdrawals and holds. A function returns
-- its result with the tables that the committed transaction leaves; an error rolls it back.
use openrails.Base.{
  Bool, not, ◌&&◌, Option, none, some, ◌∷◌, ◌==◌, is_value, Result, ok, ◌>>=◌, ◌>>◌, refuse_if,
  or_error,
}
use openrails.Base.Int.{ℤ, pos, leb_ℤ, add64, sub64}
use openrails.Base.Sql.{find_where}
use openrails.Credits.Model.{
  Time, UserId, Uuid, Text, CreditType, UserCreditBalance, TransactionType, deposit, withdrawal,
  posted, CreditTransaction, CreditBlock, Store, Error, no_rows, bad_amount, credit_type_inactive,
  is_deposit, owns_transaction, owns_balance,
}
use openrails.Credits.Balance.{
  empty_balance, lock_balance, set_balance, withdraw_balance_and_blocks,
}

-- The identifiers that `uuid.New` gives to the rows of one call.
pub record Ids : Type 0 where
  pub balance : Uuid
  pub transaction : Uuid
  pub block : Uuid

unfoldable pub get_credit_type_by_name : Text → Store → Result Error CreditType
get_credit_type_by_name name s =
    or_error (find_where (λ ct. ct.name == name) s.credit_types) no_rows

-- `GetBalance`: a user with no row has zero balances.
unfoldable pub get_balance : UserId → Text → Store → Result Error UserCreditBalance
get_balance u name s = do
  ct ← get_credit_type_by_name name s
  ok (balance_or_zero ct (find_where (owns_balance u ct.id) s.balances))
  where
    balance_or_zero : CreditType → Option UserCreditBalance → UserCreditBalance
    balance_or_zero ct none = empty_balance u ct.id 0 0
    balance_or_zero ct (some b) = b

-- The checks that `Deposit`, `Withdraw` and `Hold` begin with.
unfoldable pub check_amount_and_type : ℤ → Text → Store → Result Error CreditType
check_amount_and_type amount name s = do
  refuse_if (leb_ℤ amount (pos 0)) bad_amount
  ct ← get_credit_type_by_name name s
  refuse_if (not ct.is_active) credit_type_inactive
  ok ct

pub record CreditDepositParams : Type 0 where
  pub user_id : UserId
  pub credit_type : Text
  pub amount : ℤ
  pub source : Text
  pub source_id : Option Uuid
  pub expires_at : Option Time
  pub description : Option Text

-- A transaction of this kind with the caller's idempotency key.
abbrev pub has_source :
    (TransactionType → Bool) → UserId → Uuid → Text → Text → CreditTransaction → Bool
has_source kind u c source source_id r =
    owns_transaction u c r
    && kind r.transaction_type
    && r.source == source
    && is_value r.source_id source_id

-- The earlier deposit under the same key, if the caller gave one.
unfoldable pub earlier_deposit : Uuid → CreditDepositParams → Store → Option CreditTransaction
earlier_deposit c p s = elim p.source_id [
  | none ↦ none
  | some id ↦ find_where (has_source is_deposit p.user_id c p.source id) s.transactions
]

abbrev pub deposit_row : Ids → Uuid → CreditDepositParams → ℤ → Time → CreditTransaction
deposit_row ids c p new_balance now = record {
  id = ids.transaction;
  user_id = p.user_id;
  credit_type_id = c;
  amount = p.amount;
  balance_after = some new_balance;
  transaction_type = deposit;
  status = posted;
  authorized = none;
  captured = none;
  source = p.source;
  source_id = p.source_id;
  expires_at = p.expires_at;
  description = p.description;
  created_at = now;
  updated_at = now;
}

abbrev pub deposit_block : Ids → Uuid → CreditDepositParams → Time → CreditBlock
deposit_block ids c p now = record {
  id = ids.block;
  user_id = p.user_id;
  credit_type_id = c;
  original_amount = p.amount;
  remaining_amount = p.amount;
  expires_at = p.expires_at;
  source_transaction_id = some ids.transaction;
  created_at = now;
}

-- The new balance, the ledger row and the block of a deposit.
unfoldable pub post_deposit :
    Ids → Uuid → CreditDepositParams → Time → UserCreditBalance → Store → CreditTransaction × Store
post_deposit ids c p now bal s =
    let new_balance = add64 bal.balance p.amount in
    let s' = set_balance p.user_id c new_balance now s in
    let trx = deposit_row ids c p new_balance now in
    (
      trx,
      record s' {
        transactions = trx ∷ s'.transactions;
        blocks = deposit_block ids c p now ∷ s'.blocks;
      },
    )

-- An earlier deposit under the key is returned as it is.
unfoldable pub finish_deposit :
    Ids
    → Uuid
    → CreditDepositParams
    → Time
    → UserCreditBalance × Store
    → Option CreditTransaction
    → CreditTransaction × Store
finish_deposit ids c p now (bal, s) (some existing) = (existing, s)
finish_deposit ids c p now (bal, s) none = post_deposit ids c p now bal s

-- `depositTx`
unfoldable pub deposit_tx :
    Ids → CreditType → CreditDepositParams → Time → Store → CreditTransaction × Store
deposit_tx ids ct p now s =
    let locked = lock_balance p.user_id ct.id ids.balance now s in
    finish_deposit ids ct.id p now locked (earlier_deposit ct.id p locked.1)

-- `Deposit`
unfoldable pub deposit_credits :
    Ids → CreditDepositParams → Time → Store → Result Error (CreditTransaction × Store)
deposit_credits ids p now s = do
  ct ← check_amount_and_type p.amount p.credit_type s
  ok (deposit_tx ids ct p now s)

pub record CreditWithdrawParams : Type 0 where
  pub user_id : UserId
  pub credit_type : Text
  pub amount : ℤ
  pub source : Text
  pub source_id : Option Uuid

abbrev pub withdrawal_row : Uuid → Uuid → CreditWithdrawParams → ℤ → Time → CreditTransaction
withdrawal_row id c p new_balance now = record {
  id = id;
  user_id = p.user_id;
  credit_type_id = c;
  amount = sub64 (pos 0) p.amount;
  balance_after = some new_balance;
  transaction_type = withdrawal;
  status = posted;
  authorized = none;
  captured = none;
  source = p.source;
  source_id = p.source_id;
  expires_at = none;
  description = none;
  created_at = now;
  updated_at = now;
}

abbrev pub add_transaction : CreditTransaction → Store → Store
add_transaction r s = record s { transactions = r ∷ s.transactions }

-- `withdrawTx`
unfoldable pub withdraw_tx :
    Ids → Uuid → CreditWithdrawParams → Time → Store → Result Error (CreditTransaction × Store)
withdraw_tx ids c p now s =
    withdraw_balance_and_blocks p.user_id c p.amount ids.balance now s >>= λ (new_balance, s').
    let trx = withdrawal_row ids.transaction c p new_balance now in ok (trx, add_transaction trx s')

-- `Withdraw`
unfoldable pub withdraw_credits :
    Ids → CreditWithdrawParams → Time → Store → Result Error (CreditTransaction × Store)
withdraw_credits ids p now s = do
  ct ← check_amount_and_type p.amount p.credit_type s
  withdraw_tx ids ct.id p now s
