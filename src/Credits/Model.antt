-- ===== src/Credits/Model.antt =====
-- internal/db/models/credits.go: balances, the ledger of transactions (holds among them), and the
-- blocks that deposits create and withdrawals use up.
use openrails.Base.{ℕ, Bool, true, false, ◌&&◌, Option, List, ◌==◌}
use openrails.Base.Int.{ℤ}

-- Microseconds since Go's zero time.
abbrev pub Time : Type 0
Time = ℕ

-- Identifiers are only compared; 0 is the empty text and the nil UUID.
abbrev pub UserId : Type 0
UserId = ℕ

abbrev pub Uuid : Type 0
Uuid = ℕ

abbrev pub Text : Type 0
Text = ℕ

pub record CreditType : Type 0 where
  pub id : Uuid
  pub name : Text
  pub display_name : Text
  pub unit : Text
  pub decimal_places : ℤ
  pub is_active : Bool
  pub created_at : Time

pub record UserCreditBalance : Type 0 where
  pub id : Uuid
  pub user_id : UserId
  pub credit_type_id : Uuid
  pub balance : ℤ
  pub held_balance : ℤ
  pub created_at : Time
  pub updated_at : Time

pub data TransactionType : Type 0 where
  deposit withdrawal hold expiry : TransactionType

pub data TransactionStatus : Type 0 where
  posted active captured released expired : TransactionStatus

pub record CreditTransaction : Type 0 where
  pub id : Uuid
  pub user_id : UserId
  pub credit_type_id : Uuid
  pub amount : ℤ
  pub balance_after : Option ℤ
  pub transaction_type : TransactionType
  pub status : TransactionStatus
  pub authorized : Option ℤ
  pub captured : Option ℤ
  pub source : Text
  pub source_id : Option Text
  pub expires_at : Option Time
  pub description : Option Text
  pub created_at : Time
  pub updated_at : Time

pub record CreditBlock : Type 0 where
  pub id : Uuid
  pub user_id : UserId
  pub credit_type_id : Uuid
  pub original_amount : ℤ
  pub remaining_amount : ℤ
  pub expires_at : Option Time
  pub source_transaction_id : Option Uuid
  pub created_at : Time

-- The tables that the credits service reads and writes.
pub record Store : Type 0 where
  pub credit_types : List CreditType
  pub balances : List UserCreditBalance
  pub transactions : List CreditTransaction
  pub blocks : List CreditBlock

pub data Error : Type 0 where
  no_rows bad_amount credit_type_inactive insufficient_credits : Error
  not_a_hold hold_not_active hold_without_amount bad_capture_amount : Error

abbrev pub is_hold : TransactionType → Bool
is_hold hold = true
is_hold _ = false

abbrev pub is_deposit : TransactionType → Bool
is_deposit deposit = true
is_deposit _ = false

abbrev pub is_active_status : TransactionStatus → Bool
is_active_status active = true
is_active_status _ = false

-- `user_id = ? AND credit_type_id = ?` on each table.
abbrev pub owns_balance : UserId → Uuid → UserCreditBalance → Bool
owns_balance u c b = b.user_id == u && b.credit_type_id == c

abbrev pub owns_transaction : UserId → Uuid → CreditTransaction → Bool
owns_transaction u c r = r.user_id == u && r.credit_type_id == c

abbrev pub owns_block : UserId → Uuid → CreditBlock → Bool
owns_block u c b = b.user_id == u && b.credit_type_id == c
