-- ===== src/Credits/Examples.antt =====
-- The theorems on the credit tables, each at concrete tables.
use openrails.Base.{◌≡◌, ◌≤◌, ◌+◌, refl, none, some, [], ◌∷◌, true, arith, ok, ◌<◌}
use openrails.Base.Int.{pos, pos_part, add64, sub64, wrap64, ◌+ℤ◌, ◌-ℤ◌, int64_half}
use openrails.Base.Sql.{update_where, find_where, select_where, order_by, insert_row}
use openrails.Credits.Model.{
  CreditType, UserCreditBalance, CreditTransaction, CreditBlock, Store, UserId, Uuid,
}
use openrails.Credits.Balance.{
  lock_balance, set_balance, set_held_balance, use_blocks, withdraw_available,
  withdraw_balance_and_blocks,
}
use openrails.Credits.Service.{
  Ids, get_credit_type_by_name, check_amount_and_type, CreditDepositParams, deposit_tx,
  CreditWithdrawParams, withdrawal_row, withdraw_tx, withdraw_credits,
}
use openrails.Credits.Holds.{
  HoldParams, hold_row, reserve, finish_hold, hold_tx, hold_credits, get_transaction, check_open,
  open_hold, unreserve, captured_row, capture_open, capture_hold, released_row, release_hold,
}
use openrails.Credits.Accounts.{balance_of, held_of}
use openrails.Credits.Blocks.{block_total}
use openrails.Credits.Invariant.{IsSound, KeySound, held_total}
use openrails.Credits.Deposits.{Fresh, deposit_tx-IsSound}
use openrails.Credits.Withdrawals.{withdraw_credits-IsSound}
use openrails.Credits.Once.{deposit_tx_once, hold_tx_once}
use openrails.Credits.Ended.{Ended, capture_hold-Ended, release_hold-Ended}
use openrails.Credits.Captures.{Released, capture_hold-IsSound, release_hold-IsSound}
use openrails.Credits.Holding.{hold_credits-IsSound}

abbrev gold : CreditType
gold = record {
  id = 3;
  name = 2;
  display_name = 4;
  unit = 5;
  decimal_places = pos 2;
  is_active = true;
  created_at = 1;
}

abbrev row : UserCreditBalance
row = record {
  id = 21;
  user_id = 1;
  credit_type_id = 3;
  balance = pos 100;
  held_balance = pos 0;
  created_at = 5;
  updated_at = 5;
}

abbrev block : CreditBlock
block = record {
  id = 31;
  user_id = 1;
  credit_type_id = 3;
  original_amount = pos 100;
  remaining_amount = pos 100;
  expires_at = none;
  source_transaction_id = none;
  created_at = 5;
}

-- User 1 has 100 credits.
abbrev store : Store
store = record {
  credit_types = gold ∷ [];
  balances = row ∷ [];
  transactions = [];
  blocks = block ∷ [];
}

store-KeySound : (u : UserId) (c : Uuid) → KeySound u c store
unfolding balance_of held_of block_total held_total find_where
store-KeySound u c = record {
  balance = ground arith;
  held = ground arith;
  backed = ground arith;
  reserved = ground arith;
}

store-IsSound : IsSound store
store-IsSound = record {
  amounts = ((refl, omega arith), tt);
  block_ids = (tt, tt);
  holds = tt;
  transaction_ids = tt;
  keys = store-KeySound;
}

abbrev ids : Ids
ids = record { balance = 22; transaction = 41; block = 32 }

store-Fresh : Fresh ids store
store-Fresh = record { block = (refl, tt); transaction = tt }

-- Fifty credits more, under the key 7.
abbrev top_up : CreditDepositParams
top_up = record {
  user_id = 1;
  credit_type = 2;
  amount = pos 50;
  source = 6;
  source_id = some 7;
  expires_at = some 90;
  description = none;
}

room : pos_part (balance_of 1 3 store) + 50 < int64_half
unfolding balance_of find_where
room = omega arith

deposit_tx-IsSound_example : IsSound (deposit_tx ids gold top_up 8 store).1
deposit_tx-IsSound_example =
    deposit_tx-IsSound ids gold top_up 8 store store-IsSound (refl, omega arith) room store-Fresh

deposit_tx_once_example :
    deposit_tx ids gold top_up 9 (deposit_tx ids gold top_up 8 store).1
    ≡ deposit_tx ids gold top_up 8 store
deposit_tx_once_example = deposit_tx_once ids ids gold top_up 8 9 store refl

-- Thirty credits are spent.
abbrev purchase : CreditWithdrawParams
purchase = record { user_id = 1; credit_type = 2; amount = pos 30; source = 6; source_id = none }

abbrev spent : Store
spent = record store {
  balances = record row { balance = pos 70; updated_at = 8 } ∷ [];
  transactions = withdrawal_row 41 3 purchase (pos 70) 8 ∷ [];
  blocks = record block { remaining_amount = pos 70 } ∷ [];
}

spend : withdraw_credits ids purchase 8 store ≡ ok (withdrawal_row 41 3 purchase (pos 70) 8, spent)
unfolding withdraw_credits check_amount_and_type get_credit_type_by_name withdraw_tx
    withdraw_balance_and_blocks withdraw_available lock_balance set_balance use_blocks find_where
    select_where order_by insert_row update_where sub64 ◌-ℤ◌ wrap64
spend = refl

withdraw_credits-IsSound_example :
    IsSound spent
    × (pos_part (balance_of 1 3 spent) + 30 ≡ pos_part (balance_of 1 3 store))
    × (held_of 1 3 spent ≡ held_of 1 3 store)
    × (pos_part (held_of 1 3 store) ≤ pos_part (balance_of 1 3 spent))
withdraw_credits-IsSound_example =
    withdraw_credits-IsSound ids purchase 8 store store-IsSound (omega arith) store-Fresh spend

-- Forty credits are held.
abbrev pub reservation : HoldParams
reservation = record {
  user_id = 1;
  credit_type = 2;
  amount = pos 40;
  source = 6;
  source_id = 9;
  expires_at = 60;
}

abbrev pub held : Store
held = record store {
  balances = record row { held_balance = pos 40; updated_at = 8 } ∷ [];
  transactions = hold_row 41 3 reservation 8 ∷ [];
}

place : hold_credits ids reservation 8 store ≡ ok (hold_row 41 3 reservation 8, held)
unfolding hold_credits check_amount_and_type get_credit_type_by_name hold_tx finish_hold reserve
    lock_balance set_held_balance find_where update_where add64 sub64 ◌+ℤ◌ ◌-ℤ◌ wrap64
place = refl

hold_credits-IsSound_example : IsSound held
hold_credits-IsSound_example =
    hold_credits-IsSound ids reservation 8 store store-IsSound (omega arith) store-Fresh place

place_tx : hold_tx ids 3 reservation 8 store ≡ ok (hold_row 41 3 reservation 8, held)
unfolding hold_tx finish_hold reserve lock_balance set_held_balance find_where update_where add64
    sub64 ◌+ℤ◌ ◌-ℤ◌ wrap64
place_tx = refl

hold_tx_once_example : hold_tx ids 3 reservation 9 held ≡ ok (hold_row 41 3 reservation 8, held)
hold_tx_once_example = hold_tx_once ids ids 3 reservation 8 9 store place_tx

held-KeySound : (u : UserId) (c : Uuid) → KeySound u c held
unfolding balance_of held_of block_total held_total find_where
held-KeySound u c = record {
  balance = ground arith;
  held = ground arith;
  backed = ground arith;
  reserved = ground arith;
}

pub held-IsSound : IsSound held
held-IsSound = record {
  amounts = ((refl, omega arith), tt);
  block_ids = (tt, tt);
  holds = ((refl, omega arith), tt);
  transaction_ids = (tt, tt);
  keys = held-KeySound;
}

-- Thirty of the forty are captured.
abbrev captured_hold : CreditTransaction
captured_hold = captured_row (hold_row 41 3 reservation 8) (pos 30) (pos 70) 12

abbrev charged : Store
charged = record store {
  balances = record row { balance = pos 70; held_balance = pos 0; updated_at = 12 } ∷ [];
  transactions = captured_hold ∷ [];
  blocks = record block { remaining_amount = pos 70 } ∷ [];
}

capture : capture_hold ids 41 (pos 30) 12 held ≡ ok (captured_hold, charged)
unfolding capture_hold open_hold get_transaction check_open capture_open unreserve lock_balance
    set_held_balance withdraw_balance_and_blocks withdraw_available set_balance use_blocks
    find_where select_where order_by insert_row update_where sub64 ◌-ℤ◌ wrap64
capture = refl

capture_hold-IsSound_example :
    IsSound charged
    × (pos_part (balance_of 1 3 charged) + 30 ≡ pos_part (balance_of 1 3 held))
    × (30 ≤ 40)
    × (pos_part (held_of 1 3 charged) ≤ pos_part (balance_of 1 3 charged))
capture_hold-IsSound_example = capture_hold-IsSound ids 41 (pos 30) 12 held held-IsSound capture

capture_hold-Ended_example : Ended 41 charged
capture_hold-Ended_example = capture_hold-Ended ids 41 (pos 30) 12 held capture

-- The hold is released.
abbrev freed : Store
freed = record store {
  balances = record row { held_balance = pos 0; updated_at = 12 } ∷ [];
  transactions = released_row (hold_row 41 3 reservation 8) 12 ∷ [];
}

release : release_hold ids 41 12 held ≡ ok freed
unfolding release_hold open_hold get_transaction check_open unreserve lock_balance set_held_balance
    find_where update_where sub64 ◌-ℤ◌ wrap64
release = refl

release_hold-IsSound_example :
    IsSound freed
    × ((u : UserId) (c : Uuid) → balance_of u c freed ≡ balance_of u c held)
    × Released 41 12 held freed
release_hold-IsSound_example = release_hold-IsSound ids 41 12 held held-IsSound release

release_hold-Ended_example : Ended 41 freed
release_hold-Ended_example = release_hold-Ended ids 41 12 held release
