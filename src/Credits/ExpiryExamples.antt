-- ===== src/Credits/ExpiryExamples.antt =====
-- The theorems on the expiry workers at concrete tables.
use mathlib.Core.List.Permᴰ
use openrails.Base.{ℕ, ◌<◌, ◌≡◌, refl, none, some, [], ◌∷◌, false, arith, All, ok}
use openrails.Base.Int.{pos}
use openrails.Base.Sql.{take, order_by, select_where, insert_row, find_where, count_where}
use openrails.Credits.Model.{UserCreditBalance, CreditBlock, Store, UserId, Uuid}
use openrails.Credits.Accounts.{balance_of, held_of}
use openrails.Credits.Blocks.{block_total}
use openrails.Credits.Invariant.{held_total}
use openrails.Credits.Expiry.{is_empty, fewer_than, Round, credit_expiry, is_expired_block}
use openrails.Credits.Totals.{pending}
use openrails.Credits.Backed.{IsBacked, KeyBacked}
use openrails.Credits.Invariant.{IsSound}
use openrails.Credits.Examples.{held, held-IsSound, reservation}
use openrails.Credits.Holds.{hold_row}
use openrails.Credits.Stuck.{hold_rounds_stuck}
use openrails.Credits.HoldExpiry.{expired_holds, hold_rounds, hold_expiry, is_expired_hold}
use openrails.Credits.FreedHolds.{Payable}
use openrails.Credits.HoldRounds.{hold_expiry-IsSound}
use openrails.Credits.Expire.{Fits, credit_expiry-IsBacked}

abbrev row : UserCreditBalance
row = record {
  id = 21;
  user_id = 1;
  credit_type_id = 3;
  balance = pos 100;
  held_balance = pos 0;
  created_at = 5;
  updated_at = 5;
}

-- Sixty credits expire at 50, forty never.
abbrev short_block : CreditBlock
short_block = record {
  id = 31;
  user_id = 1;
  credit_type_id = 3;
  original_amount = pos 60;
  remaining_amount = pos 60;
  expires_at = some 50;
  source_transaction_id = none;
  created_at = 5;
}

abbrev lasting_block : CreditBlock
lasting_block = record short_block {
  id = 32;
  original_amount = pos 40;
  remaining_amount = pos 40;
  expires_at = none;
}

abbrev store : Store
store = record {
  credit_types = [];
  balances = row ∷ [];
  transactions = [];
  blocks = short_block ∷ lasting_block ∷ [];
}

-- No row is locked, and the map is visited in the order in which it was filled.
abbrev round : ℕ → Round
round n = record {
  locked = λ id. false;
  visit = λ ks. ks;
  ids = λ u c. record { balance = 22; transaction = 41; block = 0 };
}

store-KeyBacked : (u : UserId) (c : Uuid) → KeyBacked u c [] store
unfolding balance_of held_of block_total held_total find_where pending
store-KeyBacked u c = record {
  balance = ground arith;
  held = ground arith;
  backed = ground arith;
  reserved = ground arith;
}

store-IsBacked : IsBacked [] store
store-IsBacked = record {
  amounts = ((refl, omega arith), ((refl, omega arith), tt));
  block_ids = ((refl, tt), (tt, tt));
  keys = store-KeyBacked;
}

store-Fits : Fits store
unfolding block_total
store-Fits u c = ground arith

one_due : count_where (is_expired_block 70) store.blocks < 2
unfolding count_where
one_due = omega arith

credit_expiry-IsBacked_example :
    (s' : Store) × (credit_expiry false round 2 (pos 1) 70 store ≡ some s') × IsBacked [] s'
credit_expiry-IsBacked_example =
    credit_expiry-IsBacked false round 2 (pos 1) 70 store (λ m ks. Permᴰ.refl ks) store-IsBacked
      store-Fits one_due

-- The hold of forty credits has expired at 70.
held-Payable : All Payable held.transactions
held-Payable = (refl, tt)

one_hold_due : count_where (is_expired_hold 70) held.transactions < 2
unfolding count_where
one_hold_due = omega arith

hold_expiry-IsSound_example :
    (s' : Store) × (hold_expiry false round 2 (pos 0) 70 held ≡ some (s', ok tt)) × IsSound s'
hold_expiry-IsSound_example =
    hold_expiry-IsSound false round 2 (pos 0) 70 held (λ m ks. Permᴰ.refl ks) held-IsSound
      held-Payable one_hold_due

-- A hold that was stored without an amount, and has expired at 70.
abbrev amountless : Store
amountless = record held {
  transactions = record (hold_row 41 3 reservation 8) { authorized = none } ∷ [];
}

found_again : is_empty (expired_holds (round 0) 1 70 amountless.transactions) ≡ false
unfolding expired_holds take order_by select_where insert_row
found_again = refl

full_again : fewer_than 1 (expired_holds (round 0) 1 70 amountless.transactions) ≡ false
unfolding expired_holds take order_by select_where insert_row fewer_than
full_again = refl

hold_rounds_stuck_example : hold_rounds round 9 1 70 amountless ≡ none
hold_rounds_stuck_example =
    hold_rounds_stuck round 9 1 70 amountless (refl, tt) (λ m. refl) (λ m. found_again)
      (λ m. full_again)
