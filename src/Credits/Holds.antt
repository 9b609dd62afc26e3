-- ===== src/Credits/Holds.antt =====
-- internal/modules/credits/credits_service.go: `Hold`, `CaptureHold` and `ReleaseHold`.
use openrails.Base.{
  not, ◌||◌, Option, none, some, ◌==◌, if◌then◌else◌, Result, ok, err, ◌>>=◌, ◌>>◌, refuse_if,
  or_error,
}
use openrails.Base.Int.{ℤ, pos, ltb_ℤ, leb_ℤ, add64, sub64}
use openrails.Base.Sql.{update_where, find_where}
use openrails.Credits.Model.{
  Time, UserId, Uuid, Text, UserCreditBalance, hold, active, captured, released, CreditTransaction,
  Store, Error, no_rows, insufficient_credits, not_a_hold, hold_not_active, hold_without_amount,
  bad_capture_amount, is_hold, is_active_status,
}
use openrails.Credits.Balance.{lock_balance, set_held_balance, withdraw_balance_and_blocks}
use openrails.Credits.Service.{Ids, check_amount_and_type, has_source, add_transaction}

pub record HoldParams : Type 0 where
  pub user_id : UserId
  pub credit_type : Text
  pub amount : ℤ
  pub source : Text
  pub source_id : Text
  pub expires_at : Time

abbrev pub hold_row : Uuid → Uuid → HoldParams → Time → CreditTransaction
hold_row id c p now = record {
  id = id;
  user_id = p.user_id;
  credit_type_id = c;
  amount = pos 0;
  balance_after = none;
  transaction_type = hold;
  status = active;
  authorized = some p.amount;
  captured = none;
  source = p.source;
  source_id = some p.source_id;
  expires_at = some p.expires_at;
  description = none;
  created_at = now;
  updated_at = now;
}

-- The reservation, once no hold has the key: it needs the amount among the credits not held yet.
unfoldable pub reserve :
    Uuid
    → Uuid
    → HoldParams
    → Time
    → UserCreditBalance
    → Store
    → Result Error (CreditTransaction × Store)
reserve id c p now bal s =
    let h = hold_row id c p now in
    let s' = set_held_balance p.user_id c (add64 bal.held_balance p.amount) now s in
    if ltb_ℤ (sub64 bal.balance bal.held_balance) p.amount
    then err insufficient_credits
    else ok (h, add_transaction h s')

-- An earlier hold under the key is returned as it is; the transaction is not committed then.
unfoldable pub finish_hold :
    Uuid
    → Uuid
    → HoldParams
    → Time
    → Store
    → UserCreditBalance × Store
    → Option CreditTransaction
    → Result Error (CreditTransaction × Store)
finish_hold id c p now s locked (some existing) = ok (existing, s)
finish_hold id c p now s (bal, s') none = reserve id c p now bal s'

unfoldable pub hold_tx :
    Ids → Uuid → HoldParams → Time → Store → Result Error (CreditTransaction × Store)
hold_tx ids c p now s =
    finish_hold ids.transaction c p now s (lock_balance p.user_id c ids.balance now s)
      (find_where (has_source is_hold p.user_id c p.source p.source_id) s.transactions)

-- `Hold`
unfoldable pub hold_credits :
    Ids → HoldParams → Time → Store → Result Error (CreditTransaction × Store)
hold_credits ids p now s = do
  ct ← check_amount_and_type p.amount p.credit_type s
  hold_tx ids ct.id p now s

abbrev pub authorized_amount : Option ℤ → Result Error ℤ
authorized_amount none = err hold_without_amount
authorized_amount (some a) = if leb_ℤ a (pos 0) then err hold_without_amount else ok a

unfoldable pub get_transaction : Uuid → Store → Result Error CreditTransaction
get_transaction id s = or_error (find_where (λ r. r.id == id) s.transactions) no_rows

-- The checks that `CaptureHold` and `ReleaseHold` share, on the row that was read.
unfoldable pub check_open : CreditTransaction → Result Error (CreditTransaction × ℤ)
check_open h = do
  refuse_if (not (is_hold h.transaction_type)) not_a_hold
  refuse_if (not (is_active_status h.status)) hold_not_active
  a ← authorized_amount h.authorized
  ok (h, a)

unfoldable pub open_hold : Uuid → Store → Result Error (CreditTransaction × ℤ)
open_hold id s = get_transaction id s >>= check_open

-- `UPDATE … WHERE id = ?` of one ledger row.
abbrev pub save_transaction : CreditTransaction → Store → Store
save_transaction r s = record s {
  transactions = update_where (λ x. x.id == r.id) (λ _. r) s.transactions;
}

-- What leaves the held balance when a hold ends.
unfoldable pub unreserve : UserId → Uuid → ℤ → Uuid → Time → Store → Store
unreserve u c authorized id now s =
    let (bal, s') = lock_balance u c id now s in
    set_held_balance u c (sub64 bal.held_balance authorized) now s'

abbrev pub captured_row : CreditTransaction → ℤ → ℤ → Time → CreditTransaction
captured_row h amount new_balance now = record h {
  status = captured;
  captured = some amount;
  amount = sub64 (pos 0) amount;
  balance_after = some new_balance;
  updated_at = now;
}

unfoldable pub capture_open :
    Ids → CreditTransaction → ℤ → ℤ → Time → Store → Result Error (CreditTransaction × Store)
capture_open ids h authorized amount now s = do
  refuse_if (leb_ℤ amount (pos 0) || ltb_ℤ authorized amount) bad_capture_amount
  withdraw_balance_and_blocks h.user_id h.credit_type_id amount ids.balance now
        (unreserve h.user_id h.credit_type_id authorized ids.balance now s)
      >>= λ (new_balance, s').
          let h' = captured_row h amount new_balance now in ok (h', save_transaction h' s')

-- `CaptureHold`: the held amount is given back and the actual amount withdrawn.
unfoldable pub capture_hold :
    Ids → Uuid → ℤ → Time → Store → Result Error (CreditTransaction × Store)
capture_hold ids hold_id amount now s =
    open_hold hold_id s >>= λ (h, authorized). capture_open ids h authorized amount now s

abbrev pub released_row : CreditTransaction → Time → CreditTransaction
released_row h now = record h { status = released; updated_at = now }

-- `ReleaseHold`
unfoldable pub release_hold : Ids → Uuid → Time → Store → Result Error Store
release_hold ids hold_id now s = open_hold hold_id s >>= λ (h, authorized). ok (
    save_transaction (released_row h now)
      (unreserve h.user_id h.credit_type_id authorized ids.balance now s))
