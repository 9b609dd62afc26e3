-- ===== src/Credits/Withdrawals.antt =====
-- internal/modules/credits/credits_service.go: `Withdraw` and the soundness of the credit tables.
use mathlib.Core.Path.{subst₂}
use openrails.Base.{
  ◌+◌, ◌≤◌, ◌<◌, ◌≡◌, refl, sym, ap, ◌∙◌, inl, inr, true, false, List, ◌∷◌, arith, Bool-cases, All,
  ok, >>=-eq-ok,
}
use openrails.Base.Int.{ℤ, pos, pos_part, int64_half, leb_ℤ}
use openrails.Credits.Model.{Time, UserId, Uuid, Text, CreditType, CreditTransaction, Store}
use openrails.Credits.Balance.{withdraw_balance_and_blocks}
use openrails.Credits.Service.{
  Ids, CreditWithdrawParams, withdraw_tx, withdraw_credits, check_amount_and_type, withdrawal_row,
  add_transaction,
}
use openrails.Credits.Accounts.{balance_of, held_of, balance_of_same, held_of_same}
use openrails.Credits.Blocks.{IsAmount}
use openrails.Credits.Withdraw.{Withdrawn, withdraw-Withdrawn}
use openrails.Credits.Invariant.{
  IsSound, held_total, OkTransaction, OtherTransaction, is_open, Withdrawn-KeySound,
}
use openrails.Credits.Deposits.{Fresh}

pub check_amount-ok :
    (amount : ℤ) (name : Text) (s : Store) {ct : CreditType}
    → check_amount_and_type amount name s ≡ ok ct
    → (leb_ℤ amount (pos 0) ≡ false) × (ct.is_active ≡ true)
unfolding check_amount_and_type
check_amount-ok amount name s h = elim (Bool-cases (leb_ℤ amount (pos 0))) [
  | inl none_left ↦ absurd (ground arith)
  | inr positive ↦ (positive, ground arith)
]

pub positive_amount :
    (a : ℤ) → pos_part a < int64_half → leb_ℤ a (pos 0) ≡ false → IsAmount a × (0 < pos_part a)
positive_amount a h p = ground arith

-- A transaction that is no active hold reserves nothing.
pub add-held_total :
    (r : CreditTransaction) (rs : List CreditTransaction) (u : UserId) (c : Uuid)
    → is_open r ≡ false
    → held_total u c (r ∷ rs) ≡ held_total u c rs
unfolding held_total
add-held_total r rs u c h = ground arith

-- Adding a ledger row that is no active hold keeps the tables sound.
pub add_transaction-IsSound :
    (r : CreditTransaction) (s : Store)
    → is_open r ≡ false
    → OkTransaction r
    → All (OtherTransaction r) s.transactions
    → IsSound s
    → IsSound (add_transaction r s)
add_transaction-IsSound r s closed okr other h = record {
  amounts = h.amounts;
  block_ids = h.block_ids;
  holds = (okr, h.holds);
  transaction_ids = (other, h.transaction_ids);
  keys = λ u c. record {
    balance = rw (balance_of_same u c s (add_transaction r s) refl) (h.keys u c).balance;
    held = rw (held_of_same u c s (add_transaction r s) refl) (h.keys u c).held;
    backed = rw (balance_of_same u c s (add_transaction r s) refl) (h.keys u c).backed;
    reserved =
        rw
          (
            held_of_same u c s (add_transaction r s) refl,
            add-held_total r s.transactions u c closed,
          )
          (h.keys u c).reserved;
  };
}

pub Withdrawn-IsSound :
    (u : UserId) (c : Uuid) (amount : ℤ) (now : Time) (s : Store) (v : ℤ) (s' : Store)
    → IsSound s
    → Withdrawn u c amount now s v s'
    → IsSound s'
Withdrawn-IsSound u c amount now s v s' h w = record {
  amounts = w.blocks.amounts;
  block_ids = w.blocks.ids;
  holds = rw w.transactions h.holds;
  transaction_ids = rw w.transactions h.transaction_ids;
  keys = Withdrawn-KeySound u c amount now s v s' h.keys w;
}

module _ (ids : Ids) (p : CreditWithdrawParams) (now : Time) (s : Store) (sound : IsSound s)
    (int64 : pos_part p.amount < int64_half) (fresh : Fresh ids s) where
  withdraw_tx-cases :
      (c : Uuid) {r : CreditTransaction} {s' : Store}
      → leb_ℤ p.amount (pos 0) ≡ false
      → withdraw_tx ids c p now s ≡ ok (r, s')
      → (v : ℤ) × (mid : Store) × Withdrawn p.user_id c p.amount now s v mid
        × (r ≡ withdrawal_row ids.transaction c p v now)
        × (s' ≡ add_transaction (withdrawal_row ids.transaction c p v now) mid)
  unfolding withdraw_tx
  withdraw_tx-cases c positive h =
      let ((v, mid), e, rest) =
        >>=-eq-ok (withdraw_balance_and_blocks p.user_id c p.amount ids.balance now s) _ h in
      (
        v,
        mid,
        withdraw-Withdrawn p.user_id c p.amount now s (positive_amount p.amount int64 positive).0
            sound.amounts sound.block_ids (sound.keys p.user_id c).balance
            (sound.keys p.user_id c).held ids.balance e,
        ground arith,
        ground arith,
      )

  abbrev Debited : Uuid → Store → Type 0
  Debited c s' =
      IsSound s'
      × (pos_part (balance_of p.user_id c s') + pos_part p.amount
          ≡ pos_part (balance_of p.user_id c s))
      × (held_of p.user_id c s' ≡ held_of p.user_id c s)
      × (pos_part (held_of p.user_id c s) ≤ pos_part (balance_of p.user_id c s'))

  Withdrawn-Debited :
      (c : Uuid) (v : ℤ) (mid : Store)
      → Withdrawn p.user_id c p.amount now s v mid
      → (r : CreditTransaction) → r ≡ withdrawal_row ids.transaction c p v now
      → Debited c (add_transaction r mid)
  Withdrawn-Debited c v mid w r er =
      let b : balance_of p.user_id c (add_transaction r mid) ≡ v =
        balance_of_same p.user_id c mid (add_transaction r mid) refl
        ∙ w.balances p.user_id c
        ∙ (ground arith) in
      let hb : held_of p.user_id c (add_transaction r mid) ≡ held_of p.user_id c s =
        held_of_same p.user_id c mid (add_transaction r mid) refl ∙ w.helds p.user_id c in
      let other : All (OtherTransaction r) mid.transactions =
        rw (er, w.transactions) fresh.transaction in
      (
        add_transaction-IsSound r mid (rw er) (rw er (omega arith)) other
            (Withdrawn-IsSound p.user_id c p.amount now s v mid sound w),
        rw b w.debited,
        hb,
        rw b (omega (arith, w.available, w.debited)),
      )

  -- Withdraw keeps the credit tables sound (balances are amounts, blocks back the balance, the held
  -- balance is what the active holds reserve). The balance goes down by exactly the amount, the
  -- held balance stays, and the balance that is left still covers it. The amount fits an int64 and
  -- the new row's identifier is fresh.
  pub withdraw_credits-IsSound :
      {r : CreditTransaction} {s' : Store}
      → withdraw_credits ids p now s ≡ ok (r, s')
      → IsSound s'
        × (pos_part (balance_of p.user_id r.credit_type_id s') + pos_part p.amount
            ≡ pos_part (balance_of p.user_id r.credit_type_id s))
        × (held_of p.user_id r.credit_type_id s' ≡ held_of p.user_id r.credit_type_id s)
        × (pos_part (held_of p.user_id r.credit_type_id s)
            ≤ pos_part (balance_of p.user_id r.credit_type_id s'))
  unfolding withdraw_credits
  withdraw_credits-IsSound {r} {s'} h =
      let (ct, checked, rest) = >>=-eq-ok (check_amount_and_type p.amount p.credit_type s) _ h in
      let (v, mid, w, er, es) =
        withdraw_tx-cases ct.id (check_amount-ok p.amount p.credit_type s checked).0 rest in
      subst₂ Debited (ap (λ x. x.credit_type_id) (sym er)) (sym es)
        (Withdrawn-Debited ct.id v mid w (withdrawal_row ids.transaction ct.id p v now) refl)
