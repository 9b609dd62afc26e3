-- ===== src/Credits/Deposits.antt =====
-- internal/modules/credits/credits_service.go: `Deposit` and the soundness of the credit tables.
use openrails.Base.{
  ◌+◌, ◌<◌, ◌≡◌, refl, sym, ◌∙◌, inl, inr, false, Option, none, some, ◌∷◌, ◌==◌, if◌then◌else◌,
  arith, Bool-cases, All,
}
use openrails.Base.Int.{ℤ, pos, pos_part, int64_half, add64, ◌+ℤ◌, wrap64}
use openrails.Credits.Model.{
  Time, UserId, Uuid, CreditType, CreditBlock, CreditTransaction, UserCreditBalance, Store,
}
use openrails.Credits.Balance.{set_balance, lock_balance}
use openrails.Credits.Service.{
  Ids, CreditDepositParams, earlier_deposit, deposit_row, deposit_block, post_deposit,
  finish_deposit, deposit_tx,
}
use openrails.Credits.Accounts.{
  same_key, balance_of, held_of, row_of, balance_of-set_balance, held_of-set_balance,
  balance_of_same, held_of_same, Locked, lock_balance-Locked,
}
use openrails.Credits.Blocks.{IsAmount, block_total}
use openrails.Credits.Invariant.{IsSound, KeySound, held_total, same_key-eq}

pub add64_amount :
    (a b : ℤ)
    → IsAmount a
    → IsAmount b
    → pos_part a + pos_part b < int64_half
    → IsAmount (add64 a b) × (pos_part (add64 a b) ≡ pos_part a + pos_part b)
unfolding add64 ◌+ℤ◌ wrap64
add64_amount (pos a) (pos b) ha hb room = ground arith
add64_amount _ _ ha hb room = absurd (ground arith)

-- The balance row alone: locking keeps the tables sound.
pub Locked-IsSound :
    (u : UserId) (c : Uuid) (s : Store) (bal : UserCreditBalance) (s' : Store)
    → Locked u c s bal s'
    → IsSound s
    → IsSound s'
Locked-IsSound u c s bal s' l h = record {
  amounts = rw l.blocks h.amounts;
  block_ids = rw l.blocks h.block_ids;
  holds = rw l.transactions h.holds;
  transaction_ids = rw l.transactions h.transaction_ids;
  keys = λ u' c'. record {
    balance = rw (l.balances u' c') (h.keys u' c').balance;
    held = rw (l.helds u' c') (h.keys u' c').held;
    backed = rw (l.balances u' c', l.blocks) (h.keys u' c').backed;
    reserved = rw (l.helds u' c', l.transactions) (h.keys u' c').reserved;
  };
}

-- Identifiers that no row has yet.
pub record Fresh (ids : Ids) (s : Store) : Type 0 where
  pub block : All (λ (b : CreditBlock). (ids.block == b.id) ≡ false) s.blocks
  pub transaction :
      All (λ (r : CreditTransaction). (ids.transaction == r.id) ≡ false) s.transactions

module _ (ids : Ids) (c : Uuid) (p : CreditDepositParams) (now : Time) (bal : UserCreditBalance)
    (s : Store) (row : row_of p.user_id c s ≡ some bal) (positive : IsAmount p.amount)
    (sound : IsSound s) (room : pos_part bal.balance + pos_part p.amount < int64_half)
    (same : bal.balance ≡ balance_of p.user_id c s) where
  abbrev posted_store : Store
  posted_store = (post_deposit ids c p now bal s).1

  posted_balance :
      (u : UserId) (d : Uuid)
      → balance_of u d posted_store
        ≡ (if same_key p.user_id c u d then add64 bal.balance p.amount else balance_of u d s)
  unfolding post_deposit
  posted_balance u d =
      balance_of_same u d (set_balance p.user_id c (add64 bal.balance p.amount) now s) _ refl
      ∙ balance_of-set_balance p.user_id c (add64 bal.balance p.amount) now s row u d

  posted_held : (u : UserId) (d : Uuid) → held_of u d posted_store ≡ held_of u d s
  unfolding post_deposit
  posted_held u d =
      held_of_same u d (set_balance p.user_id c (add64 bal.balance p.amount) now s) _ refl
      ∙ held_of-set_balance p.user_id c (add64 bal.balance p.amount) now s row u d

  posted_blocks : posted_store.blocks ≡ deposit_block ids c p now ∷ s.blocks
  unfolding post_deposit set_balance
  posted_blocks = refl

  posted_transactions :
      posted_store.transactions
      ≡ deposit_row ids c p (add64 bal.balance p.amount) now ∷ s.transactions
  unfolding post_deposit set_balance
  posted_transactions = refl

  posted_total :
      (u : UserId) (d : Uuid)
      → block_total u d posted_store.blocks ≡ (
          if same_key p.user_id c u d
          then pos_part p.amount + block_total u d s.blocks
          else block_total u d s.blocks)
  unfolding block_total
  posted_total u d = rw posted_blocks (ground arith)

  posted_reserved :
      (u : UserId) (d : Uuid)
      → held_total u d posted_store.transactions ≡ held_total u d s.transactions
  unfolding held_total
  posted_reserved u d = rw posted_transactions (ground arith)

  posted_key : (u : UserId) (d : Uuid) → KeySound u d posted_store
  posted_key u d = elim (Bool-cases (same_key p.user_id c u d)) [
    | inl own ↦
        let (eu, ec) = same_key-eq p.user_id c u d own in
        let b : IsAmount bal.balance = rw same (sound.keys p.user_id c).balance in
        let (na, ne) = add64_amount bal.balance p.amount b positive room in
        let e : balance_of u d posted_store ≡ add64 bal.balance p.amount =
          posted_balance u d ∙ (rw own) in
        let t : block_total u d posted_store.blocks ≡ pos_part p.amount + block_total u d s.blocks =
          posted_total u d ∙ (rw own) in
        record {
          balance = rw e na;
          held = rw (posted_held u d) (sound.keys u d).held;
          backed = rw (e, t, ne, same, eu, ec) (omega (arith, (sound.keys p.user_id c).backed));
          reserved = rw (posted_held u d, posted_reserved u d) (sound.keys u d).reserved;
        }
    | inr other ↦
        let e : balance_of u d posted_store ≡ balance_of u d s = posted_balance u d ∙ (rw other) in
        let t : block_total u d posted_store.blocks ≡ block_total u d s.blocks =
          posted_total u d ∙ (rw other) in
        record {
          balance = rw e (sound.keys u d).balance;
          held = rw (posted_held u d) (sound.keys u d).held;
          backed = rw (e, t) (sound.keys u d).backed;
          reserved = rw (posted_held u d, posted_reserved u d) (sound.keys u d).reserved;
        }
  ]

  post_deposit-IsSound : Fresh ids s → IsSound posted_store
  post_deposit-IsSound fresh = record {
    amounts = rw posted_blocks (positive, sound.amounts);
    block_ids = rw posted_blocks (fresh.block, sound.block_ids);
    holds = rw posted_transactions (omega arith, sound.holds);
    transaction_ids = rw posted_transactions (fresh.transaction, sound.transaction_ids);
    keys = posted_key;
  }

-- depositTx keeps the credit tables sound, whether it posts the deposit or finds an earlier one.
-- The amount is not negative, the balance has room for it in an int64, and the new rows'
-- identifiers are fresh.
pub deposit_tx-IsSound :
    (ids : Ids) (ct : CreditType) (p : CreditDepositParams) (now : Time) (s : Store)
    → IsSound s
    → IsAmount p.amount
    → pos_part (balance_of p.user_id ct.id s) + pos_part p.amount < int64_half
    → Fresh ids s
    → IsSound (deposit_tx ids ct p now s).1
unfolding deposit_tx finish_deposit
deposit_tx-IsSound ids ct p now s sound positive room fresh =
    posted (earlier_deposit ct.id p locked.1)
  where
    locked : UserCreditBalance × Store
    locked = lock_balance p.user_id ct.id ids.balance now s

    l : Locked p.user_id ct.id s locked.0 locked.1
    l = lock_balance-Locked p.user_id ct.id ids.balance now s

    after : IsSound locked.1
    after = Locked-IsSound p.user_id ct.id s locked.0 locked.1 l sound

    still : Fresh ids locked.1
    still = record {
      block = rw l.blocks fresh.block;
      transaction = rw l.transactions fresh.transaction;
    }

    posted : (o : Option CreditTransaction) → IsSound (finish_deposit ids ct.id p now locked o).1
    posted (some existing) = after
    posted none =
        post_deposit-IsSound ids ct.id p now locked.0 locked.1 l.row positive after
          (rw l.balance room) (l.balance ∙ sym (l.balances p.user_id ct.id)) still
