-- ===== src/Credits/Backed.antt =====
-- internal/river/jobs_credit_expiry.go: the loop over the map takes the sums off the balances.
use openrails.Base.{
  ◌+◌, ◌-◌, ◌≤◌, ◌≡◌, refl, sym, subst, ◌∙◌, inl, inr, true, List, [], ◌∷◌, if◌then◌else◌, arith,
  Bool-cases, All, ap,
}
use openrails.Base.Int.{ℤ, pos, pos_part, leb_ℤ, sub64, ◌-ℤ◌, wrap64}
use openrails.Credits.Model.{Time, UserId, Uuid, UserCreditBalance, Store}
use openrails.Credits.Balance.{lock_balance, set_balance}
use openrails.Credits.Service.{add_transaction}
use openrails.Credits.Accounts.{
  same_key, balance_of, held_of, balance_of-set_balance, held_of-set_balance, balance_of_same,
  held_of_same, set_balance_tables, Locked, lock_balance-Locked,
}
use openrails.Credits.Blocks.{IsAmount, block_total, OkBlock, UniqueBlocks}
use openrails.Credits.Invariant.{held_total, same_key-eq}
use openrails.Credits.Withdrawals.{add-held_total}
use openrails.Credits.Expiry.{KeyTotal, Round, floor_zero, expiry_row, expire_key, expire_keys}
use openrails.Credits.Totals.{pending, OkTotal}

-- The credit tables with the sums that are still to come off the balances.
pub record KeyBacked (u : UserId) (c : Uuid) (ks : List KeyTotal) (s : Store) : Type 0 where
  pub balance : IsAmount (balance_of u c s)
  pub held : IsAmount (held_of u c s)
  pub backed : pos_part (balance_of u c s) ≤ block_total u c s.blocks + pending u c ks
  pub reserved : pos_part (held_of u c s) ≡ held_total u c s.transactions

pub record IsBacked (ks : List KeyTotal) (s : Store) : Type 0 where
  pub amounts : All OkBlock s.blocks
  pub block_ids : UniqueBlocks s.blocks
  pub keys : (u : UserId) (c : Uuid) → KeyBacked u c ks s

pub floor_zero-amount :
    (a b : ℤ)
    → IsAmount a
    → IsAmount b
    → IsAmount (floor_zero (sub64 a b))
      × (pos_part (floor_zero (sub64 a b)) ≡ pos_part a - pos_part b)
unfolding sub64 ◌-ℤ◌ wrap64
floor_zero-amount (pos a) (pos b) ha hb = ground arith
floor_zero-amount _ _ ha hb = absurd (ground arith)

module _ (r : Round) (now : Time) (k : KeyTotal) (ks : List KeyTotal) (s : Store)
    (b : IsBacked (k ∷ ks) s) (ok_k : OkTotal k) where
  abbrev locked : UserCreditBalance × Store
  locked = lock_balance k.user_id k.credit_type_id (r.ids k.user_id k.credit_type_id).balance now s

  abbrev left : ℤ
  left = floor_zero (sub64 locked.0.balance k.amount)

  abbrev debited : Store
  debited =
      add_transaction (expiry_row (r.ids k.user_id k.credit_type_id).transaction k left now)
        (set_balance k.user_id k.credit_type_id left now locked.1)

  l : Locked k.user_id k.credit_type_id s locked.0 locked.1
  l = lock_balance-Locked k.user_id k.credit_type_id _ now s

  debited_balance :
      (u : UserId) (c : Uuid)
      → balance_of u c debited
        ≡ (if same_key k.user_id k.credit_type_id u c then left else balance_of u c s)
  debited_balance u c =
      balance_of_same u c (set_balance k.user_id k.credit_type_id left now locked.1) debited refl
      ∙ balance_of-set_balance k.user_id k.credit_type_id left now locked.1 l.row u c
      ∙ ap (λ x. if same_key k.user_id k.credit_type_id u c then left else x) (l.balances u c)

  debited_held : (u : UserId) (c : Uuid) → held_of u c debited ≡ held_of u c s
  debited_held u c =
      held_of_same u c (set_balance k.user_id k.credit_type_id left now locked.1) debited refl
      ∙ held_of-set_balance k.user_id k.credit_type_id left now locked.1 l.row u c
      ∙ l.helds u c

  debited_blocks : debited.blocks ≡ s.blocks
  debited_blocks = (set_balance_tables k.user_id k.credit_type_id left now locked.1).0 ∙ l.blocks

  debited_total :
      (u : UserId) (c : Uuid) → held_total u c debited.transactions ≡ held_total u c s.transactions
  debited_total u c =
      add-held_total (expiry_row (r.ids k.user_id k.credit_type_id).transaction k left now)
        (set_balance k.user_id k.credit_type_id left now locked.1).transactions u c refl
      ∙ ap (held_total u c)
          ((set_balance_tables k.user_id k.credit_type_id left now locked.1).1 ∙ l.transactions)

  left_amount :
      IsAmount left
      × (pos_part left ≡ pos_part (balance_of k.user_id k.credit_type_id s) - pos_part k.amount)
  left_amount =
      subst
        (λ x.
          IsAmount (floor_zero (sub64 x k.amount))
          × (pos_part (floor_zero (sub64 x k.amount))
              ≡ pos_part (balance_of k.user_id k.credit_type_id s) - pos_part k.amount))
        (sym l.balance)
        (floor_zero-amount (balance_of k.user_id k.credit_type_id s) k.amount
          (b.keys k.user_id k.credit_type_id).balance ok_k)

  debited_key : (u : UserId) (c : Uuid) → KeyBacked u c ks debited
  unfolding pending
  debited_key u c = elim (Bool-cases (same_key k.user_id k.credit_type_id u c)) [
    | inl own ↦
        let (eu, ec) = same_key-eq k.user_id k.credit_type_id u c own in
        let e : balance_of u c debited ≡ left = debited_balance u c ∙ (rw own) in
        let f : pos_part left ≡ pos_part (balance_of u c s) - pos_part k.amount =
          rw (eu, ec) left_amount.1 in
        let h = (b.keys u c).backed in
        record {
          balance = rw e left_amount.0;
          held = rw (debited_held u c) (b.keys u c).held;
          backed = rw (e, debited_blocks) (ground (arith, f, h, own));
          reserved = rw (debited_held u c, debited_total u c) (b.keys u c).reserved;
        }
    | inr other ↦
        let e : balance_of u c debited ≡ balance_of u c s = debited_balance u c ∙ (rw other) in
        let h = (b.keys u c).backed in
        record {
          balance = rw e (b.keys u c).balance;
          held = rw (debited_held u c) (b.keys u c).held;
          backed = rw (e, debited_blocks) (ground (arith, h, other));
          reserved = rw (debited_held u c, debited_total u c) (b.keys u c).reserved;
        }
  ]

  -- A sum of zero changes nothing.
  skipped_key : leb_ℤ k.amount (pos 0) ≡ true → (u : UserId) (c : Uuid) → KeyBacked u c ks s
  unfolding pending
  skipped_key none u c =
      let h = (b.keys u c).backed in
      record {
        balance = (b.keys u c).balance;
        held = (b.keys u c).held;
        backed = ground (arith, h, none);
        reserved = (b.keys u c).reserved;
      }

  pub expire_key-IsBacked : IsBacked ks (expire_key r now k s)
  unfolding expire_key
  expire_key-IsBacked = elim (Bool-cases (leb_ℤ k.amount (pos 0))) [
    | inl none ↦
        rw none (record { amounts = b.amounts; block_ids = b.block_ids; keys = skipped_key none })
    | inr some_left ↦ rw some_left (record {
      amounts = rw debited_blocks b.amounts;
      block_ids = rw debited_blocks b.block_ids;
      keys = debited_key;
    })
  ]

pub expire_keys-IsBacked :
    (r : Round) (now : Time) (ks : List KeyTotal) (s : Store)
    → IsBacked ks s
    → All OkTotal ks
    → IsBacked [] (expire_keys r now ks s)
unfolding expire_keys
expire_keys-IsBacked r now [] s b h = b
expire_keys-IsBacked r now (k ∷ ks) s b h =
    expire_keys-IsBacked r now ks (expire_key r now k s) (expire_key-IsBacked r now k ks s b h.0)
      h.1
