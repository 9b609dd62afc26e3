-- ===== src/Credits/Holding.antt =====
-- internal/modules/credits/credits_service.go: `Hold` and the soundness of the credit tables.
use mathlib.Core.Path.{subst₂}
use openrails.Base.{
  ◌+◌, ◌≤◌, ◌<◌, ◌≡◌, refl, sym, subst, ap, ◌∙◌, inl, inr, false, some, ◌∷◌, ◌==◌, if◌then◌else◌,
  arith, Option-cases, Bool-cases, Result, ok, ok-injective, >>=-eq-ok, All,
}
use openrails.Base.Int.{pos_part, sub64, add64, int64_half, ltb_ℤ}
use openrails.Base.Sql.{find_where}
use openrails.Credits.Model.{
  Time, UserId, Uuid, CreditTransaction, UserCreditBalance, Store, Error, is_hold,
}
use openrails.Credits.Balance.{set_held_balance, lock_balance}
use openrails.Credits.Service.{Ids, check_amount_and_type, has_source, add_transaction}
use openrails.Credits.Holds.{HoldParams, hold_row, reserve, finish_hold, hold_tx, hold_credits}
use openrails.Credits.Accounts.{
  row_of, same_key, balance_of, held_of, balance_of_same, held_of_same, held_of-set_held_balance,
  balance_of-set_held_balance, set_held_balance_tables, lock_balance-Locked,
}
use openrails.Credits.Blocks.{IsAmount}
use openrails.Credits.Withdraw.{available_test}
use openrails.Credits.Invariant.{IsSound, KeySound, held_total, same_key-eq}
use openrails.Credits.Deposits.{Fresh, add64_amount, Locked-IsSound}
use openrails.Credits.Withdrawals.{check_amount-ok, positive_amount}

module _ (id c : Uuid) (p : HoldParams) (now : Time) (bal : UserCreditBalance) (s : Store)
    (row : row_of p.user_id c s ≡ some bal) (amount : IsAmount p.amount) (sound : IsSound s)
    (same_b : bal.balance ≡ balance_of p.user_id c s)
    (same_h : bal.held_balance ≡ held_of p.user_id c s)
    (enough : ltb_ℤ (sub64 bal.balance bal.held_balance) p.amount ≡ false)
    (fresh : All (λ (r : CreditTransaction). (id == r.id) ≡ false) s.transactions) where
  unfoldable held_store : Store
  held_store =
      add_transaction (hold_row id c p now)
        (set_held_balance p.user_id c (add64 bal.held_balance p.amount) now s)

  new_balance : (u : UserId) (d : Uuid) → balance_of u d held_store ≡ balance_of u d s
  unfolding held_store
  new_balance u d =
      balance_of_same u d (set_held_balance p.user_id c (add64 bal.held_balance p.amount) now s)
        held_store refl
      ∙ balance_of-set_held_balance p.user_id c (add64 bal.held_balance p.amount) now s row u d

  new_held :
      (u : UserId) (d : Uuid)
      → held_of u d held_store
        ≡ (if same_key p.user_id c u d then add64 bal.held_balance p.amount else held_of u d s)
  unfolding held_store
  new_held u d =
      held_of_same u d (set_held_balance p.user_id c (add64 bal.held_balance p.amount) now s)
        held_store refl
      ∙ held_of-set_held_balance p.user_id c (add64 bal.held_balance p.amount) now s row u d

  new_blocks : held_store.blocks ≡ s.blocks
  unfolding held_store
  new_blocks = (set_held_balance_tables p.user_id c (add64 bal.held_balance p.amount) now s).0

  new_transactions : held_store.transactions ≡ hold_row id c p now ∷ s.transactions
  unfolding held_store
  new_transactions =
      ap (λ t. hold_row id c p now ∷ t)
        (set_held_balance_tables p.user_id c (add64 bal.held_balance p.amount) now s).1

  new_total :
      (u : UserId) (d : Uuid)
      → held_total u d held_store.transactions
        ≡ (if same_key p.user_id c u d then pos_part p.amount else 0)
          + held_total u d s.transactions
  unfolding held_total
  new_total u d = rw new_transactions (ground arith)

  fits : pos_part p.amount + pos_part (held_of p.user_id c s) ≤ pos_part (balance_of p.user_id c s)
  fits =
      let k = sound.keys p.user_id c in
      available_test (balance_of p.user_id c s) (held_of p.user_id c s) p.amount k.balance k.held
        amount (subst₂ (λ x y. ltb_ℤ (sub64 x y) p.amount ≡ false) same_b same_h enough)

  grown :
      IsAmount (add64 bal.held_balance p.amount)
      × (pos_part (add64 bal.held_balance p.amount)
          ≡ pos_part (held_of p.user_id c s) + pos_part p.amount)
  grown =
      let k = sound.keys p.user_id c in
      subst
        (λ x.
          IsAmount (add64 x p.amount)
          × (pos_part (add64 x p.amount) ≡ pos_part (held_of p.user_id c s) + pos_part p.amount))
        (sym same_h)
        (add64_amount (held_of p.user_id c s) p.amount k.held amount
          (omega (arith, fits, k.balance.1)))

  new_key : (u : UserId) (d : Uuid) → KeySound u d held_store
  new_key u d = elim (Bool-cases (same_key p.user_id c u d)) [
    | inl own ↦
        let (eu, ec) = same_key-eq p.user_id c u d own in
        let k = sound.keys p.user_id c in
        let e : held_of u d held_store ≡ add64 bal.held_balance p.amount =
          new_held u d ∙ (rw own) in
        let t : held_total u d held_store.transactions
            ≡ pos_part p.amount + held_total p.user_id c s.transactions =
          new_total u d ∙ (rw (own, eu, ec)) in
        record {
          balance = rw (new_balance u d) (sound.keys u d).balance;
          held = rw e grown.0;
          backed = rw (new_balance u d, new_blocks) (sound.keys u d).backed;
          reserved = rw (e, t) (omega (arith, grown.1, k.reserved));
        }
    | inr other ↦
        let e : held_of u d held_store ≡ held_of u d s = new_held u d ∙ (rw other) in
        let t : held_total u d held_store.transactions ≡ held_total u d s.transactions =
          new_total u d ∙ (rw other (omega arith)) in
        record {
          balance = rw (new_balance u d) (sound.keys u d).balance;
          held = rw e (sound.keys u d).held;
          backed = rw (new_balance u d, new_blocks) (sound.keys u d).backed;
          reserved = rw (e, t) (sound.keys u d).reserved;
        }
  ]

  held_store-Reserved :
      IsSound held_store
      × (pos_part (held_of p.user_id c held_store) ≤ pos_part (balance_of p.user_id c held_store))
  held_store-Reserved =
      let e : held_of p.user_id c held_store ≡ add64 bal.held_balance p.amount =
        new_held p.user_id c ∙ (ground arith) in
      (
        record {
          amounts = rw new_blocks sound.amounts;
          block_ids = rw new_blocks sound.block_ids;
          holds = rw new_transactions (amount, sound.holds);
          transaction_ids = rw new_transactions (fresh, sound.transaction_ids);
          keys = new_key;
        },
        rw (e, new_balance p.user_id c) (omega (arith, grown.1, fits)),
      )

module _ (ids : Ids) (c : Uuid) (p : HoldParams) (now : Time) (s : Store) (sound : IsSound s)
    (amount : IsAmount p.amount) (fresh : Fresh ids s) where
  abbrev locked : UserCreditBalance × Store
  locked = lock_balance p.user_id c ids.balance now s

  abbrev Covered : Store → Type 0
  Covered x = IsSound x × (pos_part (held_of p.user_id c x) ≤ pos_part (balance_of p.user_id c x))

  reserve-Covered :
      {r : CreditTransaction} {s' : Store}
      → reserve ids.transaction c p now locked.0 locked.1 ≡ ok (r, s')
      → Covered s'
  unfolding reserve held_store
  reserve-Covered {r} {s'} h =
      elim (Bool-cases (ltb_ℤ (sub64 locked.0.balance locked.0.held_balance) p.amount)) [
        | inl short ↦ absurd (ground arith)
        | inr enough ↦
            let l = lock_balance-Locked p.user_id c ids.balance now s in
            subst Covered (ap (λ x. x.1) (ok-injective (rw enough at h))) (
              held_store-Reserved ids.transaction c p now locked.0 locked.1 l.row amount
                (Locked-IsSound p.user_id c s locked.0 locked.1 l sound)
                (l.balance ∙ sym (l.balances p.user_id c)) (l.held ∙ sym (l.helds p.user_id c))
                enough (rw l.transactions fresh.transaction))
      ]

  hold_tx-IsSound :
      {r : CreditTransaction} {s' : Store} → hold_tx ids c p now s ≡ ok (r, s') → IsSound s'
  unfolding hold_tx finish_hold
  hold_tx-IsSound {r} {s'} h =
      elim (Option-cases
        (find_where (has_source is_hold p.user_id c p.source p.source_id) s.transactions)) [
          | inl new ↦ (reserve-Covered (rw new at h)).0
          | inr (e, found) ↦
              let same : ◌≡◌ {A = Result Error (CreditTransaction × Store)} (ok (e, s))
                  (ok (r, s')) =
                rw found at h in
              subst IsSound (ap (λ x. x.1) (ok-injective same)) sound
        ]

-- Hold keeps the credit tables sound: the held balance stays exactly what the active holds reserve.
-- The amount fits an int64 and the new row's identifier is fresh.
pub hold_credits-IsSound :
    (ids : Ids) (p : HoldParams) (now : Time) (s : Store) {r : CreditTransaction} {s' : Store}
    → IsSound s
    → pos_part p.amount < int64_half
    → Fresh ids s
    → hold_credits ids p now s ≡ ok (r, s')
    → IsSound s'
unfolding hold_credits
hold_credits-IsSound ids p now s {r} {s'} sound int64 fresh h =
    let (ct, checked, rest) = >>=-eq-ok (check_amount_and_type p.amount p.credit_type s) _ h in
    let positive =
      positive_amount p.amount int64 (check_amount-ok p.amount p.credit_type s checked).0 in
    hold_tx-IsSound ids ct.id p now s sound positive.0 fresh rest
