-- ===== src/Credits/Withdraw.antt =====
-- internal/modules/credits/credits_service.go: `withdrawBalanceAndBlocks`, its effect on the
-- balances and on the blocks.
use mathlib.Core.Path.{subst₂}
use openrails.Base.{
  ◌+◌, ◌≤◌, ◌≡◌, refl, ap, ◌∙◌, inl, inr, true, false, some, List, [], ◌∷◌, ◌==◌, if◌then◌else◌,
  arith, Bool-cases, All, All-imp, All-imp₂, Result, ok, ok-injective,
}
use openrails.Base.Int.{ℤ, pos, pos_part, sub64, ltb_ℤ, ◌-ℤ◌, wrap64}
use openrails.Base.Sql.{find_where, select_where, order_by}
use openrails.Rows.{select-All, select-Pairwise, order-All, order-Pairwise}
use openrails.Credits.Model.{Time, UserId, Uuid, CreditBlock, UserCreditBalance, Store, Error}
use openrails.Credits.Balance.{
  use_blocks, is_usable, block_before, withdraw_available, set_balance, lock_balance,
  withdraw_balance_and_blocks,
}
use openrails.Credits.Accounts.{
  same_key, balance_of, held_of, balance_of-set_balance, held_of-set_balance, balance_of_same,
  held_of_same, set_balance_tables, Locked, lock_balance-Locked,
}
use openrails.Credits.Blocks.{IsAmount, OkBlock, OtherBlock, UniqueBlocks, sub64_amount}
use openrails.Credits.Taking.{Ready, Used, use_blocks-Used}

-- Each block of a table is the one that its identifier finds.
pub found_self :
    (t : List CreditBlock) → UniqueBlocks t → All (λ b. find_where (λ x. x.id == b.id) t ≡ some b) t
unfolding find_where
found_self [] ids = tt
found_self (b ∷ t) ids = (
  ground arith,
  All-imp₂ (OtherBlock b) (λ x. find_where (λ y. y.id == x.id) t ≡ some x)
      (λ x. find_where (λ y. y.id == x.id) (b ∷ t) ≡ some x) t (λ x ne e. rw ne e) ids.0
      (found_self t ids.1),
)

-- The blocks that a withdrawal reads, in the order in which it uses them.
abbrev pub usable : UserId → Uuid → Time → List CreditBlock → List CreditBlock
usable u c now t = order_by block_before (select_where (is_usable u c now) t)

module _ (u : UserId) (c : Uuid) (now : Time) (t : List CreditBlock) (ok_t : All OkBlock t)
    (ids : UniqueBlocks t) where
  usable-Ready : All (Ready u c t) (usable u c now t)
  usable-Ready = order-All (Ready u c t) block_before (select_where (is_usable u c now) t) (
      All-imp
        (λ b.
          (is_usable u c now b ≡ true) × (OkBlock b × (find_where (λ x. x.id == b.id) t ≡ some b)))
        (Ready u c t) (select_where (is_usable u c now) t)
        (λ b (chosen, (amount, found)). (ground arith, amount, found))
        (select-All (λ b. OkBlock b × (find_where (λ x. x.id == b.id) t ≡ some b))
          (is_usable u c now) t
          (All-imp₂ OkBlock (λ b. find_where (λ x. x.id == b.id) t ≡ some b)
            (λ b. OkBlock b × (find_where (λ x. x.id == b.id) t ≡ some b)) t (λ b a e. (a, e)) ok_t
            (found_self t ids))))

  flip : (a b : CreditBlock) → OtherBlock a b → OtherBlock b a
  flip a b h = ground arith

  pub usable-Used :
      (r : ℤ)
      → IsAmount r
      → Used u c
          (usable u c now t)
          r
          t
          (use_blocks (usable u c now t) r t).0
          (use_blocks (usable u c now t) r t).1
  usable-Used r ar =
      use_blocks-Used u c (usable u c now t) r t ar usable-Ready
        (order-Pairwise OtherBlock flip block_before (select_where (is_usable u c now) t)
          (select-Pairwise OtherBlock (is_usable u c now) t ids))
        ok_t ids

-- The test `bal.Balance - bal.HeldBalance < amount` on amounts.
pub available_test :
    (b h a : ℤ)
    → IsAmount b
    → IsAmount h
    → IsAmount a
    → ltb_ℤ (sub64 b h) a ≡ false
    → pos_part a + pos_part h ≤ pos_part b
unfolding sub64 ◌-ℤ◌ wrap64
available_test (pos b) (pos h) (pos a) hb hh ha t = ground arith
available_test _ _ _ hb hh ha t = absurd (ground arith)

-- What a successful withdrawal does.
pub record Withdrawn (u : UserId) (c : Uuid) (amount : ℤ) (now : Time) (s : Store) (new_balance : ℤ)
    (s' : Store) : Type 0 where
  pub available : pos_part amount + pos_part (held_of u c s) ≤ pos_part (balance_of u c s)
  pub amount_left : IsAmount new_balance
  pub debited : pos_part new_balance + pos_part amount ≡ pos_part (balance_of u c s)
  pub balances :
      (u' : UserId) (c' : Uuid)
      → balance_of u' c' s' ≡ (if same_key u c u' c' then new_balance else balance_of u' c' s)
  pub helds : (u' : UserId) (c' : Uuid) → held_of u' c' s' ≡ held_of u' c' s
  pub transactions : s'.transactions ≡ s.transactions
  pub rest : ℤ
  pub blocks : Used u c (usable u c now s.blocks) amount s.blocks s'.blocks rest

same_result :
    {u : UserId} {c : Uuid} {amount : ℤ} {now : Time} {s : Store} {a v : ℤ} {t s' : Store}
    → ◌≡◌ {A = Result Error (ℤ × Store)} (ok (a, t)) (ok (v, s'))
    → Withdrawn u c amount now s a t
    → Withdrawn u c amount now s v s'
same_result {u} {c} {amount} {now} {s} e w =
    subst₂ (Withdrawn u c amount now s) (ok_value (λ r. r.0) e) (ok_value (λ r. r.1) e) w
  where
    ok_value :
        {B : Type 0} (g : ℤ × Store → B) {r r' : ℤ × Store}
        → ◌≡◌ {A = Result Error (ℤ × Store)} (ok r) (ok r')
        → g r ≡ g r'
    ok_value g k = ap g (ok-injective k)

module _ (u : UserId) (c : Uuid) (amount : ℤ) (now : Time) (s : Store) (positive : IsAmount amount)
    (ok_t : All OkBlock s.blocks) (ids : UniqueBlocks s.blocks)
    (sound_b : IsAmount (balance_of u c s)) (sound_h : IsAmount (held_of u c s)) where
  abbrev taken : Store → List CreditBlock × ℤ
  taken s₁ = use_blocks (usable u c now s₁.blocks) amount s₁.blocks

  abbrev after : Store → Store
  after s₁ = record s₁ { blocks = (taken s₁).0 }

  taken_store :
      (bal : UserCreditBalance) (s₁ : Store)
      → Locked u c s bal s₁
      → ltb_ℤ (sub64 bal.balance bal.held_balance) amount ≡ false
      → Withdrawn u c amount now s
          (sub64 bal.balance amount)
          (set_balance u c (sub64 bal.balance amount) now (after s₁))
  taken_store bal s₁ l enough =
      let hb : IsAmount bal.balance = rw l.balance sound_b in
      let hh : IsAmount bal.held_balance = rw l.held sound_h in
      let fits = available_test bal.balance bal.held_balance amount hb hh positive enough in
      let (na, ne) = sub64_amount bal.balance amount hb positive (omega arith) in
      record {
        available = rw (← l.balance, ← l.held) fits;
        amount_left = na;
        debited = rw (← l.balance) ne;
        balances = λ u' c'.
            balance_of-set_balance u c (sub64 bal.balance amount) now (after s₁) l.row u' c'
            ∙ ap (λ x. if same_key u c u' c' then sub64 bal.balance amount else x)
                (balance_of_same u' c' s₁ (after s₁) refl ∙ l.balances u' c');
        helds = λ u' c'.
            held_of-set_balance u c (sub64 bal.balance amount) now (after s₁) l.row u' c'
            ∙ held_of_same u' c' s₁ (after s₁) refl
            ∙ l.helds u' c';
        transactions = (set_balance_tables u c _ now (after s₁)).1 ∙ l.transactions;
        rest = (taken s₁).1;
        blocks =
            rw ((set_balance_tables u c (sub64 bal.balance amount) now (after s₁)).0, l.blocks)
              (usable-Used u c now s.blocks ok_t ids amount positive);
      }

  withdraw_available-Withdrawn :
      (bal : UserCreditBalance) (s₁ : Store) {v : ℤ} {s' : Store}
      → Locked u c s bal s₁
      → withdraw_available u c amount now bal s₁ ≡ ok (v, s')
      → Withdrawn u c amount now s v s'
  unfolding withdraw_available
  withdraw_available-Withdrawn bal s₁ l h =
      elim (Bool-cases (ltb_ℤ (sub64 bal.balance bal.held_balance) amount)) [
        | inl short ↦ absurd (ground arith)
        | inr enough ↦ same_result (rw enough at h) (taken_store bal s₁ l enough)
      ]

  pub withdraw-Withdrawn :
      (id : Uuid) {v : ℤ} {s' : Store}
      → withdraw_balance_and_blocks u c amount id now s ≡ ok (v, s')
      → Withdrawn u c amount now s v s'
  unfolding withdraw_balance_and_blocks
  withdraw-Withdrawn id h =
      withdraw_available-Withdrawn (lock_balance u c id now s).0 (lock_balance u c id now s).1
        (lock_balance-Locked u c id now s) h
