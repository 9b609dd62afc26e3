-- ===== src/Credits/Accounts.antt =====
-- internal/modules/credits/credits_service.go: the balance and the held balance of a user and
-- credit type, and how the statements on the balance table change them.
use openrails.Base.{
  ◌≡◌, refl, inl, inr, Bool, false, ◌&&◌, Option, none, some, List, [], ◌∷◌, ◌==◌, if◌then◌else◌,
  arith, Bool-cases,
}
use openrails.Base.Int.{ℤ, pos}
use openrails.Base.Sql.{update_where, find_where}
use openrails.Credits.Model.{Time, UserId, Uuid, UserCreditBalance, Store, owns_balance}
use openrails.Credits.Balance.{
  empty_balance, lock_found, lock_balance, set_balance, set_held_balance,
}

abbrev pub row_of : UserId → Uuid → Store → Option UserCreditBalance
row_of u c s = find_where (owns_balance u c) s.balances

abbrev pub balance_or_zero : Option UserCreditBalance → ℤ
balance_or_zero none = pos 0
balance_or_zero (some b) = b.balance

abbrev pub held_or_zero : Option UserCreditBalance → ℤ
held_or_zero none = pos 0
held_or_zero (some b) = b.held_balance

-- The balances of a user and credit type; no row counts as zero.
unfoldable pub balance_of : UserId → Uuid → Store → ℤ
balance_of u c s = balance_or_zero (row_of u c s)

unfoldable pub held_of : UserId → Uuid → Store → ℤ
held_of u c s = held_or_zero (row_of u c s)

-- The balances depend on the table of balances alone.
pub balance_of_same :
    (u : UserId) (c : Uuid) (s s' : Store)
    → s'.balances ≡ s.balances
    → balance_of u c s' ≡ balance_of u c s
unfolding balance_of
balance_of_same u c s s' e = rw e

pub held_of_same :
    (u : UserId) (c : Uuid) (s s' : Store)
    → s'.balances ≡ s.balances
    → held_of u c s' ≡ held_of u c s
unfolding held_of
held_of_same u c s s' e = rw e

-- Whether two keys are one.
abbrev pub same_key : UserId → Uuid → UserId → Uuid → Bool
same_key u c u' c' = u' == u && c' == c

row_of_other :
    (u u' : UserId) (c c' : Uuid) (f : UserCreditBalance → UserCreditBalance)
    (xs : List UserCreditBalance)
    → ((b : UserCreditBalance) → owns_balance u' c' (f b) ≡ owns_balance u' c' b)
    → same_key u c u' c' ≡ false
    → find_where (owns_balance u' c') (update_where (owns_balance u c) f xs)
      ≡ find_where (owns_balance u' c') xs
unfolding find_where update_where
row_of_other u u' c c' f [] keep h = refl
row_of_other u u' c c' f (b ∷ xs) keep h =
    ground (arith, keep b, row_of_other u u' c c' f xs keep h)

row_of_self :
    (u : UserId) (c : Uuid) (f : UserCreditBalance → UserCreditBalance)
    (xs : List UserCreditBalance) {b : UserCreditBalance}
    → ((r : UserCreditBalance) → owns_balance u c (f r) ≡ owns_balance u c r)
    → find_where (owns_balance u c) xs ≡ some b
    → find_where (owns_balance u c) (update_where (owns_balance u c) f xs) ≡ some (f b)
unfolding find_where update_where
row_of_self u c f [] keep h = absurd (cc)
row_of_self u c f (r ∷ xs) {b} keep h = elim (Bool-cases (owns_balance u c r)) [
  | inl here ↦ ground (arith, keep r)
  | inr there ↦ rw (there, there) (row_of_self u c f xs keep (rw there at h))
]

-- An update of a key's row shows at that key alone.
pub row_of_update :
    (u u' : UserId) (c c' : Uuid) (f : UserCreditBalance → UserCreditBalance)
    (xs : List UserCreditBalance) {b : UserCreditBalance}
    → ((v : UserId) (d : Uuid) (r : UserCreditBalance)
        → owns_balance v d (f r) ≡ owns_balance v d r)
    → find_where (owns_balance u c) xs ≡ some b
    → find_where (owns_balance u' c') (update_where (owns_balance u c) f xs)
      ≡ (if same_key u c u' c' then some (f b) else find_where (owns_balance u' c') xs)
row_of_update u u' c c' f xs keep row = elim (Bool-cases (same_key u c u' c')) [
  | inl same ↦
      let eu : u' ≡ u = ground arith in
      let ec : c' ≡ c = ground arith in rw same (rw (eu, ec) (row_of_self u c f xs (keep u c) row))
  | inr other ↦ rw other (row_of_other u u' c c' f xs (keep u' c') other)
]

module _ (u : UserId) (c : Uuid) (v : ℤ) (now : Time) (s : Store) {b : UserCreditBalance}
    (row : row_of u c s ≡ some b) (u' : UserId) (c' : Uuid) where
  -- A value of the row that the update does not set.
  same_value :
      (g : Option UserCreditBalance → ℤ) {b' : UserCreditBalance}
      → g (some b') ≡ g (some b)
      → g (if same_key u c u' c' then some b' else row_of u' c' s) ≡ g (row_of u' c' s)
  same_value g e = elim (Bool-cases (same_key u c u' c')) [
    | inl same ↦
        let eu : u' ≡ u = ground arith in
        let ec : c' ≡ c = ground arith in rw same (rw (eu, ec) (rw row e))
    | inr other ↦ rw other
  ]

  pub balance_of-set_balance :
      balance_of u' c' (set_balance u c v now s)
      ≡ (if same_key u c u' c' then v else balance_of u' c' s)
  unfolding balance_of set_balance
  balance_of-set_balance =
      rw
        (row_of_update u u' c c' (λ r. record r { balance = v; updated_at = now }) s.balances
          (λ w d r. refl) row)
        (ground arith)

  pub held_of-set_balance : held_of u' c' (set_balance u c v now s) ≡ held_of u' c' s
  unfolding held_of set_balance
  held_of-set_balance =
      rw
        (row_of_update u u' c c' (λ r. record r { balance = v; updated_at = now }) s.balances
          (λ w d r. refl) row)
        (same_value held_or_zero refl)

  pub held_of-set_held_balance :
      held_of u' c' (set_held_balance u c v now s)
      ≡ (if same_key u c u' c' then v else held_of u' c' s)
  unfolding held_of set_held_balance
  held_of-set_held_balance =
      rw
        (row_of_update u u' c c' (λ r. record r { held_balance = v; updated_at = now }) s.balances
          (λ w d r. refl) row)
        (ground arith)

  pub balance_of-set_held_balance :
      balance_of u' c' (set_held_balance u c v now s) ≡ balance_of u' c' s
  unfolding balance_of set_held_balance
  balance_of-set_held_balance =
      rw
        (row_of_update u u' c c' (λ r. record r { held_balance = v; updated_at = now }) s.balances
          (λ w d r. refl) row)
        (same_value balance_or_zero refl)

pub row_of-set_balance :
    (u : UserId) (c : Uuid) (v : ℤ) (now : Time) (s : Store) {b : UserCreditBalance}
    → row_of u c s ≡ some b
    → row_of u c (set_balance u c v now s) ≡ some (record b { balance = v; updated_at = now })
unfolding set_balance
row_of-set_balance u c v now s row =
    row_of_self u c (λ r. record r { balance = v; updated_at = now }) s.balances (λ r. refl) row

-- A row that is there is locked as it stands.
pub lock_balance_again :
    (u : UserId) (c id : Uuid) (now : Time) (s : Store) {b : UserCreditBalance}
    → row_of u c s ≡ some b
    → lock_balance u c id now s ≡ (b, s)
unfolding lock_balance
lock_balance_again u c id now s row = rw row

-- The statements on the balances leave the other tables alone.
pub set_balance_tables :
    (u : UserId) (c : Uuid) (v : ℤ) (now : Time) (s : Store)
    → ((set_balance u c v now s).blocks ≡ s.blocks)
      × ((set_balance u c v now s).transactions ≡ s.transactions)
unfolding set_balance
set_balance_tables u c v now s = (refl, refl)

pub set_held_balance_tables :
    (u : UserId) (c : Uuid) (v : ℤ) (now : Time) (s : Store)
    → ((set_held_balance u c v now s).blocks ≡ s.blocks)
      × ((set_held_balance u c v now s).transactions ≡ s.transactions)
unfolding set_held_balance
set_held_balance_tables u c v now s = (refl, refl)

-- What `lockBalance` gives: the row of the key, which is there afterwards; no balance changes.
pub record Locked (u : UserId) (c : Uuid) (s : Store) (bal : UserCreditBalance) (s' : Store)
    : Type 0 where
  pub row : row_of u c s' ≡ some bal
  pub balance : bal.balance ≡ balance_of u c s
  pub held : bal.held_balance ≡ held_of u c s
  pub balances : (u' : UserId) (c' : Uuid) → balance_of u' c' s' ≡ balance_of u' c' s
  pub helds : (u' : UserId) (c' : Uuid) → held_of u' c' s' ≡ held_of u' c' s
  pub blocks : s'.blocks ≡ s.blocks
  pub transactions : s'.transactions ≡ s.transactions

module _ (u : UserId) (c id : Uuid) (now : Time) (s : Store) where
  lock_found-Locked :
      (o : Option UserCreditBalance)
      → row_of u c s ≡ o
      → Locked u c s (lock_found u c id now s o).0 (lock_found u c id now s o).1
  unfolding balance_of held_of find_where
  lock_found-Locked (some b) e = record {
    row = e;
    balance = rw e;
    held = rw e;
    balances = λ u' c'. refl;
    helds = λ u' c'. refl;
    blocks = refl;
    transactions = refl;
  }
  lock_found-Locked none e = record {
    row = ground arith;
    balance = rw e;
    held = rw e;
    balances = λ u' c'. fresh balance_or_zero refl u' c';
    helds = λ u' c'. fresh held_or_zero refl u' c';
    blocks = refl;
    transactions = refl;
  }
    where
      fresh :
          (g : Option UserCreditBalance → ℤ)
          → g (some (empty_balance u c id now)) ≡ g none
          → (u' : UserId) (c' : Uuid)
          → g (if u == u' && c == c' then some (empty_balance u c id now) else row_of u' c' s)
            ≡ g (row_of u' c' s)
      fresh g same u' c' = elim (Bool-cases (u == u' && c == c')) [
        | inl own ↦
            let eu : u' ≡ u = ground arith in
            let ec : c' ≡ c = ground arith in rw own (rw (eu, ec) (rw e same))
        | inr other ↦ rw other
      ]

  pub lock_balance-Locked : Locked u c s (lock_balance u c id now s).0 (lock_balance u c id now s).1
  unfolding lock_balance
  lock_balance-Locked = lock_found-Locked (row_of u c s) refl
