-- ===== src/Credits/Posted.antt =====
-- internal/modules/credits/credits_service.go: the deposit of a grant, which later deposits keep.
use openrails.Base.{
  ◌≡◌, refl, ap, sym, ◌∙◌, inl, inr, Bool, true, false, Option, none, some, List, ◌∷◌,
  if◌then◌else◌, Bool-cases,
}
use openrails.Base.Int.{ℤ}
use openrails.Base.Sql.{find_where}
use openrails.Credits.Model.{
  Time, UserId, Uuid, CreditType, CreditTransaction, UserCreditBalance, Store, is_deposit,
  owns_balance,
}
use openrails.Credits.Balance.{lock_balance, set_balance, lock_found}
use openrails.Credits.Service.{
  Ids, CreditDepositParams, deposit_tx, has_source, earlier_deposit, finish_deposit, post_deposit,
}
use openrails.Credits.Accounts.{row_of, row_of_update, same_key, lock_balance-Locked}
use openrails.Credits.Once.{deposit_tx_again, deposit_tx-leaves}
use openrails.Credits.Grants.{subscription_credit_grant}

-- A user has a balance row of a credit type, and a deposit of a grant under this identifier.
pub record Posted (u : UserId) (c k : Uuid) (s : Store) : Type 0 where
  row : (b : UserCreditBalance) × (row_of u c s ≡ some b)
  deposit :
      (r : CreditTransaction) × (find_where
          (has_source is_deposit u c subscription_credit_grant k)
          s.transactions
        ≡ some r)

-- What a deposit leaves alone.
pub record Kept (s s' : Store) : Type 0 where
  pub types : s'.credit_types ≡ s.credit_types
  pub posted : (u : UserId) (c k : Uuid) → Posted u c k s → Posted u c k s'

found_behind :
    {A : Type 0} (p : A → Bool) (x : A) (xs : List A) {y : A}
    → find_where p xs ≡ some y
    → (z : A) × (find_where p (x ∷ xs) ≡ some z)
unfolding find_where
found_behind p x xs {y} h = elim (Bool-cases (p x)) [
  | inl here ↦ (x, rw here refl)
  | inr there ↦ (y, rw there h)
]

lock_found-Kept :
    (u : UserId) (c id : Uuid) (now : Time) (s : Store) (o : Option UserCreditBalance)
    → Kept s (lock_found u c id now s o).1
lock_found-Kept u c id now s (some b) = record { types = refl; posted = λ u' c' k h. h }
lock_found-Kept u c id now s none = record {
  types = refl;
  posted = λ u' c' k h. record {
    row = found_behind (owns_balance u' c') _ s.balances h.row.1;
    deposit = h.deposit;
  };
}

lock_balance-Kept :
    (u : UserId) (c id : Uuid) (now : Time) (s : Store) → Kept s (lock_balance u c id now s).1
unfolding lock_balance
lock_balance-Kept u c id now s = lock_found-Kept u c id now s _

either_row :
    (same : Bool) (a : UserCreditBalance) {o : Option UserCreditBalance} {b : UserCreditBalance}
    → o ≡ some b
    → (b' : UserCreditBalance) × ((if same then some a else o) ≡ some b')
either_row true a {o} {b} h = (a, refl)
either_row false a {o} {b} h = (b, h)

row_kept :
    (u : UserId) (c : Uuid) (v : ℤ) (now : Time) (s : Store) {bal : UserCreditBalance}
    → row_of u c s ≡ some bal
    → (u' : UserId) (c' : Uuid) {b : UserCreditBalance} → row_of u' c' s ≡ some b
    → (b' : UserCreditBalance) × (row_of u' c' (set_balance u c v now s) ≡ some b')
unfolding set_balance
row_kept u c v now s row u' c' {b} there =
    let after =
      row_of_update u u' c c' (λ r. record r { balance = v; updated_at = now }) s.balances
        (λ w d r. refl) row in
    let (b', some_row) = either_row (same_key u c u' c') _ there in (b', after ∙ some_row)

post_deposit-Kept :
    (ids : Ids) (c : Uuid) (p : CreditDepositParams) (now : Time) (bal : UserCreditBalance)
    (s : Store)
    → row_of p.user_id c s ≡ some bal
    → Kept s (post_deposit ids c p now bal s).1
unfolding post_deposit set_balance
post_deposit-Kept ids c p now bal s row = record {
  types = refl;
  posted = λ u d k h. record {
    row = row_kept p.user_id c _ now s row u d h.row.1;
    deposit =
        found_behind (has_source is_deposit u d subscription_credit_grant k) _ s.transactions
          h.deposit.1;
  };
}

finish_deposit-Kept :
    (ids : Ids) (c : Uuid) (p : CreditDepositParams) (now : Time) (bal : UserCreditBalance)
    (s : Store)
    → row_of p.user_id c s ≡ some bal
    → (o : Option CreditTransaction) → Kept s (finish_deposit ids c p now (bal, s) o).1
unfolding finish_deposit
finish_deposit-Kept ids c p now bal s row (some existing) = record {
  types = refl;
  posted = λ u d k h. h;
}
finish_deposit-Kept ids c p now bal s row none = post_deposit-Kept ids c p now bal s row

pub deposit_tx-Kept :
    (ids : Ids) (ct : CreditType) (p : CreditDepositParams) (now : Time) (s : Store)
    → Kept s (deposit_tx ids ct p now s).1
unfolding deposit_tx
deposit_tx-Kept ids ct p now s =
    let locked = lock_balance p.user_id ct.id ids.balance now s in
    let l = lock_balance-Locked p.user_id ct.id ids.balance now s in
    let k₁ = lock_balance-Kept p.user_id ct.id ids.balance now s in
    let k₂ =
      finish_deposit-Kept ids ct.id p now locked.0 locked.1 l.row
        (earlier_deposit ct.id p locked.1) in
    record { types = k₂.types ∙ k₁.types; posted = λ u d k h. k₂.posted u d k (k₁.posted u d k h) }

-- A deposit of a grant is there afterwards, and is found again.
by_key :
    (c : Uuid) (p : CreditDepositParams) (s : Store) {k : Uuid}
    → p.source_id ≡ some k
    → p.source ≡ subscription_credit_grant
    → earlier_deposit c p s
      ≡ find_where (has_source is_deposit p.user_id c subscription_credit_grant k) s.transactions
unfolding earlier_deposit
by_key c p s {k} key source = rw (key, source)

pub deposit_tx-Posted :
    (ids : Ids) (ct : CreditType) (p : CreditDepositParams) (now : Time) (s : Store) {k : Uuid}
    → p.source_id ≡ some k
    → p.source ≡ subscription_credit_grant
    → Posted p.user_id ct.id k (deposit_tx ids ct p now s).1
deposit_tx-Posted ids ct p now s {k} key source =
    let (row, found) = deposit_tx-leaves ids ct p now s key in
    record {
      row = row;
      deposit = (_, sym (by_key ct.id p (deposit_tx ids ct p now s).1 key source) ∙ found);
    }

pub deposit_tx-Posted_again :
    (ids : Ids) (ct : CreditType) (p : CreditDepositParams) (now : Time) (s : Store) {k : Uuid}
    → p.source_id ≡ some k
    → p.source ≡ subscription_credit_grant
    → Posted p.user_id ct.id k s
    → (deposit_tx ids ct p now s).1 ≡ s
deposit_tx-Posted_again ids ct p now s {k} key source h =
    ap (λ x. x.1)
      (deposit_tx_again ids ct p now s h.row.1 (by_key ct.id p s key source ∙ h.deposit.1))
