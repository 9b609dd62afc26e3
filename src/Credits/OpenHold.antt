-- ===== src/Credits/OpenHold.antt =====
-- internal/modules/credits/credits_service.go: what a successful `CaptureHold` or `ReleaseHold`
-- found and did.
use openrails.Base.{
  ◌≡◌, sym, subst, ap, ◌∙◌, inl, inr, true, false, Option, none, some, ◌==◌, arith, Bool-cases, ok,
  ok-injective, >>=-eq-ok, or_error, or_error-ok, ◌>>=◌, refuse_if, ◌||◌,
}
use openrails.Base.Int.{ℤ, pos, sub64, leb_ℤ, ltb_ℤ}
use openrails.Base.Sql.{find_where}
use openrails.Rows.{find-test}
use openrails.Credits.Model.{
  Time, UserId, Uuid, CreditTransaction, UserCreditBalance, Store, is_hold, no_rows,
  bad_capture_amount,
}
use openrails.Credits.Balance.{
  set_balance, lock_balance, withdraw_balance_and_blocks, withdraw_available,
}
use openrails.Credits.Service.{Ids}
use openrails.Credits.Holds.{
  capture_hold, open_hold, check_open, capture_open, unreserve, get_transaction, save_transaction,
  captured_row, authorized_amount,
}
use openrails.Credits.Accounts.{set_held_balance_tables, lock_balance-Locked}
use openrails.Credits.Invariant.{is_open}

-- What the checks of `CaptureHold` and `ReleaseHold` establish.
pub record Open (id : Uuid) (s : Store) (h : CreditTransaction) (a : ℤ) : Type 0 where
  pub found : find_where (λ r. r.id == id) s.transactions ≡ some h
  pub same_id : (h.id == id) ≡ true
  pub open_row : is_open h ≡ true
  pub authorized : h.authorized ≡ some a
  pub positive : leb_ℤ a (pos 0) ≡ false

authorized-ok :
    (o : Option ℤ) {a : ℤ} → authorized_amount o ≡ ok a → (o ≡ some a) × (leb_ℤ a (pos 0) ≡ false)
authorized-ok none h = absurd (cc)
authorized-ok (some b) h = elim (Bool-cases (leb_ℤ b (pos 0))) [
  | inl none_left ↦ absurd (ground arith)
  | inr positive ↦
      let e = ok-injective (rw positive at h) in
      (ap some e, subst (λ x. leb_ℤ x (pos 0) ≡ false) e positive)
]

check_open-ok :
    (r : CreditTransaction) {h : CreditTransaction} {a : ℤ}
    → check_open r ≡ ok (h, a)
    → (h ≡ r) × (is_open r ≡ true) × (r.authorized ≡ some a) × (leb_ℤ a (pos 0) ≡ false)
unfolding check_open
check_open-ok r {h} {a} e = elim (Bool-cases (is_open r)) [
  | inl open_row ↦
      let (b, e₁, rest) = >>=-eq-ok (authorized_amount r.authorized) _ (opened open_row e) in
      let pair = ok-injective rest in
      let (found, positive) = authorized-ok r.authorized e₁ in
      (
        ap (λ x. x.0) (sym pair),
        open_row,
        found ∙ ap (λ x. some (x.1)) pair,
        subst (λ x. leb_ℤ x (pos 0) ≡ false) (ap (λ x. x.1) pair) positive,
      )
  | inr closed ↦ absurd (ground arith)
]
  where
    opened :
        is_open r ≡ true
        → check_open r ≡ ok (h, a)
        → ◌>>=◌ {B = CreditTransaction × ℤ} (authorized_amount r.authorized) (λ b. ok (r, b))
          ≡ ok (h, a)
    opened o k = ground arith

pub is_open_hold : (h : CreditTransaction) → is_open h ≡ true → is_hold h.transaction_type ≡ true
is_open_hold h e = ground arith

pub open_hold-Open :
    (id : Uuid) (s : Store) {h : CreditTransaction} {a : ℤ}
    → open_hold id s ≡ ok (h, a)
    → Open id s h a
unfolding open_hold get_transaction
open_hold-Open id s {h} {a} e =
    let (r, e₁, rest) =
      >>=-eq-ok (or_error (find_where (λ x. x.id == id) s.transactions) no_rows) check_open e in
    let found : find_where (λ x. x.id == id) s.transactions ≡ some r =
      or_error-ok (find_where (λ x. x.id == id) s.transactions) no_rows e₁ in
    let (same, open_row, authorized, positive) = check_open-ok r rest in
    subst (λ x. Open id s x a) (sym same)
      (record {
        found = found;
        same_id = find-test (λ x. x.id == id) s.transactions found;
        open_row = open_row;
        authorized = authorized;
        positive = positive;
      })

-- Nothing but the hold's own row changes among the ledger rows.
pub unreserve_tables :
    (u : UserId) (c : Uuid) (a : ℤ) (id : Uuid) (now : Time) (s : Store)
    → ((unreserve u c a id now s).blocks ≡ s.blocks)
      × ((unreserve u c a id now s).transactions ≡ s.transactions)
unfolding unreserve
unreserve_tables u c a id now s =
    let l = lock_balance-Locked u c id now s in
    let (b, t) =
      set_held_balance_tables u c (sub64 (lock_balance u c id now s).0.held_balance a) now
        (lock_balance u c id now s).1 in
    (b ∙ l.blocks, t ∙ l.transactions)

available_transactions :
    (u : UserId) (c : Uuid) (a : ℤ) (now : Time) (bal : UserCreditBalance) (s : Store) {v : ℤ}
    {s' : Store}
    → withdraw_available u c a now bal s ≡ ok (v, s')
    → s'.transactions ≡ s.transactions
unfolding withdraw_available set_balance
available_transactions u c a now bal s {v} {s'} h =
    elim (Bool-cases (ltb_ℤ (sub64 bal.balance bal.held_balance) a)) [
      | inl short ↦ absurd (ground arith)
      | inr enough ↦ ap (λ x. x.1.transactions) (sym (ok-injective (rw enough at h)))
    ]

pub withdraw_transactions :
    (u : UserId) (c : Uuid) (a : ℤ) (id : Uuid) (now : Time) (s : Store) {v : ℤ} {s' : Store}
    → withdraw_balance_and_blocks u c a id now s ≡ ok (v, s')
    → s'.transactions ≡ s.transactions
unfolding withdraw_balance_and_blocks
withdraw_transactions u c a id now s {v} {s'} h =
    let l = lock_balance-Locked u c id now s in
    available_transactions u c a now (lock_balance u c id now s).0 (lock_balance u c id now s).1 h
    ∙ l.transactions

-- The row that `CaptureHold` returns, and where it stands.
pub record Captured (ids : Ids) (id : Uuid) (amount : ℤ) (now : Time) (s : Store)
    (r : CreditTransaction) (s' : Store) : Type 0 where
  pub held_row : CreditTransaction
  pub authorized : ℤ
  pub opened : Open id s held_row authorized
  pub wanted : leb_ℤ amount (pos 0) ≡ false
  pub bounded : ltb_ℤ authorized amount ≡ false
  pub new_balance : ℤ
  pub mid : Store
  pub withdrawn :
      withdraw_balance_and_blocks held_row.user_id held_row.credit_type_id amount ids.balance now
        (unreserve held_row.user_id held_row.credit_type_id authorized ids.balance now s)
      ≡ ok (new_balance, mid)
  pub row : r ≡ captured_row held_row amount new_balance now
  pub store : s' ≡ save_transaction (captured_row held_row amount new_balance now) mid

pub capture_hold-Captured :
    (ids : Ids) (id : Uuid) (amount : ℤ) (now : Time) (s : Store) {r : CreditTransaction}
    {s' : Store}
    → capture_hold ids id amount now s ≡ ok (r, s')
    → Captured ids id amount now s r s'
unfolding capture_hold capture_open
capture_hold-Captured ids id amount now s {r} {s'} e =
    let ((h, a), e₁, e₂) = >>=-eq-ok (open_hold id s) _ e in
    let (t₀, allowed, e₃) =
      >>=-eq-ok (refuse_if (leb_ℤ amount (pos 0) || ltb_ℤ a amount) bad_capture_amount) _ e₂ in
    let ((v, mid), e₄, e₅) =
      >>=-eq-ok
        (withdraw_balance_and_blocks h.user_id h.credit_type_id amount ids.balance now
          (unreserve h.user_id h.credit_type_id a ids.balance now s))
        _ e₃ in
    record {
      held_row = h;
      authorized = a;
      opened = open_hold-Open id s e₁;
      wanted = ground arith;
      bounded = ground arith;
      new_balance = v;
      mid = mid;
      withdrawn = e₄;
      row = sym (ap (λ x. x.0) (ok-injective e₅));
      store = sym (ap (λ x. x.1) (ok-injective e₅));
    }
