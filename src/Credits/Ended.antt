-- ===== src/Credits/Ended.antt =====
-- internal/modules/credits/credits_service.go: `CaptureHold` and `ReleaseHold` of a hold that is
-- no longer active.
use openrails.Base.{
  ◌≡◌, refl, sym, subst, ◌∙◌, true, false, some, ◌==◌, arith, ok, err, ok-injective, >>=-eq-ok,
}
use openrails.Base.Int.{ℤ}
use openrails.Base.Sql.{find_where}
use openrails.Credits.Model.{
  Time, Uuid, CreditTransaction, Store, is_hold, is_active_status, hold_not_active,
}
use openrails.Credits.Service.{Ids}
use openrails.Credits.Holds.{
  hold_row, capture_hold, release_hold, open_hold, check_open, unreserve, get_transaction,
  save_transaction, captured_row, released_row,
}
use openrails.Credits.Reserved.{saved_found}
use openrails.Credits.OpenHold.{
  is_open_hold, open_hold-Open, unreserve_tables, withdraw_transactions, capture_hold-Captured,
}

-- A row that is no longer active is not open under its identifier, once it is saved.
closed_hold :
    (id : Uuid) (s : Store) (h' : CreditTransaction) {h : CreditTransaction}
    → find_where (λ r. r.id == id) s.transactions ≡ some h
    → (h'.id == id) ≡ true
    → is_hold h'.transaction_type ≡ true
    → is_active_status h'.status ≡ false
    → open_hold id (save_transaction h' s) ≡ err hold_not_active
unfolding open_hold get_transaction check_open
closed_hold id s h' {h} found same hold_row closed =
    closed_row (saved_found id h' s.transactions found same)
  where
    closed_row :
        find_where (λ r. r.id == id) (save_transaction h' s).transactions ≡ some h'
        → open_hold id (save_transaction h' s) ≡ err hold_not_active
    closed_row e = rw e (ground arith)

-- A row that is saved where the table holds the same ledger rows.
save-open_hold :
    (id : Uuid) (h' : CreditTransaction) (s s' : Store)
    → s'.transactions ≡ s.transactions
    → open_hold id (save_transaction h' s') ≡ open_hold id (save_transaction h' s)
unfolding open_hold get_transaction
save-open_hold id h' s s' e = rw e

capture_hold-closed :
    (ids : Ids) (id : Uuid) (amount : ℤ) (now : Time) (s : Store) {r : CreditTransaction}
    {s' : Store}
    → capture_hold ids id amount now s ≡ ok (r, s')
    → open_hold id s' ≡ err hold_not_active
capture_hold-closed ids id amount now s {r} {s'} e =
    let c = capture_hold-Captured ids id amount now s e in
    let h = c.held_row in
    let h' = captured_row h amount c.new_balance now in
    let same : c.mid.transactions ≡ s.transactions =
      withdraw_transactions h.user_id h.credit_type_id amount ids.balance now _ c.withdrawn
      ∙ (unreserve_tables h.user_id h.credit_type_id c.authorized ids.balance now s).1 in
    let hold_row : is_hold h.transaction_type ≡ true = is_open_hold h c.opened.open_row in
    subst (λ x. open_hold id x ≡ err hold_not_active) (sym c.store)
      (save-open_hold id h' s c.mid same
        ∙ closed_hold id s h' c.opened.found c.opened.same_id hold_row refl)

release_hold-closed :
    (ids : Ids) (id : Uuid) (now : Time) (s : Store) {s' : Store}
    → release_hold ids id now s ≡ ok s'
    → open_hold id s' ≡ err hold_not_active
unfolding release_hold
release_hold-closed ids id now s {s'} e =
    let ((h, a), e₁, e₂) = >>=-eq-ok (open_hold id s) _ e in
    let o = open_hold-Open id s e₁ in
    let h' = released_row h now in
    let mid = unreserve h.user_id h.credit_type_id a ids.balance now s in
    let same : mid.transactions ≡ s.transactions =
      (unreserve_tables h.user_id h.credit_type_id a ids.balance now s).1 in
    subst (λ x. open_hold id x ≡ err hold_not_active) (ok-injective e₂)
      (save-open_hold id h' s mid same
        ∙ closed_hold id s h' o.found o.same_id (is_open_hold h o.open_row) refl)

abbrev pub Ended : Uuid → Store → Type 0
Ended id s =
    ((ids : Ids) (amount : ℤ) (now : Time) → capture_hold ids id amount now s ≡ err hold_not_active)
    × ((ids : Ids) (now : Time) → release_hold ids id now s ≡ err hold_not_active)

closed-Ended : (id : Uuid) (s : Store) → open_hold id s ≡ err hold_not_active → Ended id s
unfolding capture_hold release_hold
closed-Ended id s e = (λ ids amount now. rw e, λ ids now. rw e)

-- A hold that was captured ends: every later CaptureHold or ReleaseHold of it on the resulting
-- tables fails with the error that the hold is not active.
pub capture_hold-Ended :
    (ids : Ids) (id : Uuid) (amount : ℤ) (now : Time) (s : Store) {r : CreditTransaction}
    {s' : Store}
    → capture_hold ids id amount now s ≡ ok (r, s')
    → Ended id s'
capture_hold-Ended ids id amount now s {r} {s'} e =
    closed-Ended id s' (capture_hold-closed ids id amount now s e)

-- A hold that was released ends: every later CaptureHold or ReleaseHold of it on the resulting
-- tables fails with the error that the hold is not active.
pub release_hold-Ended :
    (ids : Ids) (id : Uuid) (now : Time) (s : Store) {s' : Store}
    → release_hold ids id now s ≡ ok s'
    → Ended id s'
release_hold-Ended ids id now s {s'} e = closed-Ended id s' (release_hold-closed ids id now s e)
