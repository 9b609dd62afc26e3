-- ===== src/Credits/Captures.antt =====
-- internal/modules/credits/credits_service.go: `CaptureHold` and `ReleaseHold` and the soundness
-- of the credit tables.
use mathlib.Core.Path.{subst₂}
use openrails.Base.{
  ◌+◌, ◌≤◌, ◌≡◌, refl, sym, subst, ap, ◌∙◌, true, false, some, ◌==◌, arith, ok, ok-injective,
  >>=-eq-ok,
}
use openrails.Base.Int.{ℤ, pos, pos_part, leb_ℤ, ltb_ℤ}
use openrails.Base.Sql.{find_where}
use openrails.Credits.Model.{Time, UserId, Uuid, CreditTransaction, Store}
use openrails.Credits.Service.{Ids}
use openrails.Credits.Holds.{
  capture_hold, release_hold, unreserve, save_transaction, captured_row, released_row, open_hold,
}
use openrails.Credits.Accounts.{balance_of, held_of, balance_of_same, held_of_same}
use openrails.Credits.Blocks.{IsAmount}
use openrails.Credits.Withdraw.{Withdrawn, withdraw-Withdrawn}
use openrails.Credits.Invariant.{IsSound, is_open, OkTransaction, authorized_or_zero}
use openrails.Credits.Withdrawals.{Withdrawn-IsSound}
use openrails.Credits.OpenHold.{open_hold-Open, Captured, capture_hold-Captured}
use openrails.Credits.Reserved.{
  open_ok, open_amount, ended, ended_balance, ended_found, ended_freed, ended-IsSound, reserves,
}

-- What ReleaseHold makes of the row under an identifier and of the held balances.
pub record Released (id : Uuid) (now : Time) (s s' : Store) : Type 0 where
  pub hold : CreditTransaction
  pub found : find_where (λ r. r.id == id) s.transactions ≡ some hold
  pub was_open : is_open hold ≡ true
  pub written : find_where (λ r. r.id == id) s'.transactions ≡ some (released_row hold now)
  pub given_back :
      (u : UserId) (c : Uuid)
      → pos_part (held_of u c s') + reserves u c hold ≡ pos_part (held_of u c s)

-- ReleaseHold keeps the credit tables sound and changes no balance. The identifier was that of an
-- active hold, whose row is afterwards the released one, and for every user and credit type the
-- held balance goes down by exactly what that hold reserved there.
pub release_hold-IsSound :
    (ids : Ids) (id : Uuid) (now : Time) (s : Store) {s' : Store}
    → IsSound s
    → release_hold ids id now s ≡ ok s'
    → IsSound s'
      × ((u : UserId) (c : Uuid) → balance_of u c s' ≡ balance_of u c s)
      × Released id now s s'
unfolding release_hold
release_hold-IsSound ids id now s {s'} sound e =
    let ((h, a), e₁, e₂) = >>=-eq-ok (open_hold id s) _ e in
    let o = open_hold-Open id s e₁ in
    let okr : OkTransaction (released_row h now) = open_ok id s h a o sound ids.balance now in
    let r = released_row h now in
    subst
      (λ x.
        IsSound x
        × ((u : UserId) (c : Uuid) → balance_of u c x ≡ balance_of u c s)
        × Released id now s x)
      (ok-injective e₂)
      (
        ended-IsSound id s h a o sound ids.balance now r o.same_id (is_closed h) okr,
        ended_balance id s h a o sound ids.balance now r o.same_id (is_closed h) okr,
        record {
          hold = h;
          found = o.found;
          was_open = o.open_row;
          written = ended_found id s h a o sound ids.balance now r o.same_id (is_closed h) okr;
          given_back = ended_freed id s h a o sound ids.balance now r o.same_id (is_closed h) okr;
        },
      )
  where
    is_closed : (h : CreditTransaction) → is_open (released_row h now) ≡ false
    is_closed h = ground arith

-- The withdrawal reads and writes no ledger row.
saved-Withdrawn :
    (u : UserId) (c : Uuid) (amount : ℤ) (now : Time) (s : Store) (v : ℤ) (s' : Store)
    (r : CreditTransaction)
    → Withdrawn u c amount now s v s'
    → Withdrawn u c amount now (save_transaction r s) v (save_transaction r s')
saved-Withdrawn u c amount now s v s' r w =
    let b : (u' : UserId) (c' : Uuid) (k : Store)
        → balance_of u' c' (save_transaction r k) ≡ balance_of u' c' k =
      λ u' c' k. balance_of_same u' c' k (save_transaction r k) refl in
    let e : (u' : UserId) (c' : Uuid) (k : Store)
        → held_of u' c' (save_transaction r k) ≡ held_of u' c' k =
      λ u' c' k. held_of_same u' c' k (save_transaction r k) refl in
    record {
      available = rw (b u c s, e u c s) w.available;
      amount_left = w.amount_left;
      debited = rw (b u c s) w.debited;
      balances = λ u' c'. rw (b u' c' s', b u' c' s) (w.balances u' c');
      helds = λ u' c'. rw (e u' c' s', e u' c' s) (w.helds u' c');
      transactions =
          ap (λ t. (save_transaction r (record s { transactions = t })).transactions)
            w.transactions;
      rest = w.rest;
      blocks = w.blocks;
    }

module _ (ids : Ids) (id : Uuid) (amount : ℤ) (now : Time) (s : Store) (r : CreditTransaction)
    (s' : Store) (sound : IsSound s) (c : Captured ids id amount now s r s') where
  abbrev row : CreditTransaction
  row = captured_row c.held_row amount c.new_balance now

  wanted_amount : IsAmount amount
  wanted_amount =
      let (a, p) = open_amount id s c.held_row c.authorized c.opened sound ids.balance now in
      at_most amount c.authorized a c.wanted c.bounded
    where
      at_most : (x y : ℤ) → IsAmount y → leb_ℤ x (pos 0) ≡ false → ltb_ℤ y x ≡ false → IsAmount x
      at_most (pos x) (pos y) hy p b = ground arith
      at_most _ _ hy p b = absurd (ground arith)

  row_closed : is_open row ≡ false
  row_closed = ground arith

  abbrev closed_store : Store
  closed_store =
      ended id s c.held_row c.authorized c.opened sound ids.balance now row c.opened.same_id
        row_closed (open_ok id s c.held_row c.authorized c.opened sound ids.balance now)

  closed-IsSound : IsSound closed_store
  closed-IsSound =
      ended-IsSound id s c.held_row c.authorized c.opened sound ids.balance now row c.opened.same_id
        row_closed (open_ok id s c.held_row c.authorized c.opened sound ids.balance now)

  captured-Withdrawn :
      Withdrawn c.held_row.user_id c.held_row.credit_type_id amount now closed_store c.new_balance
        (save_transaction row c.mid)
  captured-Withdrawn =
      let u = c.held_row.user_id in
      let t = c.held_row.credit_type_id in
      let k = closed-IsSound.keys u t in
      let free = unreserve u t c.authorized ids.balance now s in
      let b : balance_of u t closed_store ≡ balance_of u t free =
        balance_of_same u t free closed_store refl in
      let e : held_of u t closed_store ≡ held_of u t free =
        held_of_same u t free closed_store refl in
      saved-Withdrawn u t amount now free c.new_balance c.mid row (
        withdraw-Withdrawn u t amount now free wanted_amount closed-IsSound.amounts
          closed-IsSound.block_ids (subst IsAmount b k.balance) (subst IsAmount e k.held)
          ids.balance c.withdrawn)

  abbrev Settled : CreditTransaction → Store → Type 0
  Settled r x =
      IsSound x
      × (pos_part (balance_of r.user_id r.credit_type_id x) + pos_part amount
          ≡ pos_part (balance_of r.user_id r.credit_type_id s))
      × (pos_part amount ≤ pos_part (authorized_or_zero r.authorized))
      × (pos_part (held_of r.user_id r.credit_type_id x)
          ≤ pos_part (balance_of r.user_id r.credit_type_id x))

  captured-Settled : Settled row (save_transaction row c.mid)
  captured-Settled =
      let u = c.held_row.user_id in
      let t = c.held_row.credit_type_id in
      let w = captured-Withdrawn in
      let b : balance_of u t closed_store ≡ balance_of u t s =
        ended_balance id s c.held_row c.authorized c.opened sound ids.balance now row
          c.opened.same_id row_closed
          (open_ok id s c.held_row c.authorized c.opened sound ids.balance now) u t in
      let nb : balance_of u t (save_transaction row c.mid) ≡ c.new_balance =
        w.balances u t ∙ (ground arith) in
      let nh : held_of u t (save_transaction row c.mid) ≡ held_of u t closed_store = w.helds u t in
      (
        Withdrawn-IsSound u t amount now closed_store c.new_balance (save_transaction row c.mid)
            closed-IsSound w,
        rw nb (w.debited ∙ ap pos_part b),
        rw c.opened.authorized (
            within amount c.authorized wanted_amount
              (open_amount id s c.held_row c.authorized c.opened sound ids.balance now).0
              c.bounded),
        rw (nb, nh) (omega (arith, w.available, w.debited)),
      )
    where
      within : (x y : ℤ) → IsAmount x → IsAmount y → ltb_ℤ y x ≡ false → pos_part x ≤ pos_part y
      within x y hx hy b = ground arith

-- CaptureHold keeps the credit tables sound. The user's balance goes down by exactly the captured
-- amount, that amount is at most what the hold reserved, and what the user's other active holds
-- reserve is still covered by the balance.
pub capture_hold-IsSound :
    (ids : Ids) (id : Uuid) (amount : ℤ) (now : Time) (s : Store) {r : CreditTransaction}
    {s' : Store}
    → IsSound s
    → capture_hold ids id amount now s ≡ ok (r, s')
    → IsSound s'
      × (pos_part (balance_of r.user_id r.credit_type_id s') + pos_part amount
          ≡ pos_part (balance_of r.user_id r.credit_type_id s))
      × (pos_part amount ≤ pos_part (authorized_or_zero r.authorized))
      × (pos_part (held_of r.user_id r.credit_type_id s')
          ≤ pos_part (balance_of r.user_id r.credit_type_id s'))
capture_hold-IsSound ids id amount now s {r} {s'} sound e =
    let c = capture_hold-Captured ids id amount now s e in
    subst₂ (Settled ids id amount now s r s' sound c) (sym c.row) (sym c.store)
      (captured-Settled ids id amount now s r s' sound c)
