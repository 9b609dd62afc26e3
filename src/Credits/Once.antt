-- ===== src/Credits/Once.antt =====
-- internal/modules/credits/credits_service.go: repeated calls of `depositTx` and `Hold` with one
-- idempotency key.
use openrails.Base.{
  ◌≡◌, refl, subst, ap, ◌∙◌, inl, inr, Option, none, some, arith, Option-cases, ok, ok-injective,
}
use openrails.Base.Sql.{find_where}
use openrails.Credits.Model.{
  Time, Uuid, Text, CreditType, CreditTransaction, UserCreditBalance, Store, is_hold,
}
use openrails.Credits.Balance.{lock_balance}
use openrails.Credits.Service.{
  Ids, CreditDepositParams, earlier_deposit, post_deposit, finish_deposit, deposit_tx, has_source,
}
use openrails.Credits.Holds.{HoldParams, finish_hold, hold_tx, reserve}
use openrails.Credits.Accounts.{
  row_of, row_of-set_balance, lock_balance_again, Locked, lock_balance-Locked,
}

pub deposit_tx_again :
    (ids : Ids) (ct : CreditType) (p : CreditDepositParams) (now : Time) (s : Store)
    {b : UserCreditBalance} {r : CreditTransaction}
    → row_of p.user_id ct.id s ≡ some b
    → earlier_deposit ct.id p s ≡ some r
    → deposit_tx ids ct p now s ≡ (r, s)
unfolding deposit_tx finish_deposit
deposit_tx_again ids ct p now s row e =
    rw (lock_balance_again p.user_id ct.id ids.balance now s row, e)

-- The posted row is found under its key.
posted_key :
    (ids : Ids) (c : Uuid) (p : CreditDepositParams) (now : Time) (bal : UserCreditBalance)
    (s : Store) {k : Text}
    → p.source_id ≡ some k
    → earlier_deposit c p (post_deposit ids c p now bal s).1
      ≡ some (post_deposit ids c p now bal s).0
unfolding earlier_deposit post_deposit find_where
posted_key ids c p now bal s {k} key = ground arith

-- What the first deposit leaves behind for the second: the row, and itself under its key.
pub deposit_tx-leaves :
    (ids : Ids) (ct : CreditType) (p : CreditDepositParams) (now : Time) (s : Store) {k : Text}
    → p.source_id ≡ some k
    → ((b : UserCreditBalance) × (row_of p.user_id ct.id (deposit_tx ids ct p now s).1 ≡ some b))
      × (earlier_deposit ct.id p (deposit_tx ids ct p now s).1 ≡ some (deposit_tx ids ct p now s).0)
unfolding deposit_tx finish_deposit post_deposit
deposit_tx-leaves ids ct p now s {k} key = left (earlier_deposit ct.id p locked.1) refl
  where
    locked : UserCreditBalance × Store
    locked = lock_balance p.user_id ct.id ids.balance now s

    l : Locked p.user_id ct.id s locked.0 locked.1
    l = lock_balance-Locked p.user_id ct.id ids.balance now s

    left :
        (o : Option CreditTransaction)
        → earlier_deposit ct.id p locked.1 ≡ o
        → ((b : UserCreditBalance) × (row_of p.user_id ct.id
                (finish_deposit ids ct.id p now locked o).1
              ≡ some b))
          × (earlier_deposit ct.id p (finish_deposit ids ct.id p now locked o).1
              ≡ some (finish_deposit ids ct.id p now locked o).0)
    left (some existing) e = ((locked.0, l.row), e)
    left none e = (
      (_, row_of-set_balance p.user_id ct.id _ now locked.1 l.row),
      posted_key ids ct.id p now locked.0 locked.1 key,
    )

-- A deposit with an idempotency key is made once: a second call with the same parameters, at any
-- time and with any new identifiers, returns the first call's ledger row and leaves the tables as
-- the first call left them.
pub deposit_tx_once :
    (ids ids' : Ids) (ct : CreditType) (p : CreditDepositParams) (now now' : Time) (s : Store)
    {k : Text}
    → p.source_id ≡ some k
    → deposit_tx ids' ct p now' (deposit_tx ids ct p now s).1 ≡ deposit_tx ids ct p now s
deposit_tx_once ids ids' ct p now now' s key =
    let ((b, row), e) = deposit_tx-leaves ids ct p now s key in
    deposit_tx_again ids' ct p now' (deposit_tx ids ct p now s).1 row e

hold_key :
    (id c : Uuid) (p : HoldParams) (now : Time) (bal : UserCreditBalance) (s : Store)
    {r : CreditTransaction} {s' : Store}
    → reserve id c p now bal s ≡ ok (r, s')
    → find_where (has_source is_hold p.user_id c p.source p.source_id) s'.transactions ≡ some r
unfolding reserve find_where
hold_key id c p now bal s {r} {s'} h = ground arith

hold_tx_found :
    (ids : Ids) (c : Uuid) (p : HoldParams) (now : Time) (s : Store) {e : CreditTransaction}
    → find_where (has_source is_hold p.user_id c p.source p.source_id) s.transactions ≡ some e
    → hold_tx ids c p now s ≡ ok (e, s)
unfolding hold_tx finish_hold
hold_tx_found ids c p now s found = rw found

-- A hold is made once under its key: after a successful call, a repeated call returns the same hold
-- and reserves nothing more.
pub hold_tx_once :
    (ids ids' : Ids) (c : Uuid) (p : HoldParams) (now now' : Time) (s : Store)
    {r : CreditTransaction} {s' : Store}
    → hold_tx ids c p now s ≡ ok (r, s')
    → hold_tx ids' c p now' s' ≡ ok (r, s')
unfolding hold_tx finish_hold
hold_tx_once ids ids' c p now now' s {r} {s'} h =
    elim (Option-cases
      (find_where (has_source is_hold p.user_id c p.source p.source_id) s.transactions)) [
        | inl new ↦ hold_tx_found ids' c p now' s' (
            hold_key ids.transaction c p now (lock_balance p.user_id c ids.balance now s).0
              (lock_balance p.user_id c ids.balance now s).1 (rw new at h))
        | inr (e, found) ↦
            let same : ok (e, s) ≡ ok (r, s') = rw found at h in
            subst (λ v. hold_tx ids' c p now' v ≡ ok (r, s')) (ap (λ x. x.1) (ok-injective same))
              (hold_tx_found ids' c p now' s found ∙ same)
      ]
