-- ===== src/Credits/Reserved.antt =====
-- internal/modules/credits/credits_service.go: the held balance beside what the active holds
-- reserve, when a hold ends.
use mathlib.Core.Path.{subst₂}
use openrails.Base.{
  ℕ, ◌+◌, ◌<◌, ◌≡◌, refl, sym, subst, ap, ◌∙◌, inl, inr, true, false, some, List, [], ◌∷◌, ◌==◌,
  if◌then◌else◌, arith, Bool-cases, All, Pairwise,
}
use openrails.Base.Int.{ℤ, pos_part, sub64}
use openrails.Base.Sql.{update_where, find_where}
use openrails.Rows.{find-All, find-test, find-update}
use openrails.Credits.Model.{Time, UserId, Uuid, CreditTransaction, Store, owns_transaction}
use openrails.Credits.Balance.{lock_balance}
use openrails.Credits.Holds.{unreserve, save_transaction}
use openrails.Credits.Accounts.{
  same_key, balance_of, held_of, balance_of_same, held_of_same, held_of-set_held_balance,
  balance_of-set_held_balance, lock_balance-Locked,
}
use openrails.Credits.Blocks.{IsAmount, sub64_amount}
use openrails.Credits.Invariant.{
  IsSound, KeySound, is_open, held_total, authorized_or_zero, OkTransaction, OtherTransaction,
  same_key-eq,
}
use openrails.Credits.Withdrawals.{positive_amount}
use openrails.Credits.OpenHold.{Open, unreserve_tables}

abbrev pub saved : CreditTransaction → List CreditTransaction → List CreditTransaction
saved r = update_where (λ x. x.id == r.id) (λ _. r)

pub saved-absent :
    (r : CreditTransaction) (t : List CreditTransaction)
    → All (λ x. (r.id == x.id) ≡ false) t
    → saved r t ≡ t
unfolding update_where
saved-absent r [] h = refl
saved-absent r (x ∷ t) h = ground (arith, saved-absent r t h.1)

pub saved-All :
    (r : CreditTransaction) (t : List CreditTransaction)
    → OkTransaction r
    → All OkTransaction t
    → All OkTransaction (saved r t)
unfolding update_where
saved-All r [] hr h = tt
saved-All r (x ∷ t) hr h = (ground arith, saved-All r t hr h.1)

pub saved-Unique :
    (r : CreditTransaction) (t : List CreditTransaction)
    → Pairwise OtherTransaction t
    → Pairwise OtherTransaction (saved r t)
unfolding update_where
saved-Unique r [] h = tt
saved-Unique r (x ∷ t) h = (apart t h.0, saved-Unique r t h.1)
  where
    apart :
        (k : List CreditTransaction)
        → All (OtherTransaction x) k
        → All (OtherTransaction (if x.id == r.id then r else x)) (saved r k)
    apart [] q = tt
    apart (y ∷ k) q = (ground arith, apart k q.1)

-- A saved row is found under its identifier.
pub saved_found :
    (id : Uuid) (r : CreditTransaction) (t : List CreditTransaction) {h : CreditTransaction}
    → find_where (λ x. x.id == id) t ≡ some h
    → (r.id == id) ≡ true
    → find_where (λ x. x.id == id) (saved r t) ≡ some r
saved_found id r t {h} found same =
    let keep : (x : CreditTransaction) → ((if x.id == r.id then r else x).id == id) ≡ (x.id == id) =
      λ x. ground arith in
    let own : (h.id == id) ≡ true = find-test (λ x. x.id == id) t found in
    find-update (λ x. x.id == id) (λ x. x.id == r.id) (λ _. r) t keep ∙ rw found (ground arith)

abbrev pub reserves : UserId → Uuid → CreditTransaction → ℕ
reserves u c h = if owns_transaction u c h then pos_part (authorized_or_zero h.authorized) else 0

-- Saving a hold that is no longer active gives back what it reserved, and only that.
pub held_total-saved :
    (u : UserId) (c : Uuid) (h r : CreditTransaction) (t : List CreditTransaction)
    → Pairwise OtherTransaction t
    → find_where (λ x. x.id == r.id) t ≡ some h
    → is_open h ≡ true
    → is_open r ≡ false
    → held_total u c (saved r t) + reserves u c h ≡ held_total u c t
unfolding held_total update_where find_where
held_total-saved u c h r [] ids found open_h closed = absurd (cc)
held_total-saved u c h r (x ∷ t) ids found open_h closed = elim (Bool-cases (x.id == r.id)) [
  | inl here ↦
      let e : x ≡ h = ground arith in
      let ei : x.id ≡ r.id = ground arith in
      let same : saved r t ≡ t =
        saved-absent r t (subst (λ k. All (λ y. (k == y.id) ≡ false) t) ei ids.0) in
      subst (λ k. held_total u c (saved r (k ∷ t)) + reserves u c h ≡ held_total u c (k ∷ t))
        (sym e) (rw same (ground arith))
  | inr there ↦ ground (arith, held_total-saved u c h r t ids.1)
]

-- What `unreserve` leaves: the held balance of the key less the authorized amount.
module _ (u : UserId) (c : Uuid) (a : ℤ) (id : Uuid) (now : Time) (s : Store) where
  abbrev freed : Store
  freed = unreserve u c a id now s

  freed_balance : (u' : UserId) (c' : Uuid) → balance_of u' c' freed ≡ balance_of u' c' s
  unfolding unreserve
  freed_balance u' c' =
      let l = lock_balance-Locked u c id now s in
      balance_of-set_held_balance u c (sub64 (lock_balance u c id now s).0.held_balance a) now
        (lock_balance u c id now s).1 l.row u' c'
      ∙ l.balances u' c'

  freed_held :
      (u' : UserId) (c' : Uuid)
      → held_of u' c' freed
        ≡ (if same_key u c u' c' then sub64 (held_of u c s) a else held_of u' c' s)
  unfolding unreserve
  freed_held u' c' =
      let l = lock_balance-Locked u c id now s in
      held_of-set_held_balance u c (sub64 (lock_balance u c id now s).0.held_balance a) now
        (lock_balance u c id now s).1 l.row u' c'
      ∙ (rw (l.held, l.helds u' c'))

module _ (id : Uuid) (s : Store) (h : CreditTransaction) (a : ℤ) (o : Open id s h a)
    (sound : IsSound s) (bal_id : Uuid) (now : Time) where
  pub open_ok : OkTransaction h
  open_ok = find-All OkTransaction (λ r. r.id == id) s.transactions sound.holds o.found

  pub open_amount : IsAmount a × (0 < pos_part a)
  open_amount =
      let b : IsAmount a = subst (λ x. IsAmount (authorized_or_zero x)) o.authorized open_ok in
      positive_amount a b.1 o.positive

  open_share :
      (u : UserId) (c : Uuid)
      → reserves u c h ≡ (if same_key h.user_id h.credit_type_id u c then pos_part a else 0)
  open_share u c = rw o.authorized (ground arith)

  module _ (r : CreditTransaction) (same_id : (r.id == id) ≡ true) (closed : is_open r ≡ false)
      (okr : OkTransaction r) where
    abbrev pub ended : Store
    ended = save_transaction r (unreserve h.user_id h.credit_type_id a bal_id now s)

    ended_transactions : ended.transactions ≡ saved r s.transactions
    ended_transactions = ap (saved r) (unreserve_tables h.user_id h.credit_type_id a bal_id now s).1

    ended_total :
        (u : UserId) (c : Uuid)
        → held_total u c ended.transactions
            + (if same_key h.user_id h.credit_type_id u c then pos_part a else 0)
          ≡ held_total u c s.transactions
    ended_total u c =
        let ei : id ≡ r.id = ground arith in
        let f : find_where (λ x. x.id == r.id) s.transactions ≡ some h =
          subst (λ k. find_where (λ x. x.id == k) s.transactions ≡ some h) ei o.found in
        subst
          (λ k.
            held_total u c k + (if same_key h.user_id h.credit_type_id u c then pos_part a else 0)
            ≡ held_total u c s.transactions)
          (sym ended_transactions)
          (ap (λ k. held_total u c (saved r s.transactions) + k) (sym (open_share u c))
            ∙ held_total-saved u c h r s.transactions sound.transaction_ids f o.open_row closed)

    pub ended_balance : (u : UserId) (c : Uuid) → balance_of u c ended ≡ balance_of u c s
    ended_balance u c =
        balance_of_same u c (unreserve h.user_id h.credit_type_id a bal_id now s) ended refl
        ∙ freed_balance h.user_id h.credit_type_id a bal_id now s u c

    pub ended_held :
        (u : UserId) (c : Uuid)
        → held_of u c ended ≡ (
            if same_key h.user_id h.credit_type_id u c
            then sub64 (held_of h.user_id h.credit_type_id s) a
            else held_of u c s)
    ended_held u c =
        held_of_same u c (unreserve h.user_id h.credit_type_id a bal_id now s) ended refl
        ∙ freed_held h.user_id h.credit_type_id a bal_id now s u c

    ended_blocks : ended.blocks ≡ s.blocks
    ended_blocks = (unreserve_tables h.user_id h.credit_type_id a bal_id now s).0

    ended_key : (u : UserId) (c : Uuid) → KeySound u c ended
    ended_key u c = elim (Bool-cases (same_key h.user_id h.credit_type_id u c)) [
      | inl own ↦
          let (eu, ec) = same_key-eq h.user_id h.credit_type_id u c own in
          let k = sound.keys h.user_id h.credit_type_id in
          let eh : held_of u c ended ≡ sub64 (held_of h.user_id h.credit_type_id s) a =
            ended_held u c ∙ (rw own) in
          let et : held_total u c ended.transactions + pos_part a
              ≡ held_total h.user_id h.credit_type_id s.transactions =
            subst₂ (λ x y. held_total u c ended.transactions + x ≡ y) (rw own) (rw (eu, ec))
              (ended_total u c) in
          let (na, ne) =
            sub64_amount (held_of h.user_id h.credit_type_id s) a k.held open_amount.0
              (omega (arith, et, k.reserved)) in
          record {
            balance = rw (ended_balance u c) (sound.keys u c).balance;
            held = rw eh na;
            backed = rw (ended_balance u c, ended_blocks) (sound.keys u c).backed;
            reserved = rw eh (omega (arith, ne, et, k.reserved));
          }
      | inr other ↦
          let eh : held_of u c ended ≡ held_of u c s = ended_held u c ∙ (rw other) in
          let et : held_total u c ended.transactions + 0 ≡ held_total u c s.transactions =
            subst (λ x. held_total u c ended.transactions + x ≡ held_total u c s.transactions)
              (rw other) (ended_total u c) in
          record {
            balance = rw (ended_balance u c) (sound.keys u c).balance;
            held = rw eh (sound.keys u c).held;
            backed = rw (ended_balance u c, ended_blocks) (sound.keys u c).backed;
            reserved = rw eh (omega (arith, et, (sound.keys u c).reserved));
          }
    ]

    pub ended-IsSound : IsSound ended
    ended-IsSound = record {
      amounts = rw ended_blocks sound.amounts;
      block_ids = rw ended_blocks sound.block_ids;
      holds = rw ended_transactions (saved-All r s.transactions okr sound.holds);
      transaction_ids = rw ended_transactions (saved-Unique r s.transactions sound.transaction_ids);
      keys = ended_key;
    }

    -- The held balances give back what the hold reserved.
    pub ended_freed :
        (u : UserId) (c : Uuid)
        → pos_part (held_of u c ended) + reserves u c h ≡ pos_part (held_of u c s)
    ended_freed u c =
        rw (open_share u c)
          (omega (arith, ended_total u c, (ended_key u c).reserved, (sound.keys u c).reserved))

    pub ended_found : find_where (λ x. x.id == id) ended.transactions ≡ some r
    ended_found =
        subst (λ t. find_where (λ x. x.id == id) t ≡ some r) (sym ended_transactions)
          (saved_found id r s.transactions o.found same_id)
