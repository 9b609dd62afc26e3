-- ===== src/Credits/HoldRounds.antt =====
-- internal/river/jobs_hold_expiry.go: the rounds of `HoldExpiryWorker.Work`.
use mathlib.Core.List.{Permᴰ}
use openrails.Base.{
  All-perm, ℕ, zero, suc, ◌<◌, ◌≡◌, refl, inl, inr, Bool, true, false, not, ◌&&◌, Option, some,
  List, [], ◌∷◌, arith, Bool-cases, All, All-imp, All-imp₂, Pairwise, Result, ok,
}
use openrails.Base.Int.{ℤ, int64_half}
use openrails.Base.Sql.{find_where, select_where, count_where}
use openrails.Rows.{select-All, order-All, select-Pairwise, order-Pairwise, take-All, take-Pairwise}
use openrails.Credits.Model.{Time, UserId, Uuid, CreditTransaction, Store, Error}
use openrails.Credits.Accounts.{balance_of_same, held_of_same}
use openrails.Credits.Invariant.{held_total, OkTransaction, OtherTransaction, IsSound}
use openrails.Credits.Expiry.{KeyTotal, Round, sooner, fewer_than, is_empty, batch_or}
use openrails.Credits.HoldExpiry.{
  is_expired_hold, expired_holds, expire_holds, hold_batch, hold_rounds, hold_expiry,
}
use openrails.Credits.Totals.{pending, pending-perm, OkTotal}
use openrails.Credits.FreedHolds.{Held, Found, Payable, due_holds}
use openrails.Credits.Freeing.{Freed, expire_holds-Freed, due_holds-expire_holds}
use openrails.Credits.FreedKeys.{AllHeld, free_keys-ok}

Found-self : (t : List CreditTransaction) → Pairwise OtherTransaction t → All (Found t) t
unfolding find_where
Found-self [] ids = tt
Found-self (h ∷ t) ids = (
  ground arith,
  All-imp₂ (OtherTransaction h) (Found t) (Found (h ∷ t)) t (λ x ne e. rw ne e) ids.0
      (Found-self t ids.1),
)

module _ (r : Round) (size : ℕ) (now : Time) (t : List CreditTransaction)
    (ok_t : All OkTransaction t) (ids : Pairwise OtherTransaction t) where
  abbrev chosen : CreditTransaction → Bool
  chosen h = is_expired_hold now h && not (r.locked h.id)

  flip : (a b : CreditTransaction) → OtherTransaction a b → OtherTransaction b a
  flip a b h = ground arith

  expired_holds-Held : All (Held now t) (expired_holds r size now t)
  unfolding expired_holds
  expired_holds-Held = take-All (Held now t) size _ (
      order-All (Held now t) (λ a b. sooner a.expires_at b.expires_at) (select_where chosen t)
        (All-imp (λ h. (chosen h ≡ true) × (OkTransaction h × Found t h)) (Held now t)
          (select_where chosen t) (λ h (picked, read). (ground arith, read))
          (select-All (λ h. OkTransaction h × Found t h) chosen t
            (All-imp₂ OkTransaction (Found t) (λ h. OkTransaction h × Found t h) t (λ h a e. (a, e))
              ok_t (Found-self t ids)))))

  expired_holds-Unique : Pairwise OtherTransaction (expired_holds r size now t)
  unfolding expired_holds
  expired_holds-Unique = take-Pairwise OtherTransaction size _ (
      order-Pairwise OtherTransaction flip (λ a b. sooner a.expires_at b.expires_at)
        (select_where chosen t) (select-Pairwise OtherTransaction chosen t ids))

module _ (r : Round) (size : ℕ) (now : Time) (s : Store) (sound : IsSound s)
    (payable : All Payable s.transactions)
    (perm : (ks : List KeyTotal) → Permᴰ ks (r.visit ks)) where
  abbrev batch : List CreditTransaction
  batch = expired_holds r size now s.transactions

  abbrev totals : List KeyTotal
  totals = (expire_holds now batch [] s.transactions).0

  abbrev marked : Store
  marked = record s { transactions = (expire_holds now batch [] s.transactions).1 }

  room : (u : UserId) (c : Uuid) → held_total u c s.transactions < int64_half
  room u c = let k = sound.keys u c in omega (arith, k.reserved, k.held.1)

  batch-Freed : Freed now [] totals s.transactions marked.transactions
  unfolding pending
  batch-Freed =
      expire_holds-Freed now batch [] s.transactions
        (expired_holds-Unique r size now s.transactions sound.holds sound.transaction_ids)
        (expired_holds-Held r size now s.transactions sound.holds sound.transaction_ids) tt
        sound.holds sound.transaction_ids payable (λ u c. omega (arith, room u c))

  marked-AllHeld : AllHeld (r.visit totals) marked
  unfolding pending
  marked-AllHeld u c =
      let k = sound.keys u c in
      let p = pending-perm u c (perm totals) in
      let e = batch-Freed.sums u c in
      record {
        balance = rw (balance_of_same u c s marked refl) k.balance;
        held = rw (held_of_same u c s marked refl) k.held;
        backed = rw (balance_of_same u c s marked refl) k.backed;
        reserved = rw (held_of_same u c s marked refl) (omega (arith, k.reserved, p, e));
      }

  -- One transaction succeeds, and leaves sound tables.
  hold_batch-ok :
      (s' : Store) × (hold_batch r now batch s ≡ ok s')
      × IsSound s'
      × (s'.transactions ≡ marked.transactions)
  unfolding hold_batch pending
  hold_batch-ok =
      let (s', e, b, kept) =
        free_keys-ok now (r.visit totals) marked marked-AllHeld
          (All-perm OkTotal (perm totals) batch-Freed.totals) in
      (
        s',
        e,
        record {
          amounts = rw kept.0 sound.amounts;
          block_ids = rw kept.0 sound.block_ids;
          holds = rw kept.1 batch-Freed.rows;
          transaction_ids = rw kept.1 batch-Freed.ids;
          keys = λ u c. record {
            balance = (b u c).balance;
            held = (b u c).held;
            backed = (b u c).backed;
            reserved = omega (arith, (b u c).reserved);
          };
        },
        kept.1,
      )

  due_holds-batch :
      is_empty batch ≡ false → due_holds now marked.transactions < due_holds now s.transactions
  due_holds-batch some_row =
      first batch some_row
        (expired_holds-Unique r size now s.transactions sound.holds sound.transaction_ids)
        (expired_holds-Held r size now s.transactions sound.holds sound.transaction_ids)
    where
      first :
          (hs : List CreditTransaction)
          → is_empty hs ≡ false
          → Pairwise OtherTransaction hs
          → All (Held now s.transactions) hs
          → due_holds now (expire_holds now hs [] s.transactions).1 < due_holds now s.transactions
      first [] e u h = absurd (cc)
      first (x ∷ hs) e u h =
          due_holds-expire_holds now x hs s.transactions u h sound.holds sound.transaction_ids
            payable room

abbrev Ends : Option (Store × Result Error (Unit {0})) → Type 0
Ends o = (s' : Store) × (o ≡ some (s', ok tt)) × IsSound s'

hold_rounds-Ends :
    (rounds : ℕ → Round) (n size : ℕ) (now : Time) (s : Store)
    → ((m : ℕ) (ks : List KeyTotal) → Permᴰ ks ((rounds m).visit ks))
    → IsSound s
    → All Payable s.transactions
    → due_holds now s.transactions < n
    → Ends (hold_rounds rounds n size now s)
unfolding hold_rounds
hold_rounds-Ends rounds zero size now s perm sound payable enough = absurd (omega (arith, enough))
hold_rounds-Ends rounds (suc n) size now s perm sound payable enough =
    let holds = expired_holds (rounds n) size now s.transactions in
    let (s₁, e, sound₁, same) = hold_batch-ok (rounds n) size now s sound payable (perm n) in
    elim (Bool-cases (is_empty holds)) [
      | inl none_left ↦ (s, rw none_left, sound)
      | inr some_row ↦ elim (Bool-cases (fewer_than size holds)) [
        | inl last ↦ (s₁, rw (some_row, e, last), sound₁)
        | inr full ↦
            let less = due_holds-batch (rounds n) size now s sound payable (perm n) some_row in
            let payable₁ : All Payable s₁.transactions =
              rw same (batch-Freed (rounds n) size now s sound payable (perm n)).payable in
            let below : due_holds now s₁.transactions < n = rw same (omega (arith, less, enough)) in
            let (s', e', sound') =
              hold_rounds-Ends rounds n size now s₁ perm sound₁ payable₁ below in
            (s', rw (some_row, e, full) e', sound')
      ]
    ]

-- The hold expiry worker ends without an error and keeps the credit tables sound, when every active
-- hold reserves a positive amount: with more rounds than there are holds to expire it returns, in
-- whatever order it visits its map (a permutation) and whichever rows are locked elsewhere.
pub hold_expiry-IsSound :
    (disabled : Bool) (rounds : ℕ → Round) (fuel : ℕ) (batch_size : ℤ) (now : Time) (s : Store)
    → ((m : ℕ) (ks : List KeyTotal) → Permᴰ ks ((rounds m).visit ks))
    → IsSound s
    → All Payable s.transactions
    → count_where (is_expired_hold now) s.transactions < fuel
    → (s' : Store) × (hold_expiry disabled rounds fuel batch_size now s ≡ some (s', ok tt))
      × IsSound s'
unfolding hold_expiry
hold_expiry-IsSound true rounds fuel batch_size now s perm sound payable enough = (s, refl, sound)
hold_expiry-IsSound false rounds fuel batch_size now s perm sound payable enough =
    hold_rounds-Ends rounds fuel (batch_or 100 batch_size) now s perm sound payable enough
