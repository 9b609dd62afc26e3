-- ===== src/Credits/Expire.antt =====
-- internal/river/jobs_credit_expiry.go: the rounds of `CreditExpiryWorker.Work`.
use mathlib.Core.List.{Permᴰ}
use openrails.Base.{
  All-perm, ℕ, zero, suc, ◌<◌, ◌≡◌, refl, ◌∙◌, inl, inr, Bool, true, false, some, List, [], ◌∷◌,
  arith, Bool-cases, All, All-imp,
}
use openrails.Base.Int.{ℤ, pos, int64_half, leb_ℤ}
use openrails.Base.Sql.{count_where}
use openrails.Credits.Model.{Time, UserId, Uuid, CreditBlock, Store}
use openrails.Credits.Accounts.{
  lock_balance-Locked, set_balance_tables, balance_of_same, held_of_same,
}
use openrails.Credits.Blocks.{block_total}
use openrails.Credits.Expiry.{
  KeyTotal, Round, expired_blocks, expire_blocks, expire_key, expire_keys, expire_batch,
  is_expired_block, fewer_than, is_empty, expire_rounds, credit_expiry, batch_or,
}
use openrails.Credits.Totals.{pending, OkTotal, pending-perm}
use openrails.Credits.Emptied.{Read, Expired, expire_blocks-Expired}
use openrails.Credits.Backed.{IsBacked, expire_keys-IsBacked}
use openrails.Credits.Due.{
  Due, expired_blocks-Due, expired_blocks-Unique, due, due-expire_blocks_first,
}

expire_key_blocks :
    (r : Round) (now : Time) (k : KeyTotal) (s : Store) → (expire_key r now k s).blocks ≡ s.blocks
unfolding expire_key
expire_key_blocks r now k s = elim (Bool-cases (leb_ℤ k.amount (pos 0))) [
  | inl none ↦ rw none
  | inr some_left ↦
      let l =
        lock_balance-Locked k.user_id k.credit_type_id (r.ids k.user_id k.credit_type_id).balance
          now s in
      rw some_left ((set_balance_tables k.user_id k.credit_type_id _ now _).0 ∙ l.blocks)
]

expire_keys_blocks :
    (r : Round) (now : Time) (ks : List KeyTotal) (s : Store)
    → (expire_keys r now ks s).blocks ≡ s.blocks
unfolding expire_keys
expire_keys_blocks r now [] s = refl
expire_keys_blocks r now (k ∷ ks) s =
    expire_keys_blocks r now ks (expire_key r now k s) ∙ expire_key_blocks r now k s

-- Every sum over the blocks of a user and credit type is an `int64`.
abbrev pub Fits : Store → Type 0
Fits s = (u : UserId) (c : Uuid) → block_total u c s.blocks < int64_half

module _ (r : Round) (size : ℕ) (now : Time) (s : Store) (b : IsBacked [] s) (fits : Fits s)
    (perm : (ks : List KeyTotal) → Permᴰ ks (r.visit ks)) where
  abbrev batch : List CreditBlock
  batch = expired_blocks r size now s.blocks

  abbrev totals : List KeyTotal
  totals = (expire_blocks batch [] s.blocks).0

  abbrev emptied : Store
  emptied = record s { blocks = (expire_blocks batch [] s.blocks).1 }

  batch-Expired : Expired [] totals s.blocks emptied.blocks
  unfolding pending
  batch-Expired =
      expire_blocks-Expired batch [] s.blocks
        (expired_blocks-Unique r size now s.blocks b.amounts b.block_ids)
        (All-imp (Due now s.blocks) (Read s.blocks) batch (λ x h. h.1)
          (expired_blocks-Due r size now s.blocks b.amounts b.block_ids))
        tt b.amounts b.block_ids (λ u c. omega (arith, fits u c))

  emptied-IsBacked : IsBacked (r.visit totals) emptied
  unfolding pending
  emptied-IsBacked = record {
    amounts = batch-Expired.amounts;
    block_ids = batch-Expired.ids;
    keys = λ u c.
        let k = b.keys u c in
        let p = pending-perm u c (perm totals) in
        let e = batch-Expired.sums u c in
        record {
          balance = rw (balance_of_same u c s emptied refl) k.balance;
          held = rw (held_of_same u c s emptied refl) k.held;
          backed = rw (balance_of_same u c s emptied refl) (omega (arith, k.backed, p, e));
          reserved = rw (held_of_same u c s emptied refl) k.reserved;
        };
  }

  expire_batch-IsBacked : IsBacked [] (expire_batch r now batch s)
  unfolding expire_batch
  expire_batch-IsBacked =
      expire_keys-IsBacked r now (r.visit totals) emptied emptied-IsBacked
        (All-perm OkTotal (perm totals) batch-Expired.totals)

  batch_blocks : (expire_batch r now batch s).blocks ≡ emptied.blocks
  unfolding expire_batch
  batch_blocks = expire_keys_blocks r now (r.visit totals) emptied

  expire_batch-Fits : Fits (expire_batch r now batch s)
  unfolding pending
  expire_batch-Fits u c = rw batch_blocks (omega (arith, batch-Expired.sums u c, fits u c))

  due-expire_batch :
      is_empty batch ≡ false → due now (expire_batch r now batch s).blocks < due now s.blocks
  due-expire_batch some_row =
      rw batch_blocks
        (first batch some_row (expired_blocks-Due r size now s.blocks b.amounts b.block_ids))
    where
      first :
          (bs : List CreditBlock)
          → is_empty bs ≡ false
          → All (Due now s.blocks) bs
          → due now (expire_blocks bs [] s.blocks).1 < due now s.blocks
      first [] e h = absurd (cc)
      first (x ∷ bs) e h = due-expire_blocks_first now x bs [] s.blocks h.0

expire_rounds-ends :
    (rounds : ℕ → Round) (n size : ℕ) (now : Time) (s : Store)
    → ((m : ℕ) (ks : List KeyTotal) → Permᴰ ks ((rounds m).visit ks))
    → IsBacked [] s
    → Fits s
    → due now s.blocks < n
    → (s' : Store) × (expire_rounds rounds n size now s ≡ some s') × IsBacked [] s'
unfolding expire_rounds
expire_rounds-ends rounds zero size now s perm b fits enough = absurd (omega (arith, enough))
expire_rounds-ends rounds (suc n) size now s perm b fits enough =
    let blocks = expired_blocks (rounds n) size now s.blocks in
    let s₁ = expire_batch (rounds n) now blocks s in
    let b₁ = expire_batch-IsBacked (rounds n) size now s b fits (perm n) in
    elim (Bool-cases (is_empty blocks)) [
      | inl none ↦ (s, rw none, b)
      | inr some_row ↦ elim (Bool-cases (fewer_than size blocks)) [
        | inl last ↦ (s₁, rw (some_row, last), b₁)
        | inr full ↦
            let less = due-expire_batch (rounds n) size now s b fits (perm n) some_row in
            let (s', e, b') =
              expire_rounds-ends rounds n size now s₁ perm b₁
                (expire_batch-Fits (rounds n) size now s b fits (perm n))
                (omega (arith, less, enough)) in
            (s', rw (some_row, full) e, b')
      ]
    ]

-- The credit expiry worker ends: with more rounds than there are blocks to expire it returns, in
-- whatever order it visits its map (a permutation) and whichever rows are locked elsewhere. If the
-- tables that it finds are backed (balances and held balances are amounts, every balance is at most
-- what its blocks hold, the held balance is what the active holds reserve) and the sums over blocks
-- fit an int64, then the tables that it leaves are backed.
pub credit_expiry-IsBacked :
    (disabled : Bool) (rounds : ℕ → Round) (fuel : ℕ) (batch_size : ℤ) (now : Time) (s : Store)
    → ((m : ℕ) (ks : List KeyTotal) → Permᴰ ks ((rounds m).visit ks))
    → IsBacked [] s
    → Fits s
    → count_where (is_expired_block now) s.blocks < fuel
    → (s' : Store) × (credit_expiry disabled rounds fuel batch_size now s ≡ some s')
      × IsBacked [] s'
unfolding credit_expiry
credit_expiry-IsBacked true rounds fuel batch_size now s perm b fits enough = (s, refl, b)
credit_expiry-IsBacked false rounds fuel batch_size now s perm b fits enough =
    expire_rounds-ends rounds fuel (batch_or 200 batch_size) now s perm b fits enough
