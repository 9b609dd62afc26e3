-- ===== src/Credits/Due.antt =====
-- internal/river/jobs_credit_expiry.go: the blocks that a batch reads, and how many are left to
-- expire.
use openrails.Base.{
  ℕ, ◌≤◌, ◌<◌, ◌≡◌, sym, subst, inl, inr, Bool, true, false, not, ◌&&◌, some, List, [], ◌∷◌, ◌==◌,
  arith, Bool-cases, All, All-imp, All-imp₂,
}
use openrails.Base.Int.{pos, leb_ℤ}
use openrails.Base.Sql.{find_where, select_where, count_where, update_where}
use openrails.Rows.{select-All, order-All, select-Pairwise, order-Pairwise, take-All, take-Pairwise}
use openrails.Credits.Model.{Time, Uuid, CreditBlock}
use openrails.Credits.Balance.{set_remaining}
use openrails.Credits.Blocks.{OkBlock, OtherBlock, UniqueBlocks, by_id}
use openrails.Credits.Withdraw.{found_self}
use openrails.Credits.Expiry.{
  KeyTotal, add_total, Round, expired_blocks, expire_blocks, is_expired_block, sooner,
}
use openrails.Credits.Emptied.{Read}

-- A block that the batch reads: it is in the table, and has expired.
abbrev pub Due : Time → List CreditBlock → CreditBlock → Type 0
Due now t b = (is_expired_block now b ≡ true) × Read t b

module _ (r : Round) (size : ℕ) (now : Time) (t : List CreditBlock) (ok_t : All OkBlock t)
    (ids : UniqueBlocks t) where
  abbrev chosen : CreditBlock → Bool
  chosen b = is_expired_block now b && not (r.locked b.id)

  flip : (a b : CreditBlock) → OtherBlock a b → OtherBlock b a
  flip a b h = ground arith

  pub expired_blocks-Due : All (Due now t) (expired_blocks r size now t)
  unfolding expired_blocks
  expired_blocks-Due = take-All (Due now t) size _ (
      order-All (Due now t) (λ a b. sooner a.expires_at b.expires_at) (select_where chosen t)
        (All-imp (λ b. (chosen b ≡ true) × Read t b) (Due now t) (select_where chosen t)
          (λ b (picked, read). (ground arith, read))
          (select-All (Read t) chosen t (
            All-imp₂ OkBlock (λ b. find_where (λ x. x.id == b.id) t ≡ some b) (Read t) t
              (λ b a e. (a, e)) ok_t (found_self t ids)))))

  pub expired_blocks-Unique : UniqueBlocks (expired_blocks r size now t)
  unfolding expired_blocks
  expired_blocks-Unique = take-Pairwise OtherBlock size _ (
      order-Pairwise OtherBlock flip (λ a b. sooner a.expires_at b.expires_at)
        (select_where chosen t) (select-Pairwise OtherBlock chosen t ids))

-- How many blocks a round may still find.
abbrev pub due : Time → List CreditBlock → ℕ
due now t = count_where (is_expired_block now) t

due-set_remaining :
    (now : Time) (id : Uuid) (t : List CreditBlock)
    → due now (set_remaining id (pos 0) t) ≤ due now t
unfolding count_where update_where
due-set_remaining now id [] = omega arith
due-set_remaining now id (x ∷ t) = ground (arith, due-set_remaining now id t)

due-set_remaining_found :
    (now : Time) (b : CreditBlock) (t : List CreditBlock)
    → is_expired_block now b ≡ true
    → find_where (by_id b.id) t ≡ some b
    → due now (set_remaining b.id (pos 0) t) < due now t
unfolding count_where update_where find_where
due-set_remaining_found now b [] e f = absurd (cc)
due-set_remaining_found now b (x ∷ t) e f = elim (Bool-cases (by_id b.id x)) [
  | inl here ↦
      let same : x ≡ b = ground arith in
      let due_x : is_expired_block now x ≡ true =
        subst (λ y. is_expired_block now y ≡ true) (sym same) e in
      ground (arith, due-set_remaining now b.id t)
  | inr there ↦ ground (arith, due-set_remaining_found now b t e)
]

due-expire_blocks :
    (now : Time) (bs : List CreditBlock) (ks : List KeyTotal) (t : List CreditBlock)
    → due now (expire_blocks bs ks t).1 ≤ due now t
unfolding expire_blocks
due-expire_blocks now [] ks t = omega arith
due-expire_blocks now (b ∷ bs) ks t = elim (Bool-cases (leb_ℤ b.remaining_amount (pos 0))) [
  | inl empty ↦ rw empty (due-expire_blocks now bs ks t)
  | inr full ↦
      let first = due-set_remaining now b.id t in
      let rest =
        due-expire_blocks now bs (add_total b.user_id b.credit_type_id b.remaining_amount ks)
          (set_remaining b.id (pos 0) t) in
      rw full (omega (arith, first, rest))
]

pub due-expire_blocks_first :
    (now : Time) (b : CreditBlock) (bs : List CreditBlock) (ks : List KeyTotal)
    (t : List CreditBlock)
    → Due now t b
    → due now (expire_blocks (b ∷ bs) ks t).1 < due now t
unfolding expire_blocks
due-expire_blocks_first now b bs ks t (e, (a, f)) =
    let full : leb_ℤ b.remaining_amount (pos 0) ≡ false = ground arith in
    let first = due-set_remaining_found now b t e f in
    let rest =
      due-expire_blocks now bs (add_total b.user_id b.credit_type_id b.remaining_amount ks)
        (set_remaining b.id (pos 0) t) in
    rw full (omega (arith, first, rest))
