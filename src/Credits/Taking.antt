-- ===== src/Credits/Taking.antt =====
-- internal/modules/credits/credits_service.go: the loop of `withdrawBalanceAndBlocks` over the
-- blocks.
use openrails.Base.{
  ℕ, ◌+◌, ◌-◌, ◌≤◌, ◌≡◌, refl, inl, inr, true, false, some, List, [], ◌∷◌, arith, Bool-cases, All,
}
use openrails.Base.Int.{ℤ, pos, pos_part, sub64, leb_ℤ, eqb_ℤ}
use openrails.Base.Sql.{find_where}
use openrails.Credits.Model.{UserId, Uuid, CreditBlock, owns_block}
use openrails.Credits.Balance.{portion, set_remaining, use_blocks}
use openrails.Credits.Accounts.{same_key}
use openrails.Credits.Blocks.{
  IsAmount, sub64_amount, block_total, OkBlock, OtherBlock, UniqueBlocks, by_id, share,
  block_total-set_remaining, find-set_remaining_other, set_remaining-All, set_remaining-Unique,
}

-- A block that was read from the table and has not changed there since.
abbrev pub Ready : UserId → Uuid → List CreditBlock → CreditBlock → Type 0
Ready u c t b =
    (owns_block u c b ≡ true) × IsAmount b.remaining_amount × (find_where (by_id b.id) t ≡ some b)

abbrev pub sum_remaining : List CreditBlock → ℕ
sum_remaining [] = 0
sum_remaining (b ∷ bs) = pos_part b.remaining_amount + sum_remaining bs

-- What the loop over the blocks does to the table, and what it leaves uncovered.
pub record Used (u : UserId) (c : Uuid) (bs : List CreditBlock) (r : ℤ) (t t' : List CreditBlock)
    (rest : ℤ) : Type 0 where
  pub amount : IsAmount rest
  pub covered : pos_part rest ≡ pos_part r - sum_remaining bs
  pub own : block_total u c t' + pos_part r ≡ block_total u c t + pos_part rest
  pub others :
      (u' : UserId) (c' : Uuid)
      → same_key u c u' c' ≡ false
      → block_total u' c' t' ≡ block_total u' c' t
  pub amounts : All OkBlock t'
  pub ids : UniqueBlocks t'

module _ (u : UserId) (c : Uuid) where
  Ready-after :
      (b : CreditBlock) (v : ℤ) (t : List CreditBlock) (bs : List CreditBlock)
      → All (OtherBlock b) bs
      → All (Ready u c t) bs
      → All (Ready u c (set_remaining b.id v t)) bs
  Ready-after b v t [] ne h = tt
  Ready-after b v t (x ∷ bs) ne ((own, a, e), h) =
      ((own, a, find-set_remaining_other b.id x.id v t ne.0 e), Ready-after b v t bs ne.1 h)

  module _ (b : CreditBlock) (bs : List CreditBlock) (r : ℤ) (t : List CreditBlock)
      (ar : IsAmount r) (ready : Ready u c t b) (ids : UniqueBlocks t) where
    done-Used : eqb_ℤ r (pos 0) ≡ true → All OkBlock t → Used u c (b ∷ bs) r t t r
    done-Used z ok_t = record {
      amount = ar;
      covered = ground arith;
      own = refl;
      others = λ u' c' other. refl;
      amounts = ok_t;
      ids = ids;
    }

    skip-Used :
        (t' : List CreditBlock) (rest : ℤ)
        → eqb_ℤ r (pos 0) ≡ false
        → leb_ℤ (portion r b.remaining_amount) (pos 0) ≡ true
        → Used u c bs r t t' rest
        → Used u c (b ∷ bs) r t t' rest
    skip-Used t' rest more nothing h = record {
      amount = h.amount;
      covered = ground (arith, h.covered);
      own = h.own;
      others = h.others;
      amounts = h.amounts;
      ids = h.ids;
    }

    abbrev used : ℤ
    used = portion r b.remaining_amount

    used-Amount :
        IsAmount used
        × (pos_part used ≤ pos_part r)
        × (pos_part used ≤ pos_part b.remaining_amount)
        × (pos_part r - pos_part used - sum_remaining bs
            ≡ pos_part r - (pos_part b.remaining_amount + sum_remaining bs))
    used-Amount = ground arith

    abbrev smaller : ℤ
    smaller = sub64 b.remaining_amount used

    next-Used :
        (t' : List CreditBlock) (rest : ℤ)
        → Used u c bs (sub64 r used) (set_remaining b.id smaller t) t' rest
        → Used u c (b ∷ bs) r t t' rest
    unfolding share
    next-Used t' rest h =
        let (ua, ur, ub, cover) = used-Amount in
        let (ra, re) = sub64_amount r used ar ua ur in
        let (ba, be) = sub64_amount b.remaining_amount used ready.1 ua ub in
        record {
          amount = h.amount;
          covered = omega (arith, h.covered);
          own = ground (arith, h.own, block_total-set_remaining u c smaller b t ids ready.2);
          others = λ u' c' other. ground (
            arith,
            h.others u' c' other,
            block_total-set_remaining u' c' smaller b t ids ready.2,
          );
          amounts = h.amounts;
          ids = h.ids;
        }

  pub use_blocks-Used :
      (bs : List CreditBlock) (r : ℤ) (t : List CreditBlock)
      → IsAmount r
      → All (Ready u c t) bs
      → UniqueBlocks bs
      → All OkBlock t
      → UniqueBlocks t
      → Used u c bs r t (use_blocks bs r t).0 (use_blocks bs r t).1
  unfolding use_blocks
  use_blocks-Used [] r t ar ready ne ok_t ids = record {
    amount = ar;
    covered = omega arith;
    own = refl;
    others = λ u' c' other. refl;
    amounts = ok_t;
    ids = ids;
  }
  use_blocks-Used (b ∷ bs) r t ar ready ne ok_t ids =
      let (own, ab, found) = ready.0 in
      let (ua, ur, ub, cover) = used-Amount b bs r t ar ready.0 ids in
      let skipped = use_blocks-Used bs r t ar ready.1 ne.1 ok_t ids in
      let next =
        use_blocks-Used bs (sub64 r (portion r b.remaining_amount))
          (set_remaining b.id (sub64 b.remaining_amount (portion r b.remaining_amount)) t)
          (sub64_amount r _ ar ua ur).0 (Ready-after b _ t bs ne.0 ready.1) ne.1
          (set_remaining-All b.id _ t (sub64_amount b.remaining_amount _ ab ua ub).0 ok_t)
          (set_remaining-Unique b.id _ t ids) in
      elim (Bool-cases (eqb_ℤ r (pos 0))) [
        | inl z ↦ rw z (done-Used b bs r t ar ready.0 ids z ok_t)
        | inr more ↦ elim (Bool-cases (leb_ℤ (portion r b.remaining_amount) (pos 0))) [
          | inl nothing ↦
              rw (more, nothing) (skip-Used b bs r t ar ready.0 ids _ _ more nothing skipped)
          | inr some_use ↦ rw (more, some_use) (next-Used b bs r t ar ready.0 ids _ _ next)
        ]
      ]
