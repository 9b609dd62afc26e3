-- ===== src/Credits/Emptied.antt =====
-- internal/river/jobs_credit_expiry.go: while expired blocks lose what remains of them, the sums of
-- the map keep track of it.
use openrails.Base.{
  ◌+◌, ◌<◌, ◌≡◌, refl, ◌∙◌, inl, inr, some, List, [], ◌∷◌, if◌then◌else◌, arith, Bool-cases, All,
}
use openrails.Base.Int.{ℤ, pos, pos_part, int64_half, leb_ℤ}
use openrails.Base.Sql.{find_where}
use openrails.Credits.Model.{UserId, Uuid, CreditBlock}
use openrails.Credits.Balance.{set_remaining}
use openrails.Credits.Accounts.{same_key}
use openrails.Credits.Blocks.{
  IsAmount, block_total, OkBlock, OtherBlock, UniqueBlocks, by_id, share, block_total-set_remaining,
  find-set_remaining_other, set_remaining-All, set_remaining-Unique,
}
use openrails.Credits.Expiry.{KeyTotal, add_total, expire_blocks}
use openrails.Credits.Totals.{pending, OkTotal, add_total-pending}

-- A block that was read from the table and has not changed there since.
abbrev pub Read : List CreditBlock → CreditBlock → Type 0
Read t b = IsAmount b.remaining_amount × (find_where (by_id b.id) t ≡ some b)

-- What the loop over the blocks did to the table and the sums.
pub record Expired (ks ks' : List KeyTotal) (t t' : List CreditBlock) : Type 0 where
  pub totals : All OkTotal ks'
  pub sums :
      (u : UserId) (c : Uuid)
      → block_total u c t' + pending u c ks' ≡ block_total u c t + pending u c ks
  pub amounts : All OkBlock t'
  pub ids : UniqueBlocks t'

Read-after :
    (b : CreditBlock) (v : ℤ) (t bs : List CreditBlock)
    → All (OtherBlock b) bs
    → All (Read t) bs
    → All (Read (set_remaining b.id v t)) bs
Read-after b v t [] ne h = tt
Read-after b v t (x ∷ bs) ne ((a, e), h) =
    ((a, find-set_remaining_other b.id x.id v t ne.0 e), Read-after b v t bs ne.1 h)

share_own :
    (b : CreditBlock) (t : List CreditBlock)
    → UniqueBlocks t
    → find_where (by_id b.id) t ≡ some b
    → (u : UserId) (c : Uuid)
    → block_total u c (set_remaining b.id (pos 0) t)
        + (if same_key b.user_id b.credit_type_id u c then pos_part b.remaining_amount else 0)
      ≡ block_total u c t
unfolding share
share_own b t ids found u c =
    let e = block_total-set_remaining u c (pos 0) b t ids found in ground (arith, e)

pub expire_blocks-Expired :
    (bs : List CreditBlock) (ks : List KeyTotal) (t : List CreditBlock)
    → UniqueBlocks bs
    → All (Read t) bs
    → All OkTotal ks
    → All OkBlock t
    → UniqueBlocks t
    → ((u : UserId) (c : Uuid) → block_total u c t + pending u c ks < int64_half)
    → Expired ks (expire_blocks bs ks t).0 t (expire_blocks bs ks t).1
unfolding expire_blocks
expire_blocks-Expired [] ks t ub h hk ht ut room = record {
  totals = hk;
  sums = λ u c. refl;
  amounts = ht;
  ids = ut;
}
expire_blocks-Expired (b ∷ bs) ks t ub h hk ht ut room =
    elim (Bool-cases (leb_ℤ b.remaining_amount (pos 0))) [
      | inl empty ↦ rw empty (expire_blocks-Expired bs ks t ub.1 h.1 hk ht ut room)
      | inr full ↦
          let u₀ = b.user_id in
          let c₀ = b.credit_type_id in
          let own = share_own b t ut h.0.1 in
          let before : pending u₀ c₀ ks + pos_part b.remaining_amount < int64_half =
            ground (arith, own u₀ c₀, room u₀ c₀) in
          let (totals, sum) = add_total-pending u₀ c₀ b.remaining_amount ks hk h.0.0 before in
          let rest =
            expire_blocks-Expired bs (add_total u₀ c₀ b.remaining_amount ks)
              (set_remaining b.id (pos 0) t) ub.1 (Read-after b (pos 0) t bs ub.0 h.1) totals
              (set_remaining-All b.id (pos 0) t (refl, omega arith) ht)
              (set_remaining-Unique b.id (pos 0) t ut)
              (λ u c. omega (arith, own u c, sum u c, room u c)) in
          rw full (record {
            totals = rest.totals;
            sums = λ u c. rest.sums u c ∙ (omega (arith, own u c, sum u c));
            amounts = rest.amounts;
            ids = rest.ids;
          })
    ]
