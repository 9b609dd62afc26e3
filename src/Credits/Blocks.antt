-- ===== src/Credits/Blocks.antt =====
-- internal/modules/credits/credits_service.go: how much the credit blocks of a user and credit
-- type hold, and how one `UPDATE` of a block changes that.
use openrails.Base.{
  ℕ, ◌+◌, ◌≤◌, ◌<◌, ◌≡◌, refl, sym, subst, inl, inr, Bool, false, some, List, [], ◌∷◌, ◌==◌,
  if◌then◌else◌, arith, Bool-cases, All, Pairwise,
}
use openrails.Base.Int.{ℤ, pos, pos_part, neg_part, int64_half, sub64, ◌-ℤ◌, wrap64}
use openrails.Base.Sql.{update_where, find_where}
use openrails.Credits.Model.{UserId, Uuid, CreditBlock, owns_block}
use openrails.Credits.Balance.{set_remaining}

-- An amount that an `int64` holds and that is not negative.
abbrev pub IsAmount : ℤ → Type 0
IsAmount a = (neg_part a ≡ 0) × (pos_part a < int64_half)

pub sub64_amount :
    (a b : ℤ)
    → IsAmount a
    → IsAmount b
    → pos_part b ≤ pos_part a
    → IsAmount (sub64 a b) × (pos_part (sub64 a b) + pos_part b ≡ pos_part a)
unfolding sub64 ◌-ℤ◌ wrap64
sub64_amount (pos a) (pos b) ha hb le = ground arith
sub64_amount _ _ ha hb le = absurd (ground arith)

-- The credits that a user's blocks of one type still hold.
unfoldable pub block_total : UserId → Uuid → List CreditBlock → ℕ
block_total u c [] = 0
block_total u c (b ∷ bs) =
    let rest = block_total u c bs in
    if owns_block u c b then pos_part b.remaining_amount + rest else rest

abbrev pub OkBlock : CreditBlock → Type 0
OkBlock b = IsAmount b.remaining_amount

abbrev pub OtherBlock : CreditBlock → CreditBlock → Type 0
OtherBlock a b = (a.id == b.id) ≡ false

abbrev pub UniqueBlocks : List CreditBlock → Type 0
UniqueBlocks = Pairwise OtherBlock

abbrev pub by_id : Uuid → CreditBlock → Bool
by_id id b = b.id == id

pub set_remaining-absent :
    (id : Uuid) (v : ℤ) (t : List CreditBlock)
    → All (λ r. (id == r.id) ≡ false) t
    → set_remaining id v t ≡ t
unfolding update_where
set_remaining-absent id v [] h = refl
set_remaining-absent id v (b ∷ t) h = ground (arith, set_remaining-absent id v t h.1)

unfoldable pub share : UserId → Uuid → CreditBlock → ℤ → ℕ
share u c b v = if owns_block u c b then pos_part v else 0

pub block_total-set_remaining :
    (u : UserId) (c : Uuid) (v : ℤ) (b : CreditBlock) (t : List CreditBlock)
    → UniqueBlocks t
    → find_where (by_id b.id) t ≡ some b
    → block_total u c (set_remaining b.id v t) + share u c b b.remaining_amount
      ≡ block_total u c t + share u c b v
unfolding block_total update_where find_where share
block_total-set_remaining u c v b [] ids h = absurd (cc)
block_total-set_remaining u c v b (r ∷ t) ids h = elim (Bool-cases (by_id b.id r)) [
  | inl here ↦
      let e : r ≡ b = ground arith in
      let same : set_remaining b.id v t ≡ t =
        set_remaining-absent b.id v t (subst (λ k. All (λ x. (k.id == x.id) ≡ false) t) e ids.0) in
      subst
        (λ k.
          block_total u c (set_remaining b.id v (k ∷ t)) + share u c b b.remaining_amount
          ≡ block_total u c (k ∷ t) + share u c b v)
        (sym e) (rw same (ground arith))
  | inr there ↦ ground (arith, block_total-set_remaining u c v b t ids.1)
]

pub find-set_remaining_other :
    (id id' : Uuid) (v : ℤ) (t : List CreditBlock) {b : CreditBlock}
    → (id == id') ≡ false
    → find_where (by_id id') t ≡ some b
    → find_where (by_id id') (set_remaining id v t) ≡ some b
unfolding find_where update_where
find-set_remaining_other id id' v [] ne h = h
find-set_remaining_other id id' v (r ∷ t) {b} ne h =
    ground (arith, find-set_remaining_other id id' v t {b = b} ne)

pub set_remaining-All :
    (id : Uuid) (v : ℤ) (t : List CreditBlock)
    → IsAmount v
    → All OkBlock t
    → All OkBlock (set_remaining id v t)
unfolding update_where
set_remaining-All id v [] hv h = tt
set_remaining-All id v (r ∷ t) hv h = (ground arith, set_remaining-All id v t hv h.1)

pub set_remaining-Unique :
    (id : Uuid) (v : ℤ) (t : List CreditBlock)
    → UniqueBlocks t
    → UniqueBlocks (set_remaining id v t)
unfolding update_where
set_remaining-Unique id v [] h = tt
set_remaining-Unique id v (r ∷ t) h = (apart t h.0, set_remaining-Unique id v t h.1)
  where
    apart :
        (k : List CreditBlock)
        → All (OtherBlock r) k
        → All
            (OtherBlock (if by_id id r then record r { remaining_amount = v } else r))
            (set_remaining id v k)
    apart [] q = tt
    apart (x ∷ k) q = (ground arith, apart k q.1)
