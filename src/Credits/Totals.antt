-- ===== src/Credits/Totals.antt =====
-- internal/river/jobs_credit_expiry.go: what the map of sums holds for each user and credit type.
use mathlib.Core.List.{Permᴰ}
use mathlib.Core.List.Permᴰ.{nil, cons, swap, trans}
use openrails.Base.{
  ℕ, ◌+◌, ◌<◌, ◌≡◌, refl, ◌∙◌, inl, inr, List, [], ◌∷◌, if◌then◌else◌, arith, Bool-cases, All,
}
use openrails.Base.Int.{ℤ, pos_part, int64_half}
use openrails.Credits.Model.{UserId, Uuid}
use openrails.Credits.Accounts.{same_key}
use openrails.Credits.Blocks.{IsAmount}
use openrails.Credits.Deposits.{add64_amount}
use openrails.Credits.Expiry.{KeyTotal, is_key, add_total}

-- The sum that is still to come off a balance.
unfoldable pub pending : UserId → Uuid → List KeyTotal → ℕ
pending u c [] = 0
pending u c (k ∷ ks) =
    let rest = pending u c ks in if is_key u c k then pos_part k.amount + rest else rest

abbrev pub OkTotal : KeyTotal → Type 0
OkTotal k = IsAmount k.amount

abbrev own_part : UserId → Uuid → ℤ → UserId → Uuid → ℕ
own_part u c a u' c' = if same_key u c u' c' then pos_part a else 0

pub add_total-pending :
    (u : UserId) (c : Uuid) (a : ℤ) (ks : List KeyTotal)
    → All OkTotal ks
    → IsAmount a
    → pending u c ks + pos_part a < int64_half
    → All OkTotal (add_total u c a ks)
      × ((u' : UserId) (c' : Uuid)
          → pending u' c' (add_total u c a ks)
            ≡ (if same_key u c u' c' then pos_part a else 0) + pending u' c' ks)
unfolding pending add_total
add_total-pending u c a [] h ha room = ((ha, tt), λ u' c'. ground arith)
add_total-pending u c a (k ∷ ks) h ha room = elim (Bool-cases (is_key u c k)) [
  | inl own ↦
      let (n, e) = add64_amount k.amount a h.0 ha (ground arith) in
      (rw own (n, h.1), λ u' c'. rw own (ground arith))
  | inr other ↦
      let (hs, es) = add_total-pending u c a ks h.1 ha (ground arith) in
      (rw other (h.0, hs), λ u' c'. rw other (ground (arith, es u' c')))
]

pub pending-perm :
    (u : UserId) (c : Uuid) {ks ks' : List KeyTotal}
    → Permᴰ ks ks'
    → pending u c ks ≡ pending u c ks'
unfolding pending
pending-perm u c nil = refl
pending-perm u c (cons e p) = ground (arith, pending-perm u c p)
pending-perm u c (swap e e') = ground arith
pending-perm u c (trans p q) = pending-perm u c p ∙ pending-perm u c q
