-- ===== src/Credits/Freeing.antt =====
-- internal/river/jobs_hold_expiry.go: the loop over the holds of a batch.
use openrails.Base.{
  ◌+◌, ◌≤◌, ◌<◌, ◌≡◌, refl, sym, subst, ◌∙◌, inl, inr, true, false, some, List, [], ◌∷◌, ◌==◌,
  if◌then◌else◌, arith, Option-cases, All, Pairwise, ap,
}
use openrails.Base.Int.{ℤ, pos, pos_part, int64_half, leb_ℤ}
use openrails.Rows.{find-All}
use openrails.Credits.Model.{Time, UserId, Uuid, CreditTransaction}
use openrails.Credits.Accounts.{same_key}
use openrails.Credits.Blocks.{IsAmount}
use openrails.Credits.Invariant.{held_total, authorized_or_zero, OkTransaction, OtherTransaction}
use openrails.Credits.Reserved.{saved, saved-All, saved-Unique, held_total-saved, reserves}
use openrails.Credits.Expiry.{KeyTotal, add_total}
use openrails.Credits.HoldExpiry.{is_expired_hold, mark_expired, expire_hold, expire_holds}
use openrails.Credits.Totals.{pending, OkTotal, add_total-pending}
use openrails.Credits.FreedHolds.{
  expired_row, Held, Found, Payable, mark-saved, find-saved_other, due_holds, due_holds-saved,
  due_holds-saved_found, saved-Payable,
}

-- What the loop over the holds did to the ledger rows and the sums.
pub record Freed (now : Time) (ks ks' : List KeyTotal) (t t' : List CreditTransaction)
    : Type 0 where
  pub totals : All OkTotal ks'
  pub sums :
      (u : UserId) (c : Uuid)
      → held_total u c t' + pending u c ks' ≡ held_total u c t + pending u c ks
  pub rows : All OkTransaction t'
  pub ids : Pairwise OtherTransaction t'
  pub payable : All Payable t'
  pub fewer : due_holds now t' ≤ due_holds now t

Held-after :
    (now : Time) (h : CreditTransaction) (t hs : List CreditTransaction)
    → All (OtherTransaction h) hs
    → All (Held now t) hs
    → All (Held now (saved (expired_row now h) t)) hs
Held-after now h t [] ne k = tt
Held-after now h t (x ∷ hs) ne ((d, (a, f)), k) =
    ((d, (a, find-saved_other (expired_row now h) x t ne.0 f)), Held-after now h t hs ne.1 k)

-- One hold with a positive authorized amount.
module _ (now : Time) (h : CreditTransaction) (a : ℤ) (ks : List KeyTotal)
    (t : List CreditTransaction) (held : Held now t h) (auth : h.authorized ≡ some a)
    (positive : leb_ℤ a (pos 0) ≡ false) (hk : All OkTotal ks) (ht : All OkTransaction t)
    (ut : Pairwise OtherTransaction t) (payable : All Payable t)
    (room : (u : UserId) (c : Uuid) → held_total u c t + pending u c ks < int64_half) where
  amount_ok : IsAmount a
  amount_ok = subst (λ o. IsAmount (authorized_or_zero o)) auth held.1.0

  freed_total :
      (u : UserId) (c : Uuid)
      → held_total u c (saved (expired_row now h) t)
          + (if same_key h.user_id h.credit_type_id u c then pos_part a else 0)
        ≡ held_total u c t
  freed_total u c =
      let e =
        held_total-saved u c h (expired_row now h) t ut held.1.1 (ground (arith, held.0))
          (ground arith) in
      let r : reserves u c h ≡ (if same_key h.user_id h.credit_type_id u c then pos_part a else 0) =
        rw auth (ground arith) in
      subst (λ x. held_total u c (saved (expired_row now h) t) + x ≡ held_total u c t) r e

  one-Freed :
      Freed now ks (add_total h.user_id h.credit_type_id a ks) t (saved (expired_row now h) t)
  one-Freed =
      let u₀ = h.user_id in
      let c₀ = h.credit_type_id in
      let own = freed_total u₀ c₀ in
      let before : pending u₀ c₀ ks + pos_part a < int64_half = ground (arith, own, room u₀ c₀) in
      let (totals, sum) = add_total-pending u₀ c₀ a ks hk amount_ok before in
      record {
        totals = totals;
        sums = λ u c. omega (arith, sum u c, freed_total u c);
        rows = saved-All (expired_row now h) t held.1.0 ht;
        ids = saved-Unique (expired_row now h) t ut;
        payable = saved-Payable (expired_row now h) t (ground arith) payable;
        fewer = due_holds-saved now (expired_row now h) t (ground arith);
      }

positive_hold :
    (now : Time) (h : CreditTransaction)
    → is_expired_hold now h ≡ true
    → Payable h
    → (a : ℤ) × (h.authorized ≡ some a) × (leb_ℤ a (pos 0) ≡ false)
positive_hold now h d p = elim (Option-cases h.authorized) [
  | inl none_set ↦ absurd (ground arith)
  | inr (a, e) ↦ (a, e, ground arith)
]

step :
    (now : Time) (h : CreditTransaction) (hs : List CreditTransaction) (a : ℤ) (ks : List KeyTotal)
    (t : List CreditTransaction)
    → h.authorized ≡ some a
    → leb_ℤ a (pos 0) ≡ false
    → Pairwise OtherTransaction t
    → Found t h
    → expire_holds now (h ∷ hs) ks t
      ≡ expire_holds now hs
          (add_total h.user_id h.credit_type_id a ks)
          (saved (expired_row now h) t)
unfolding expire_holds
step now h hs a ks t auth positive ut found =
    let e : expire_hold now h.user_id h.credit_type_id h.id h.authorized ks t
        ≡ (add_total h.user_id h.credit_type_id a ks, mark_expired now h.id t) =
      rw (auth, positive) in
    ap (λ q. expire_holds now hs q.0 q.1) e
    ∙ ap (expire_holds now hs (add_total h.user_id h.credit_type_id a ks))
        (mark-saved now h t ut found)

Freed-then :
    {now : Time} {ks ks₁ ks₂ : List KeyTotal} {t t₁ t₂ : List CreditTransaction}
    → Freed now ks ks₁ t t₁
    → Freed now ks₁ ks₂ t₁ t₂
    → Freed now ks ks₂ t t₂
Freed-then f g = record {
  totals = g.totals;
  sums = λ u c. g.sums u c ∙ f.sums u c;
  rows = g.rows;
  ids = g.ids;
  payable = g.payable;
  fewer = omega (arith, f.fewer, g.fewer);
}

module _ (now : Time) where
  pub expire_holds-Freed :
      (hs : List CreditTransaction) (ks : List KeyTotal) (t : List CreditTransaction)
      → Pairwise OtherTransaction hs
      → All (Held now t) hs
      → All OkTotal ks
      → All OkTransaction t
      → Pairwise OtherTransaction t
      → All Payable t
      → ((u : UserId) (c : Uuid) → held_total u c t + pending u c ks < int64_half)
      → Freed now ks (expire_holds now hs ks t).0 t (expire_holds now hs ks t).1
  unfolding expire_holds
  expire_holds-Freed [] ks t uh k hk ht ut p room = record {
    totals = hk;
    sums = λ u c. refl;
    rows = ht;
    ids = ut;
    payable = p;
    fewer = omega arith;
  }
  expire_holds-Freed (h ∷ hs) ks t uh k hk ht ut p room =
      let payable_h = find-All Payable (λ x. x.id == h.id) t p k.0.1.1 in
      let (a, auth, positive) = positive_hold now h k.0.0 payable_h in
      let one = one-Freed now h a ks t k.0 auth positive hk ht ut p room in
      let rest =
        expire_holds-Freed hs (add_total h.user_id h.credit_type_id a ks)
          (saved (expired_row now h) t) uh.1 (Held-after now h t hs uh.0 k.1) one.totals one.rows
          one.ids one.payable (λ u c. omega (arith, one.sums u c, room u c)) in
      subst (λ q. Freed now ks q.0 t q.1) (sym (step now h hs a ks t auth positive ut k.0.1.1))
        (Freed-then one rest)

  pub due_holds-expire_holds :
      (h : CreditTransaction) (hs : List CreditTransaction) (t : List CreditTransaction)
      → Pairwise OtherTransaction (h ∷ hs)
      → All (Held now t) (h ∷ hs)
      → All OkTransaction t
      → Pairwise OtherTransaction t
      → All Payable t
      → ((u : UserId) (c : Uuid) → held_total u c t < int64_half)
      → due_holds now (expire_holds now (h ∷ hs) [] t).1 < due_holds now t
  unfolding pending
  due_holds-expire_holds h hs t uh k ht ut p room =
      let payable_h = find-All Payable (λ x. x.id == h.id) t p k.0.1.1 in
      let (a, auth, positive) = positive_hold now h k.0.0 payable_h in
      let one =
        one-Freed now h a [] t k.0 auth positive tt ht ut p (λ u c. omega (arith, room u c)) in
      let rest =
        expire_holds-Freed hs (add_total h.user_id h.credit_type_id a [])
          (saved (expired_row now h) t) uh.1 (Held-after now h t hs uh.0 k.1) one.totals one.rows
          one.ids one.payable (λ u c. omega (arith, one.sums u c, room u c)) in
      let less = due_holds-saved_found now h (expired_row now h) t (ground arith) k.0.0 k.0.1.1 in
      subst (λ q. due_holds now q.1 < due_holds now t)
        (sym (step now h hs a [] t auth positive ut k.0.1.1)) (omega (arith, rest.fewer, less))
