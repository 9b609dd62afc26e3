-- ===== src/Payments/Refunds.antt =====
-- internal/modules/payments/payment.go: what the refunds of a payment add up to.
use openrails.Base.{
  ℕ, ◌+◌, ◌≤◌, ◌<◌, ◌≡◌, sym, subst, inl, inr, Bool, true, false, ◌&&◌, some, ◌∷◌, arith, ◌==◌,
  Option-cases, ok, ◌>>=◌, ◌>>◌, refuse_if, >>=-eq-ok, All, Pairwise, All-imp₂, ◌⊎◌,
}
use openrails.Base.Int.{
  ℤ, pos, negsuc, pos_part, neg_part, ltb_ℤ, leb_ℤ, wrap64, add64, sub64, ◌+ℤ◌, ◌-ℤ◌,
}
use openrails.Base.Sql.{find_where}
use openrails.Rows.{find-All, find-Pairwise}
use openrails.Payments.Model.{Time, Uuid, Text, Payment, Payments, missing_transaction}
use openrails.Payments.Repo.{create, get_by_id, get_refund_total_by_payment_id, is_charge}
use openrails.Payments.Service.{validate_refund, refund_entry, refund}

-- 2 ^ 62
abbrev pub quarter : ℕ
quarter = 4611686018427387904

-- The refunds of a charge come to no more than the charge.
abbrev pub WithinCharge : Payments → Payment → Type 0
WithinCharge t p =
    is_charge p ≡ true
    → (get_refund_total_by_payment_id p.id t ≤ pos_part p.amount) × (pos_part p.amount < quarter)

abbrev pub OtherId : Payment → Payment → Type 0
OtherId a b = (a.id == b.id) ≡ false

-- What the checks let through.
record Allowed (orig : Payment) (amount : ℤ) (t : Payments) : Type 0 where
  positive : leb_ℤ amount (pos 0) ≡ false
  charge : is_charge orig ≡ true
  fits : ltb_ℤ orig.amount amount ≡ false
  total_fits :
      (ltb_ℤ (pos 0) (pos (get_refund_total_by_payment_id orig.id t))
        && ltb_ℤ orig.amount (add64 amount (pos (get_refund_total_by_payment_id orig.id t))))
      ≡ false

validated :
    (is_synthetic : Text → Bool) (orig : Payment) (amount : ℤ) (t : Payments)
    → validate_refund is_synthetic orig amount t ≡ ok tt
    → Allowed orig amount t
unfolding validate_refund
validated is_synthetic orig amount t h = record {
  positive = ground arith;
  charge = ground arith;
  fits = ground arith;
  total_fits = ground arith;
}

-- The sums stay in `int64`, so the last check means what it says.
total_bound :
    (amount orig : ℤ) (total : ℕ)
    → leb_ℤ amount (pos 0) ≡ false
    → ltb_ℤ orig amount ≡ false
    → (ltb_ℤ (pos 0) (pos total) && ltb_ℤ orig (add64 amount (pos total))) ≡ false
    → total ≤ pos_part orig
    → pos_part orig < quarter
    → (total + pos_part amount ≤ pos_part orig)
      × (pos_part (sub64 (pos 0) amount) ≡ 0)
      × (neg_part (sub64 (pos 0) amount) ≡ pos_part amount)
unfolding add64 sub64 wrap64 ◌+ℤ◌ ◌-ℤ◌
total_bound (pos a) (pos o) total p f g within small = ground arith
total_bound (pos a) (negsuc o) total p f g within small = ground arith
total_bound (negsuc a) orig total p f g within small = ground arith

flip : (a b : Payment) → OtherId a b → OtherId b a
flip a b h = ground arith

module _ (is_synthetic : Text → Bool) (original : Uuid) (transaction : Text) (amount : ℤ)
    (id : Uuid) (now : Time) (t : Payments) where
  -- What a refund that succeeds went through.
  record Refunded (entry : Payment) (t' : Payments) : Type 0 where
    orig : Payment
    found : find_where (λ p. p.id == original) t ≡ some orig
    allowed : Allowed orig amount t
    same_entry : entry ≡ refund_entry orig id transaction amount now
    same_table : t' ≡ entry ∷ t

  refunded :
      {entry : Payment} {t' : Payments}
      → refund is_synthetic original transaction amount id now t ≡ ok (entry, t')
      → Refunded entry t'
  unfolding refund get_by_id create
  refunded {entry} {t'} h = elim (Option-cases (find_where (λ p. p.id == original) t)) [
    | inl missing ↦ absurd (ground arith)
    | inr (orig, found) ↦ through orig found (rw found at h)
  ]
    where
      through :
          (orig : Payment)
          → find_where (λ p. p.id == original) t ≡ some orig
          → ◌>>◌ {B = Payment × Payments} (validate_refund is_synthetic orig amount t) (
              refuse_if (transaction == 0) missing_transaction
              >> (create (refund_entry orig id transaction amount now) t >>= λ u.
                  ok (refund_entry orig id transaction amount now, u)))
            ≡ ok (entry, t')
          → Refunded entry t'
      through orig found k =
          let (_, v, k₁) = >>=-eq-ok (validate_refund is_synthetic orig amount t) _ k in
          record {
            orig = orig;
            found = found;
            allowed = validated is_synthetic orig amount t v;
            same_entry = ground arith;
            same_table = ground arith;
          }

  -- The rows that were there: the refunded charge has room for the refund, the others have the
  -- refunds that they had.
  kept :
      {entry : Payment} {t' : Payments} (r : Refunded entry t') (p : Payment)
      → WithinCharge t r.orig
      → WithinCharge t p
      → ((p ≡ r.orig) ⊎ OtherId r.orig p)
      → WithinCharge (entry ∷ t) p
  unfolding get_refund_total_by_payment_id
  kept {entry} r p w_orig w side charge =
      let bound =
        total_bound amount r.orig.amount (get_refund_total_by_payment_id r.orig.id t)
          r.allowed.positive r.allowed.fits r.allowed.total_fits (w_orig r.allowed.charge).0
          (w_orig r.allowed.charge).1 in
      let here : WithinCharge (entry ∷ t) r.orig =
        λ c. rw (r.same_entry) (ground (arith, bound, w_orig c)) in
      elim side [
        | inl same ↦ subst (WithinCharge (entry ∷ t)) (sym same) here charge
        | inr other ↦ ground (arith, w charge, r.same_entry)
      ]

  -- Refund keeps the refunds of every charge within the charge. If the identifiers of the payments
  -- differ, every charge is below 2^62 and its refunds come to no more than it, then the same holds
  -- of the table after a successful Refund, the entry of the refund included.
  pub refund-WithinCharge :
      {entry : Payment} {t' : Payments}
      → Pairwise OtherId t
      → All (WithinCharge t) t
      → refund is_synthetic original transaction amount id now t ≡ ok (entry, t')
      → All (WithinCharge t') t'
  refund-WithinCharge {entry} {t'} distinct within h =
      let r = refunded {entry = entry} {t' = t'} h in
      let w = find-All (WithinCharge t) (λ p. p.id == original) t within r.found in
      subst (λ u. All (WithinCharge u) u) (sym r.same_table)
        (
          rw (r.same_entry) (λ c. absurd (
              ground (
                arith,
                c,
                total_bound amount r.orig.amount (get_refund_total_by_payment_id r.orig.id t)
                    r.allowed.positive r.allowed.fits r.allowed.total_fits (w r.allowed.charge).0
                    (w r.allowed.charge).1,
              ))),
          All-imp₂ (λ p. (p ≡ r.orig) ⊎ OtherId r.orig p) (WithinCharge t)
              (WithinCharge (entry ∷ t)) t (λ p side k. kept {entry = entry} {t' = t'} r p w k side)
              (find-Pairwise OtherId flip (λ p. p.id == original) t distinct r.found) within,
        )
