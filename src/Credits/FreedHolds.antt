-- ===== src/Credits/FreedHolds.antt =====
-- internal/river/jobs_hold_expiry.go: while expired holds are marked, the sums of the map keep track
-- of what the held balances are still to give back.
use openrails.Base.{
  ℕ, ◌≤◌, ◌<◌, ◌≡◌, refl, sym, subst, ◌∙◌, inl, inr, true, false, ◌&&◌, some, List, [], ◌∷◌, ◌==◌,
  arith, Bool-cases, All, Pairwise,
}
use openrails.Base.Int.{pos, leb_ℤ}
use openrails.Base.Sql.{find_where, count_where, update_where}
use openrails.Rows.{find-update}
use openrails.Credits.Model.{Time, Uuid, expired, CreditTransaction}
use openrails.Credits.Invariant.{is_open, authorized_or_zero, OkTransaction, OtherTransaction}
use openrails.Credits.Reserved.{saved, saved-absent}
use openrails.Credits.HoldExpiry.{is_expired_hold, mark_expired}

abbrev pub expired_row : Time → CreditTransaction → CreditTransaction
expired_row now h = record h { status = expired; updated_at = now }

abbrev pub Found : List CreditTransaction → CreditTransaction → Type 0
Found t h = find_where (λ x. x.id == h.id) t ≡ some h

-- An active hold that the batch read, and that has not changed in the table since.
abbrev pub Held : Time → List CreditTransaction → CreditTransaction → Type 0
Held now t h = (is_expired_hold now h ≡ true) × (OkTransaction h × Found t h)

-- An active hold reserves something.
abbrev pub Payable : CreditTransaction → Type 0
Payable r = (is_open r && leb_ℤ (authorized_or_zero r.authorized) (pos 0)) ≡ false

mark-absent :
    (now : Time) (id : Uuid) (t : List CreditTransaction)
    → All (λ x. (id == x.id) ≡ false) t
    → mark_expired now id t ≡ t
unfolding update_where
mark-absent now id [] h = refl
mark-absent now id (x ∷ t) h = ground (arith, mark-absent now id t h.1)

-- Marking a row that is in the table saves the marked row.
pub mark-saved :
    (now : Time) (h : CreditTransaction) (t : List CreditTransaction)
    → Pairwise OtherTransaction t
    → Found t h
    → mark_expired now h.id t ≡ saved (expired_row now h) t
unfolding update_where find_where
mark-saved now h [] ids f = refl
mark-saved now h (x ∷ t) ids f = elim (Bool-cases (x.id == h.id)) [
  | inl here ↦
      let e : x ≡ h = ground arith in
      let absent : All (λ y. (h.id == y.id) ≡ false) t =
        subst (λ k. All (λ y. (k.id == y.id) ≡ false) t) e ids.0 in
      let m = mark-absent now h.id t absent in
      let s : saved (expired_row now h) t ≡ t = saved-absent (expired_row now h) t absent in
      subst (λ k. mark_expired now h.id (k ∷ t) ≡ saved (expired_row now h) (k ∷ t)) (sym e)
        (rw (m, s) (ground arith))
  | inr there ↦ ground (arith, mark-saved now h t ids.1)
]

pub find-saved_other :
    (r x : CreditTransaction) (t : List CreditTransaction)
    → (r.id == x.id) ≡ false
    → Found t x
    → Found (saved r t) x
find-saved_other r x t ne f =
    find-update (λ y. y.id == x.id) (λ y. y.id == r.id) (λ _. r) t (λ a. ground arith)
    ∙ rw f (ground arith)

-- How many holds a round may still find.
abbrev pub due_holds : Time → List CreditTransaction → ℕ
due_holds now t = count_where (is_expired_hold now) t

pub due_holds-saved :
    (now : Time) (r : CreditTransaction) (t : List CreditTransaction)
    → is_open r ≡ false
    → due_holds now (saved r t) ≤ due_holds now t
unfolding count_where update_where
due_holds-saved now r [] e = omega arith
due_holds-saved now r (x ∷ t) e = ground (arith, due_holds-saved now r t e)

pub due_holds-saved_found :
    (now : Time) (h r : CreditTransaction) (t : List CreditTransaction)
    → is_open r ≡ false
    → is_expired_hold now h ≡ true
    → find_where (λ x. x.id == r.id) t ≡ some h
    → due_holds now (saved r t) < due_holds now t
unfolding count_where update_where find_where
due_holds-saved_found now h r [] e d f = absurd (cc)
due_holds-saved_found now h r (x ∷ t) e d f = elim (Bool-cases (x.id == r.id)) [
  | inl here ↦
      let same : x ≡ h = ground arith in
      let due_x : is_expired_hold now x ≡ true =
        subst (λ y. is_expired_hold now y ≡ true) (sym same) d in
      ground (arith, due_holds-saved now r t e)
  | inr there ↦ ground (arith, due_holds-saved_found now h r t e d)
]

pub saved-Payable :
    (r : CreditTransaction) (t : List CreditTransaction)
    → is_open r ≡ false
    → All Payable t
    → All Payable (saved r t)
unfolding update_where
saved-Payable r [] e h = tt
saved-Payable r (x ∷ t) e h = (ground arith, saved-Payable r t e h.1)
