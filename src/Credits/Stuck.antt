-- ===== src/Credits/Stuck.antt =====
-- internal/river/jobs_hold_expiry.go: a batch of expired holds without an authorized amount.
use openrails.Base.{
  ℕ, zero, suc, ◌≡◌, refl, ap, ◌∙◌, inl, inr, true, false, not, ◌&&◌, none, List, [], ◌∷◌, arith,
  Option-cases, All, All-imp, ok,
}
use openrails.Base.Int.{pos, leb_ℤ}
use openrails.Rows.{select-All, order-All, take-All}
use openrails.Credits.Model.{Time, CreditTransaction, Store}
use openrails.Credits.Invariant.{authorized_or_zero}
use openrails.Credits.Expiry.{KeyTotal, Round, sooner, fewer_than, is_empty}
use openrails.Credits.HoldExpiry.{
  is_expired_hold, expired_holds, expire_hold, expire_holds, free_keys, hold_batch, hold_rounds,
}

-- No amount to give back.
abbrev pub Empty : CreditTransaction → Type 0
Empty r = leb_ℤ (authorized_or_zero r.authorized) (pos 0) ≡ true

-- An expired hold has no amount to give back.
abbrev pub Worthless : Time → CreditTransaction → Type 0
Worthless now r =
    (is_expired_hold now r && not (leb_ℤ (authorized_or_zero r.authorized) (pos 0))) ≡ false

passed_over :
    (now : Time) (h : CreditTransaction) (ks : List KeyTotal) (t : List CreditTransaction)
    → Empty h
    → expire_hold now h.user_id h.credit_type_id h.id h.authorized ks t ≡ (ks, t)
passed_over now h ks t e = elim (Option-cases h.authorized) [
  | inl unset ↦ rw unset
  | inr (a, set_to) ↦ let z : leb_ℤ a (pos 0) ≡ true = ground (arith, e, set_to) in rw (set_to, z)
]

all_passed_over :
    (now : Time) (hs : List CreditTransaction) (ks : List KeyTotal) (t : List CreditTransaction)
    → All Empty hs
    → expire_holds now hs ks t ≡ (ks, t)
unfolding expire_holds
all_passed_over now [] ks t e = refl
all_passed_over now (h ∷ hs) ks t e =
    ap (λ q. expire_holds now hs q.0 q.1) (passed_over now h ks t e.0)
    ∙ all_passed_over now hs ks t e.1

batch-Empty :
    (r : Round) (size : ℕ) (now : Time) (t : List CreditTransaction)
    → All (Worthless now) t
    → All Empty (expired_holds r size now t)
unfolding expired_holds
batch-Empty r size now t w = take-All Empty size _ (
    order-All Empty (λ a b. sooner a.expires_at b.expires_at) _
      (All-imp (λ h. ((is_expired_hold now h && not (r.locked h.id)) ≡ true) × Worthless now h)
        Empty _ (λ h (picked, worthless). ground (arith, picked, worthless))
        (select-All (Worthless now) (λ h. is_expired_hold now h && not (r.locked h.id)) t w)))

batch_unchanged :
    (r : Round) (size : ℕ) (now : Time) (s : Store)
    → All (Worthless now) s.transactions
    → r.visit [] ≡ []
    → hold_batch r now (expired_holds r size now s.transactions) s ≡ ok s
unfolding hold_batch free_keys
batch_unchanged r size now s w empty_map = rw (
  all_passed_over now (expired_holds r size now s.transactions) [] s.transactions
      (batch-Empty r size now s.transactions w),
  empty_map,
)

-- The hold expiry worker does not end on holds without an amount: if no expired active hold in the
-- table has a positive authorized amount and every round finds a full batch that is not empty (its
-- map then holds nothing to visit), then the loop is still running after any number of rounds.
pub hold_rounds_stuck :
    (rounds : ℕ → Round) (fuel size : ℕ) (now : Time) (s : Store)
    → All (Worthless now) s.transactions
    → ((m : ℕ) → (rounds m).visit [] ≡ [])
    → ((m : ℕ) → is_empty (expired_holds (rounds m) size now s.transactions) ≡ false)
    → ((m : ℕ) → fewer_than size (expired_holds (rounds m) size now s.transactions) ≡ false)
    → hold_rounds rounds fuel size now s ≡ none
unfolding hold_rounds
hold_rounds_stuck rounds zero size now s w empty_map some_row full = refl
hold_rounds_stuck rounds (suc n) size now s w empty_map some_row full =
    rw (some_row n, full n, batch_unchanged (rounds n) size now s w (empty_map n))
      (hold_rounds_stuck rounds n size now s w empty_map some_row full)
