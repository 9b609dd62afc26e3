-- ===== src/Credits/FreedKeys.antt =====
-- internal/river/jobs_hold_expiry.go: the loop over the map takes the sums off the held balances.
use openrails.Base.{
  ◌+◌, ◌-◌, ◌≤◌, ◌≡◌, refl, subst, ◌∙◌, inl, inr, true, false, none, some, List, [], ◌∷◌,
  if◌then◌else◌, arith, Bool-cases, Option-cases, All, ok,
}
use openrails.Base.Int.{ℤ, pos, pos_part, leb_ℤ, sub64}
use openrails.Credits.Model.{Time, UserId, Uuid, UserCreditBalance, Store}
use openrails.Credits.Balance.{set_held_balance}
use openrails.Credits.Accounts.{
  row_of, same_key, balance_of, held_of, balance_of-set_held_balance, held_of-set_held_balance,
  set_held_balance_tables,
}
use openrails.Credits.Blocks.{IsAmount, block_total}
use openrails.Credits.Invariant.{held_total, same_key-eq}
use openrails.Credits.Expiry.{KeyTotal, floor_zero}
use openrails.Credits.HoldExpiry.{free_key, free_keys}
use openrails.Credits.Totals.{pending, OkTotal}
use openrails.Credits.Backed.{floor_zero-amount}

-- The balances, with the sums that are still to come off the held balances.
pub record KeyHeld (u : UserId) (c : Uuid) (ks : List KeyTotal) (s : Store) : Type 0 where
  pub balance : IsAmount (balance_of u c s)
  pub held : IsAmount (held_of u c s)
  pub backed : pos_part (balance_of u c s) ≤ block_total u c s.blocks
  pub reserved : pos_part (held_of u c s) ≡ held_total u c s.transactions + pending u c ks

abbrev pub AllHeld : List KeyTotal → Store → Type 0
AllHeld ks s = (u : UserId) (c : Uuid) → KeyHeld u c ks s

-- The tables after a step that changes balances only.
abbrev pub Kept : Store → Store → Type 0
Kept s s' = (s'.blocks ≡ s.blocks) × (s'.transactions ≡ s.transactions)

module _ (now : Time) (k : KeyTotal) (ks : List KeyTotal) (s : Store) (b : AllHeld (k ∷ ks) s)
    (ok_k : OkTotal k) where
  no_row : row_of k.user_id k.credit_type_id s ≡ none → leb_ℤ k.amount (pos 0) ≡ false → ⊥
  unfolding pending held_of
  no_row gone some_left =
      let h = (b k.user_id k.credit_type_id).reserved in
      let z : held_of k.user_id k.credit_type_id s ≡ pos 0 = rw gone in
      ground (arith, h, z, some_left)

  module _ (bal : UserCreditBalance) (row : row_of k.user_id k.credit_type_id s ≡ some bal) where
    abbrev left : ℤ
    left = floor_zero (sub64 bal.held_balance k.amount)

    unfoldable freed : Store
    freed = set_held_balance k.user_id k.credit_type_id left now s

    held_row : held_of k.user_id k.credit_type_id s ≡ bal.held_balance
    unfolding held_of
    held_row = rw row

    left_amount :
        IsAmount left
        × (pos_part left ≡ pos_part (held_of k.user_id k.credit_type_id s) - pos_part k.amount)
    left_amount =
        subst
          (λ x.
            IsAmount (floor_zero (sub64 x k.amount))
            × (pos_part (floor_zero (sub64 x k.amount))
                ≡ pos_part (held_of k.user_id k.credit_type_id s) - pos_part k.amount))
          held_row
          (floor_zero-amount (held_of k.user_id k.credit_type_id s) k.amount
            (b k.user_id k.credit_type_id).held ok_k)

    freed_tables : Kept s freed
    unfolding freed
    freed_tables = set_held_balance_tables k.user_id k.credit_type_id left now s

    freed_held :
        (u : UserId) (c : Uuid)
        → held_of u c freed
          ≡ (if same_key k.user_id k.credit_type_id u c then left else held_of u c s)
    unfolding freed
    freed_held u c = held_of-set_held_balance k.user_id k.credit_type_id left now s row u c

    freed_balance : (u : UserId) (c : Uuid) → balance_of u c freed ≡ balance_of u c s
    unfolding freed
    freed_balance u c = balance_of-set_held_balance k.user_id k.credit_type_id left now s row u c

    freed_key : AllHeld ks freed
    unfolding pending
    freed_key u c = elim (Bool-cases (same_key k.user_id k.credit_type_id u c)) [
      | inl own ↦
          let (eu, ec) = same_key-eq k.user_id k.credit_type_id u c own in
          let e : held_of u c freed ≡ left = freed_held u c ∙ (rw own) in
          let f : pos_part left ≡ pos_part (held_of u c s) - pos_part k.amount =
            rw (eu, ec) left_amount.1 in
          let h = (b u c).reserved in
          record {
            balance = rw (freed_balance u c) (b u c).balance;
            held = rw e left_amount.0;
            backed = rw (freed_balance u c, freed_tables.0) (b u c).backed;
            reserved = rw (e, freed_tables.1) (ground (arith, f, h, own));
          }
      | inr other ↦
          let e : held_of u c freed ≡ held_of u c s = freed_held u c ∙ (rw other) in
          let h = (b u c).reserved in
          record {
            balance = rw (freed_balance u c) (b u c).balance;
            held = rw e (b u c).held;
            backed = rw (freed_balance u c, freed_tables.0) (b u c).backed;
            reserved = rw (e, freed_tables.1) (ground (arith, h, other));
          }
    ]

  skipped : leb_ℤ k.amount (pos 0) ≡ true → AllHeld ks s
  unfolding pending
  skipped none_left u c =
      let h = (b u c).reserved in
      record {
        balance = (b u c).balance;
        held = (b u c).held;
        backed = (b u c).backed;
        reserved = ground (arith, h, none_left);
      }

  free_key-ok : (s' : Store) × (free_key now k s ≡ ok s') × AllHeld ks s' × Kept s s'
  unfolding free_key freed
  free_key-ok = elim (Bool-cases (leb_ℤ k.amount (pos 0))) [
    | inl none_left ↦ (s, rw none_left, skipped none_left, (refl, refl))
    | inr some_left ↦ elim (Option-cases (row_of k.user_id k.credit_type_id s)) [
      | inl gone ↦ absurd (no_row gone some_left)
      | inr (bal, row) ↦
          (freed bal row, rw (some_left, row), freed_key bal row, freed_tables bal row)
    ]
  ]

pub free_keys-ok :
    (now : Time) (ks : List KeyTotal) (s : Store)
    → AllHeld ks s
    → All OkTotal ks
    → (s' : Store) × (free_keys now ks s ≡ ok s') × AllHeld [] s' × Kept s s'
unfolding free_keys
free_keys-ok now [] s b h = (s, refl, b, (refl, refl))
free_keys-ok now (k ∷ ks) s b h =
    let (s₁, e, b₁, kept) = free_key-ok now k ks s b h.0 in
    let (s₂, e₂, b₂, kept₂) = free_keys-ok now ks s₁ b₁ h.1 in
    (s₂, rw e e₂, b₂, (kept₂.0 ∙ kept.0, kept₂.1 ∙ kept.1))
