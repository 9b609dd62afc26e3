-- ===== src/Credits/Invariant.antt =====
-- internal/modules/credits/credits_service.go: what soundness of the credit tables means, between
-- two transactions.
use openrails.Base.{
  ℕ, ◌+◌, ◌≤◌, ◌≡◌, ◌∙◌, inl, inr, Bool, true, false, ◌&&◌, Option, none, some, List, [], ◌∷◌, ◌==◌,
  if◌then◌else◌, arith, Bool-cases, All, Pairwise,
}
use openrails.Base.Int.{ℤ, pos, pos_part}
use openrails.Credits.Model.{
  Time, UserId, Uuid, CreditTransaction, Store, owns_transaction, is_hold, is_active_status,
}
use openrails.Credits.Accounts.{same_key, balance_of, held_of}
use openrails.Credits.Blocks.{IsAmount, block_total, OkBlock, UniqueBlocks}
use openrails.Credits.Withdraw.{Withdrawn}

-- An active hold.
abbrev pub is_open : CreditTransaction → Bool
is_open r = is_hold r.transaction_type && is_active_status r.status

abbrev pub authorized_or_zero : Option ℤ → ℤ
authorized_or_zero none = pos 0
authorized_or_zero (some a) = a

-- The credits that a user's active holds of one type reserve.
unfoldable pub held_total : UserId → Uuid → List CreditTransaction → ℕ
held_total u c [] = 0
held_total u c (r ∷ rs) =
    let rest = held_total u c rs in
    if owns_transaction u c r && is_open r
    then pos_part (authorized_or_zero r.authorized) + rest
    else rest

abbrev pub OkTransaction : CreditTransaction → Type 0
OkTransaction r = IsAmount (authorized_or_zero r.authorized)

abbrev pub OtherTransaction : CreditTransaction → CreditTransaction → Type 0
OtherTransaction a b = (a.id == b.id) ≡ false

-- The balances of one user and credit type: both are amounts, the blocks back the balance, and the
-- held balance is what the active holds reserve.
pub record KeySound (u : UserId) (c : Uuid) (s : Store) : Type 0 where
  pub balance : IsAmount (balance_of u c s)
  pub held : IsAmount (held_of u c s)
  pub backed : pos_part (balance_of u c s) ≤ block_total u c s.blocks
  pub reserved : pos_part (held_of u c s) ≡ held_total u c s.transactions

pub record IsSound (s : Store) : Type 0 where
  pub amounts : All OkBlock s.blocks
  pub block_ids : UniqueBlocks s.blocks
  pub holds : All OkTransaction s.transactions
  pub transaction_ids : Pairwise OtherTransaction s.transactions
  pub keys : (u : UserId) (c : Uuid) → KeySound u c s

pub same_key-eq :
    (u : UserId) (c : Uuid) (u' : UserId) (c' : Uuid)
    → same_key u c u' c' ≡ true
    → (u' ≡ u) × (c' ≡ c)
same_key-eq u c u' c' h = ground arith

-- A withdrawal keeps the balances sound, whichever key they belong to.
pub Withdrawn-KeySound :
    (u : UserId) (c : Uuid) (amount : ℤ) (now : Time) (s : Store) (v : ℤ) (s' : Store)
    → ((u' : UserId) (c' : Uuid) → KeySound u' c' s)
    → Withdrawn u c amount now s v s'
    → (u' : UserId) (c' : Uuid) → KeySound u' c' s'
Withdrawn-KeySound u c amount now s v s' k w u' c' = elim (Bool-cases (same_key u c u' c')) [
  | inl same ↦
      let (eu, ec) = same_key-eq u c u' c' same in
      let e : balance_of u' c' s' ≡ v = w.balances u' c' ∙ (rw same) in
      record {
        balance = rw e w.amount_left;
        held = rw (w.helds u' c') (k u' c').held;
        backed = rw (e, eu, ec) (omega (arith, w.debited, w.blocks.own, (k u c).backed));
        reserved = rw (w.helds u' c', w.transactions) (k u' c').reserved;
      }
  | inr other ↦
      let e : balance_of u' c' s' ≡ balance_of u' c' s = w.balances u' c' ∙ (rw other) in
      record {
        balance = rw e (k u' c').balance;
        held = rw (w.helds u' c') (k u' c').held;
        backed = rw (e, w.blocks.others u' c' other) (k u' c').backed;
        reserved = rw (w.helds u' c', w.transactions) (k u' c').reserved;
      }
]
