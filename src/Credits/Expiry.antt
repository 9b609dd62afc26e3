-- ===== src/Credits/Expiry.antt =====
-- internal/river/jobs_credit_expiry.go: credit blocks that have passed their expiration date lose
-- what remains of them, in batches.
use openrails.Base.{
  ℕ, zero, suc, Bool, true, false, not, ◌&&◌, Option, none, some, List, [], ◌∷◌, leb, ◌==◌,
  if◌then◌else◌,
}
use openrails.Base.Int.{ℤ, pos, ltb_ℤ, leb_ℤ, add64, sub64}
use openrails.Base.Sql.{select_where, order_by, take}
use openrails.Credits.Model.{
  Time, UserId, Uuid, Text, CreditTransaction, expiry, posted, CreditBlock, Store,
}
use openrails.Credits.Balance.{lock_balance, set_balance, set_remaining}
use openrails.Credits.Service.{Ids, add_transaction}

-- An entry of the map from a user and credit type to a sum.
pub record KeyTotal : Type 0 where
  pub user_id : UserId
  pub credit_type_id : Uuid
  pub amount : ℤ

abbrev pub is_key : UserId → Uuid → KeyTotal → Bool
is_key u c k = k.user_id == u && k.credit_type_id == c

-- `totals[k] += amount`
unfoldable pub add_total : UserId → Uuid → ℤ → List KeyTotal → List KeyTotal
add_total u c a [] = record { user_id = u; credit_type_id = c; amount = a } ∷ []
add_total u c a (k ∷ ks) =
    let rest = add_total u c a ks in
    if is_key u c k then record k { amount = add64 k.amount a } ∷ ks else k ∷ rest

-- What one round of the loop finds outside the tables: the rows that `SKIP LOCKED` leaves out, the
-- order in which Go goes through the map, and the identifiers that `uuid.New` gives for each key.
pub record Round : Type 0 where
  pub locked : Uuid → Bool
  pub visit : List KeyTotal → List KeyTotal
  pub ids : UserId → Uuid → Ids

-- `expires_at IS NOT NULL AND expires_at <= now`
abbrev pub is_past : Time → Option Time → Bool
is_past now none = false
is_past now (some e) = leb e now

-- `expires_at ASC`
abbrev pub sooner : Option Time → Option Time → Bool
sooner none none = true
sooner none (some b) = false
sooner (some a) none = true
sooner (some a) (some b) = leb a b

abbrev pub is_expired_block : Time → CreditBlock → Bool
is_expired_block now b = ltb_ℤ (pos 0) b.remaining_amount && is_past now b.expires_at

-- The rows of one batch.
unfoldable pub expired_blocks : Round → ℕ → Time → List CreditBlock → List CreditBlock
expired_blocks r size now t = take size (
    order_by (λ a b. sooner a.expires_at b.expires_at)
      (select_where (λ b. is_expired_block now b && not (r.locked b.id)) t))

-- The loop over the blocks: the sums by key, and the table.
unfoldable pub expire_blocks :
    List CreditBlock → List KeyTotal → List CreditBlock → List KeyTotal × List CreditBlock
expire_blocks [] ks t = (ks, t)
expire_blocks (b ∷ bs) ks t =
    let skip = expire_blocks bs ks t in
    let next =
      expire_blocks bs (add_total b.user_id b.credit_type_id b.remaining_amount ks)
        (set_remaining b.id (pos 0) t) in
    if leb_ℤ b.remaining_amount (pos 0) then skip else next

abbrev pub floor_zero : ℤ → ℤ
floor_zero a = if ltb_ℤ a (pos 0) then pos 0 else a

-- "expiry_job"
abbrev expiry_job : Text
expiry_job = 1

abbrev pub expiry_row : Uuid → KeyTotal → ℤ → Time → CreditTransaction
expiry_row id k new_balance now = record {
  id = id;
  user_id = k.user_id;
  credit_type_id = k.credit_type_id;
  amount = sub64 (pos 0) k.amount;
  balance_after = some new_balance;
  transaction_type = expiry;
  status = posted;
  authorized = none;
  captured = none;
  source = expiry_job;
  source_id = none;
  expires_at = some now;
  description = none;
  created_at = now;
  updated_at = now;
}

-- One round of the loop over the map: the balance goes down, not below zero, and a ledger row says
-- so.
unfoldable pub expire_key : Round → Time → KeyTotal → Store → Store
expire_key r now k s =
    let ids = r.ids k.user_id k.credit_type_id in
    let (bal, s') = lock_balance k.user_id k.credit_type_id ids.balance now s in
    let new_balance = floor_zero (sub64 bal.balance k.amount) in
    if leb_ℤ k.amount (pos 0)
    then s
    else add_transaction (expiry_row ids.transaction k new_balance now)
        (set_balance k.user_id k.credit_type_id new_balance now s')

unfoldable pub expire_keys : Round → Time → List KeyTotal → Store → Store
expire_keys r now [] s = s
expire_keys r now (k ∷ ks) s = expire_keys r now ks (expire_key r now k s)

-- One transaction of the loop.
unfoldable pub expire_batch : Round → Time → List CreditBlock → Store → Store
expire_batch r now bs s =
    let (totals, blocks) = expire_blocks bs [] s.blocks in
    expire_keys r now (r.visit totals) (record s { blocks = blocks })

-- `len(rows) < size`
unfoldable pub fewer_than {ℓ} : {A : Type ℓ} → ℕ → List A → Bool
fewer_than zero xs = false
fewer_than (suc n) [] = true
fewer_than (suc n) (x ∷ xs) = fewer_than n xs

abbrev pub is_empty {ℓ} : {A : Type ℓ} → List A → Bool
is_empty [] = true
is_empty (x ∷ xs) = false

-- The loop, on fuel: `none` where the rounds run out. The `n`th round from the last is `rounds n`.
unfoldable pub expire_rounds : (ℕ → Round) → ℕ → ℕ → Time → Store → Option Store
expire_rounds rounds zero size now s = none
expire_rounds rounds (suc n) size now s =
    let blocks = expired_blocks (rounds n) size now s.blocks in
    let s' = expire_batch (rounds n) now blocks s in
    let rest = expire_rounds rounds n size now s' in
    if is_empty blocks then some s else if fewer_than size blocks then some s' else rest

abbrev pub batch_or : ℕ → ℤ → ℕ
batch_or default (pos zero) = default
batch_or default (pos (suc n)) = suc n
batch_or default _ = default

-- `CreditExpiryWorker.Work`
unfoldable pub credit_expiry : Bool → (ℕ → Round) → ℕ → ℤ → Time → Store → Option Store
credit_expiry disabled rounds fuel batch_size now s =
    let done = expire_rounds rounds fuel (batch_or 200 batch_size) now s in
    if disabled then some s else done
