-- ===== src/Credits/Balance.antt =====
-- internal/modules/credits/credits_service.go: the balance row of a user and credit type, and how a
-- withdrawal uses up the blocks. Every function is a part of a database transaction.
use openrails.Base.{
  Bool, true, false, ◌&&◌, ◌||◌, Option, none, some, List, [], ◌∷◌, ltb, leb, ◌==◌, if◌then◌else◌,
  Result, ok, err,
}
use openrails.Base.Int.{ℤ, pos, ltb_ℤ, leb_ℤ, eqb_ℤ, sub64}
use openrails.Base.Sql.{update_where, select_where, find_where, order_by}
use openrails.Credits.Model.{
  Time, UserId, Uuid, UserCreditBalance, CreditBlock, Store, Error, insufficient_credits,
  owns_balance, owns_block,
}

abbrev pub empty_balance : UserId → Uuid → Uuid → Time → UserCreditBalance
empty_balance u c id now = record {
  id = id;
  user_id = u;
  credit_type_id = c;
  balance = pos 0;
  held_balance = pos 0;
  created_at = now;
  updated_at = now;
}

abbrev pub lock_found :
    UserId → Uuid → Uuid → Time → Store → Option UserCreditBalance → UserCreditBalance × Store
lock_found u c id now s (some b) = (b, s)
lock_found u c id now s none =
    let b = empty_balance u c id now in (b, record s { balances = b ∷ s.balances })

-- `lockBalance`: the row, inserted with zero balances where there is none.
unfoldable pub lock_balance : UserId → Uuid → Uuid → Time → Store → UserCreditBalance × Store
lock_balance u c id now s = lock_found u c id now s (find_where (owns_balance u c) s.balances)

-- `Set("balance = ?")` and `Set("held_balance = ?")` on the row of a user and credit type.
unfoldable pub set_balance : UserId → Uuid → ℤ → Time → Store → Store
set_balance u c v now s = record s {
  balances =
      update_where (owns_balance u c) (λ b. record b { balance = v; updated_at = now }) s.balances;
}

unfoldable pub set_held_balance : UserId → Uuid → ℤ → Time → Store → Store
set_held_balance u c v now s = record s {
  balances =
      update_where (owns_balance u c) (λ b. record b { held_balance = v; updated_at = now })
        s.balances;
}

-- `expires_at IS NULL OR expires_at > now`
abbrev pub is_unexpired : Time → Option Time → Bool
is_unexpired now none = true
is_unexpired now (some t) = ltb now t

-- The blocks that a withdrawal may use.
abbrev pub is_usable : UserId → Uuid → Time → CreditBlock → Bool
is_usable u c now b =
    owns_block u c b && ltb_ℤ (pos 0) b.remaining_amount && is_unexpired now b.expires_at

-- `expires_at ASC NULLS LAST, created_at ASC`
abbrev pub use_before : Option Time → Time → Option Time → Time → Bool
use_before none ca none cb = leb ca cb
use_before none ca (some b) cb = false
use_before (some a) ca none cb = true
use_before (some a) ca (some b) cb = ltb a b || a == b && leb ca cb

abbrev pub block_before : CreditBlock → CreditBlock → Bool
block_before a b = use_before a.expires_at a.created_at b.expires_at b.created_at

-- How much of a block is used: all of it, or what is still wanted.
abbrev pub portion : ℤ → ℤ → ℤ
portion remaining amount = if ltb_ℤ remaining amount then remaining else amount

-- `UPDATE … SET remaining_amount` of one block by its key.
abbrev pub set_remaining : Uuid → ℤ → List CreditBlock → List CreditBlock
set_remaining id v = update_where (λ b. b.id == id) (λ b. record b { remaining_amount = v })

-- The loop over the blocks in order; it stops when nothing more is wanted, and passes over a block
-- of which nothing can be used. Returns the table and what could not be covered.
unfoldable pub use_blocks : List CreditBlock → ℤ → List CreditBlock → List CreditBlock × ℤ
use_blocks [] remaining table = (table, remaining)
use_blocks (b ∷ bs) remaining table =
    let used = portion remaining b.remaining_amount in
    let next =
      use_blocks bs (sub64 remaining used)
        (set_remaining b.id (sub64 b.remaining_amount used) table) in
    let skip = use_blocks bs remaining table in
    if eqb_ℤ remaining (pos 0)
    then (table, remaining)
    else if leb_ℤ used (pos 0)
    then skip
    else next

unfoldable pub withdraw_available :
    UserId → Uuid → ℤ → Time → UserCreditBalance → Store → Result Error (ℤ × Store)
withdraw_available u c amount now bal s =
    let blocks = order_by block_before (select_where (is_usable u c now) s.blocks) in
    let s' = record s { blocks = (use_blocks blocks amount s.blocks).0 } in
    let new_balance = sub64 bal.balance amount in
    if ltb_ℤ (sub64 bal.balance bal.held_balance) amount
    then err insufficient_credits
    else ok (new_balance, set_balance u c new_balance now s')

-- `withdrawBalanceAndBlocks`; `id` is for a new balance row.
unfoldable pub withdraw_balance_and_blocks :
    UserId → Uuid → ℤ → Uuid → Time → Store → Result Error (ℤ × Store)
withdraw_balance_and_blocks u c amount id now s =
    let (bal, s') = lock_balance u c id now s in withdraw_available u c amount now bal s'
