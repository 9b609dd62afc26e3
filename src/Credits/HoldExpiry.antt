-- ===== src/Credits/HoldExpiry.antt =====
-- internal/river/jobs_hold_expiry.go: holds that have passed their `expires_at` are given back, in
-- batches.
use openrails.Base.{
  ℕ, zero, suc, Bool, true, false, not, ◌&&◌, Option, none, some, List, [], ◌∷◌, ◌==◌,
  if◌then◌else◌, Result, ok, err, ◌>>=◌, or_error,
}
use openrails.Base.Int.{ℤ, pos, leb_ℤ, sub64}
use openrails.Base.Sql.{update_where, select_where, find_where, order_by, take}
use openrails.Credits.Model.{
  Time, UserId, Uuid, CreditTransaction, expired, Store, Error, no_rows, is_hold, is_active_status,
  owns_balance,
}
use openrails.Credits.Balance.{set_held_balance}
use openrails.Credits.Expiry.{
  KeyTotal, add_total, Round, is_past, sooner, floor_zero, fewer_than, is_empty, batch_or,
}

abbrev pub is_expired_hold : Time → CreditTransaction → Bool
is_expired_hold now r =
    is_hold r.transaction_type && is_active_status r.status && is_past now r.expires_at

-- The rows of one batch.
unfoldable pub expired_holds : Round → ℕ → Time → List CreditTransaction → List CreditTransaction
expired_holds r size now t = take size (
    order_by (λ a b. sooner a.expires_at b.expires_at)
      (select_where (λ h. is_expired_hold now h && not (r.locked h.id)) t))

-- `Column("status", "updated_at")`
abbrev pub mark_expired : Time → Uuid → List CreditTransaction → List CreditTransaction
mark_expired now id =
    update_where (λ r. r.id == id) (λ r. record r { status = expired; updated_at = now })

-- The sum and the table after one hold; a hold with no positive authorized amount is passed over.
abbrev pub expire_hold :
    Time
    → UserId
    → Uuid
    → Uuid
    → Option ℤ
    → List KeyTotal
    → List CreditTransaction
    → List KeyTotal × List CreditTransaction
expire_hold now u c id none ks t = (ks, t)
expire_hold now u c id (some a) ks t =
    if leb_ℤ a (pos 0) then (ks, t) else (add_total u c a ks, mark_expired now id t)

-- The loop over the holds: the sums by key, and the table.
unfoldable pub expire_holds :
    Time
    → List CreditTransaction
    → List KeyTotal
    → List CreditTransaction
    → List KeyTotal × List CreditTransaction
expire_holds now [] ks t = (ks, t)
expire_holds now (h ∷ hs) ks t =
    let (ks', t') = expire_hold now h.user_id h.credit_type_id h.id h.authorized ks t in
    expire_holds now hs ks' t'

-- One round of the loop over the map: the held balance goes down, not below zero.
unfoldable pub free_key : Time → KeyTotal → Store → Result Error Store
free_key now k s =
    let freed =
      or_error (find_where (owns_balance k.user_id k.credit_type_id) s.balances) no_rows >>= λ bal.
      ok (
        set_held_balance k.user_id k.credit_type_id (floor_zero (sub64 bal.held_balance k.amount))
          now s) in
    if leb_ℤ k.amount (pos 0) then ok s else freed

unfoldable pub free_keys : Time → List KeyTotal → Store → Result Error Store
free_keys now [] s = ok s
free_keys now (k ∷ ks) s = free_key now k s >>= λ s'. free_keys now ks s'

-- One transaction of the loop.
unfoldable pub hold_batch : Round → Time → List CreditTransaction → Store → Result Error Store
hold_batch r now hs s =
    let (totals, rows) = expire_holds now hs [] s.transactions in
    free_keys now (r.visit totals) (record s { transactions = rows })

-- What follows a transaction: an error ends the loop, and so does a batch that was not full.
abbrev pub after_batch :
    Bool
    → Store
    → Result Error Store
    → (Store → Option (Store × Result Error (Unit {0})))
    → Option (Store × Result Error (Unit {0}))
after_batch last s (err e) more = some (s, err e)
after_batch true s (ok s') more = some (s', ok tt)
after_batch false s (ok s') more = more s'

-- The loop, on fuel: `none` where the rounds run out. An error leaves the tables that the earlier
-- rounds committed.
unfoldable pub hold_rounds :
    (ℕ → Round) → ℕ → ℕ → Time → Store → Option (Store × Result Error (Unit {0}))
hold_rounds rounds zero size now s = none
hold_rounds rounds (suc n) size now s =
    let holds = expired_holds (rounds n) size now s.transactions in
    let next =
      after_batch (fewer_than size holds) s (hold_batch (rounds n) now holds s)
        (λ s'. hold_rounds rounds n size now s') in
    if is_empty holds then some (s, ok tt) else next

-- `HoldExpiryWorker.Work`
unfoldable pub hold_expiry :
    Bool → (ℕ → Round) → ℕ → ℤ → Time → Store → Option (Store × Result Error (Unit {0}))
hold_expiry disabled rounds fuel batch_size now s =
    let done = hold_rounds rounds fuel (batch_or 100 batch_size) now s in
    if disabled then some (s, ok tt) else done
