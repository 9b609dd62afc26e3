-- ===== src/Subscriptions/Row.antt =====
-- internal/db/models/subscription.go: the methods of a subscription, which change the struct in
-- memory.
use openrails.Base.{
  ℕ, ◌+◌, ◌-◌, ◌*◌, Bool, false, ◌&&◌, Option, none, some, [], ◌∷◌, ltb, leb, ◌==◌, if◌then◌else◌,
  Result, ok, err, ◌>>=◌, ◌>>◌, refuse_if,
}
use openrails.Base.Int.{ℤ, pos, leb_ℤ}
use openrails.Payments.Model.{Time}
use openrails.Subscriptions.Model.{
  Bytes, Subscription, Price, CancelType, active, past_due, cancelled, add_days, day, is_status,
}
use openrails.Subscriptions.Table.{
  Error, invalid_period_end, missing_cycle, expired_activation, invalid_amount, too_many_attempts,
}

-- 2 minutes in microseconds.
abbrev pub two_minutes : ℕ
two_minutes = 120000000

-- The end of a period: the cycle, or 30 days.
abbrev pub cycle_end : Time → Option ℤ → Time
cycle_end start none = start + 30 * day
cycle_end start (some days) = add_days start days

-- The start of the next period: the end of the current one, or now.
abbrev pub next_start : Option Time → Time → Time
next_start none now = now
next_start (some end_at) now = if end_at == 0 then now else end_at

-- `updateCurrentPeriods`
unfoldable pub update_current_periods : Option ℤ → Time → Subscription → Subscription
update_current_periods cycle now s =
    let start = next_start s.current_period_ends_at now in
    record s {
      current_period_starts_at = some start;
      current_period_ends_at = some (cycle_end start cycle);
    }

-- `ActivateWithPrice`
unfoldable pub activate_with_price : Price → Time → Subscription → Result Error Subscription
activate_with_price price now s = elim price.billing_cycle_days [
  | none ↦ err missing_cycle
  | some days ↦ ok (record (update_current_periods (some days) now s) {
    ended_at = none;
    cancel_type = none;
    cancelled_at = none;
    price_id = price.id;
    product_id = price.product_id;
    cancel_feedback = none;
    status = active;
  })
]

-- The periods of a subscription whose period has ended. The code points both columns at the zero
-- time, which the ORM stores as NULL (`nullzero`); nothing reads them in between.
abbrev pub closed_periods : Time → Subscription → Subscription
closed_periods now s = record s {
  current_period_starts_at = none;
  current_period_ends_at = none;
  ended_at = some (now - two_minutes);
}

abbrev reset_ended : Option Time → Time → Subscription → Result Error Subscription
reset_ended none now s = err invalid_period_end
reset_ended (some end_at) now s =
    if end_at == 0
    then err invalid_period_end
    else if leb end_at now
    then ok (closed_periods now s)
    else ok s

-- `ResetCurrentPeriods`
unfoldable pub reset_current_periods : Time → Subscription → Result Error Subscription
reset_current_periods now s = reset_ended s.current_period_ends_at now s

-- `if reason != "" { … }`
abbrev pub given_reason : Bytes → Option Bytes → Option Bytes
given_reason [] old = old
given_reason (c ∷ reason) old = some (c ∷ reason)

-- `Cancel`, which reads the time at `now`; `ResetCurrentPeriods` reads it again, at `reset_time`.
unfoldable pub cancel :
    Bytes → Option CancelType → Time → Time → Subscription → Result Error Subscription
cancel reason cancel_type now reset_time s = do
  s' ← reset_current_periods reset_time s
  ok (record s' {
    cancelled_at = some now;
    cancel_type = cancel_type;
    cancel_feedback = given_reason reason s'.cancel_feedback;
    status = cancelled;
  })

-- `p != nil && p.Before(t)`
abbrev is_before : Option Time → Time → Bool
is_before none t = false
is_before (some u) t = ltb u t

abbrev at_least : ℕ → Option ℕ → Bool
at_least n none = false
at_least n (some k) = leb n k

-- `Validate`; only the sign of the amount is looked at.
unfoldable pub validate : ℤ → Time → Subscription → Result Error (Unit {0})
validate amount now s = do
  refuse_if (is_before s.current_period_ends_at now && is_status active s) expired_activation
  refuse_if (is_status active s && leb_ℤ amount (pos 0)) invalid_amount
  refuse_if (is_status past_due s && at_least 5 s.retry_attempts) too_many_attempts
