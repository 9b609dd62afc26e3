-- ===== src/Entitlements/Model.antt =====
-- internal/db/models/entitlement.go: an access window [start_at, end_at) of a user to a named
-- entitlement, with its optional revoke and soft-delete marks.
use openrails.Base.{
  ℕ, ◌+◌, ◌-◌, ◌*◌, ◌/◌, Bool, true, false, ◌&&◌, Option, none, some, List, ltb, leb, ◌==◌,
  if◌then◌else◌, is_none, Result, ok, err,
}
use openrails.Base.Int.{ℤ, pos, negsuc, pos_part, neg_part, sub_ℕ}

-- Microseconds since Go's zero time, the resolution of a `timestamptz`; 0 is the zero time.
abbrev pub Time : Type 0
Time = ℕ

-- A `time.Duration`, in microseconds.
abbrev pub Duration : Type 0
Duration = ℤ

abbrev pub second : ℕ
second = 1000000

-- Identifiers are only compared; 0 is the empty text and the nil UUID.
abbrev pub UserId : Type 0
UserId = ℕ

abbrev pub Uuid : Type 0
Uuid = ℕ

abbrev pub Name : Type 0
Name = ℕ

pub data EntitlementSourceType : Type 0 where
  subscription one_off admin grace : EntitlementSourceType

abbrev pub same_source : EntitlementSourceType → EntitlementSourceType → Bool
same_source subscription subscription = true
same_source one_off one_off = true
same_source admin admin = true
same_source grace grace = true
same_source _ _ = false

pub data EntitlementRevokeReason : Type 0 where
  by_admin downgrade chargeback refund fraud dunning_failed superseded : EntitlementRevokeReason

pub record Entitlement : Type 0 where
  pub id : Uuid
  pub user_id : UserId
  pub entitlement : Name
  pub start_at : Time
  pub end_at : Option Time
  pub source_id : Option Uuid
  pub source_type : EntitlementSourceType
  pub revoked_at : Option Time
  pub revoke_reason : Option EntitlementRevokeReason
  pub created_at : Time
  pub updated_at : Time
  pub deleted_at : Option Time

pub data Error : Type 0 where
  no_rows invalid_end_at invalid_revoke_at missing_key missing_source bad_window_choice : Error
  bad_duration bad_end_at not_found db_error cannot_extend negative_window bad_selector : Error

abbrev pub Table : Type 0
Table = List Entitlement

-- What the database decides: whether a table that a statement produces meets its constraints, and
-- whether a plain `SELECT` by the model leaves out soft-deleted rows, as the ORM may.
pub record Db : Type 0 where
  pub accepts : Table → Bool
  pub hides_deleted : Bool

-- `Exec`: the statement's table, or the database's error.
abbrev pub exec : Db → Table → Result Error Table
exec db t = if db.accepts t then ok t else err db_error

-- `revoked_at IS NULL AND deleted_at IS NULL`
abbrev pub is_live : Entitlement → Bool
is_live e = is_none e.revoked_at && is_none e.deleted_at

-- `user_id = ? AND entitlement = ?`
abbrev pub has_key : UserId → Name → Entitlement → Bool
has_key u n e = e.user_id == u && e.entitlement == n

-- `end_at IS NULL OR end_at > at`
abbrev pub ends_after : Time → Option Time → Bool
ends_after at none = true
ends_after at (some e) = ltb at e

-- `start_at <= at AND (end_at IS NULL OR end_at > at)`
abbrev pub covers : Time → Entitlement → Bool
covers at e = leb e.start_at at && ends_after at e.end_at

-- `to.Sub(from)`
abbrev pub duration_between : Time → Time → Duration
duration_between from to = sub_ℕ to from

-- `int64(delta.Seconds())`: whole seconds, towards zero.
unfoldable pub whole_seconds : Duration → ℤ
whole_seconds (pos n) = pos (n / second)
whole_seconds (negsuc n) = sub_ℕ 0 ((n + 1) / second)

-- `start_at + (? * interval '1 second')`
unfoldable pub add_seconds : Time → ℤ → Time
add_seconds t s = t + pos_part s * second - neg_part s * second
