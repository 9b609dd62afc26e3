-- ===== src/Entitlements/Refused.antt =====
-- internal/db/repo/entitlement_timeline.go and the constraint `entitlements_no_overlap` of
-- migrations/postgres/026_restore_entitlement_source_and_overlap.up.sql: `SetEntitlementEndAtTx`
-- lengthens a window before it moves the windows behind it.
use openrails.Base.{
  ◌≤◌, ◌<◌, ◌≡◌, sym, subst, ◌∙◌, ◌⊎◌, inl, inr, Bool, true, false, not, ◌&&◌, ◌||◌, some, arith,
  ◌==◌, Pairwise, is_none, Bool-cases, Option-cases, Result, ok, err, ◌>>◌, ◌>>=◌, refuse_if,
}
use openrails.Base.Sql.{update_where, find_where}
use openrails.Rows.{find-test, find-All, find-Pairwise, find-update}
use openrails.Entitlements.Model.{Time, Uuid, Entitlement, Error, Table, Db, exec, is_live, has_key}
use openrails.Entitlements.Timeline.{
  is_live_id, set_entitlement_end_at, get_entitlement_by_id, change_end_at, is_closed,
}
use openrails.Entitlements.Overlap.{HasLength, IsTimeline, overlaps}
use openrails.Entitlements.Shift.{resized}

-- Two rows that the exclusion constraint lets stand together.
abbrev pub Disjoint : Entitlement → Entitlement → Type 0
Disjoint a b = overlaps a b ≡ false

abbrev visible_id : Db → Uuid → Entitlement → Bool
visible_id db id e = e.id == id && (is_none e.deleted_at || not db.hides_deleted)

lookup :
    (db : Db) (id : Uuid) (t : Table) {x : Entitlement}
    → get_entitlement_by_id db id t ≡ ok x
    → find_where (visible_id db id) t ≡ some x
unfolding get_entitlement_by_id
lookup db id t {x} h = elim (Option-cases (find_where (visible_id db id) t)) [
  | inl e ↦ absurd (ground arith)
  | inr (y, e) ↦ ground (arith, e)
]

-- The first statement was accepted.
accepted :
    (db : Db) (b : Bool) (e : Error) (l : Result Error (Unit {0})) (u : Table)
    (k : Table → Result Error Table) {t' : Table}
    → (refuse_if b e >> (l >> (exec db u >>= k))) ≡ ok t'
    → db.accepts u ≡ true
accepted db true e l u k h = absurd (cc)
accepted db false e (err x) u k h = absurd (cc)
accepted db false e (ok _) u k h = elim (Bool-cases (db.accepts u)) [
  | inl yes_row ↦ yes_row
  | inr no_row ↦ absurd (ground arith)
]

flip : (a b : Entitlement) → Disjoint a b → Disjoint b a
flip a b h = ground arith

module _ (db : Db) (now old new : Time) (t : Table) (x b : Entitlement) where
  abbrev first : Table
  first = update_where (is_live_id x.id) (resized (some new) now) t

  -- The longer window and the one behind it cannot both stand.
  pub clash :
      find_where (visible_id db x.id) t ≡ some x
      → find_where (λ e. e.id == b.id) t ≡ some b
      → (x.id == b.id) ≡ false
      → is_live x ≡ true
      → is_live b ≡ true
      → has_key x.user_id x.entitlement b ≡ true
      → HasLength x
      → HasLength b
      → x.end_at ≡ some old
      → old ≤ b.start_at
      → b.start_at < new
      → Pairwise Disjoint first
      → ⊥
  clash found found_b ne live_x live_b key len_x len_b end_x from till apart =
      let x' = resized (some new) now x in
      let fx : find_where (visible_id db x.id) first ≡ some x' =
        find-update (visible_id db x.id) (is_live_id x.id) (resized (some new) now) t
          (λ e. ground arith)
        ∙ rw found (ground (arith, find-test (visible_id db x.id) t found)) in
      let fb : find_where (λ e. e.id == b.id) first ≡ some b =
        find-update (λ e. e.id == b.id) (is_live_id x.id) (resized (some new) now) t
          (λ e. ground arith)
        ∙ rw found_b (ground arith) in
      let beside : (b ≡ x') ⊎ Disjoint x' b =
        find-All (λ r. (r ≡ x') ⊎ Disjoint x' r) (λ e. e.id == b.id) first
          (find-Pairwise Disjoint flip (visible_id db x.id) first apart fx) fb in
      elim beside [ inl same ↦ absurd (ground arith) | inr disjoint ↦ absurd (ground arith) ]

-- SetEntitlementEndAtTx cannot lengthen a live window over another. If the database accepts no
-- table in which two live windows of one user and entitlement overlap (the exclusion constraint,
-- which is not deferred), the table is a timeline, and another live window of the same user and
-- entitlement starts at or after the old end and before the new one, then the call does not
-- succeed, although it would move that window away afterwards.
pub set_entitlement_end_at-refused :
    (db : Db) (id : Uuid) (now old new : Time) (t : Table) (x b : Entitlement) {t' : Table}
    → ((u : Table) → db.accepts u ≡ true → Pairwise Disjoint u)
    → IsTimeline t
    → get_entitlement_by_id db id t ≡ ok x
    → is_live x ≡ true
    → x.end_at ≡ some old
    → find_where (λ e. e.id == b.id) t ≡ some b
    → (x.id == b.id) ≡ false
    → is_live b ≡ true
    → has_key x.user_id x.entitlement b ≡ true
    → old ≤ b.start_at
    → b.start_at < new
    → ¬ (set_entitlement_end_at db id (some new) now t ≡ ok t')
unfolding set_entitlement_end_at change_end_at
set_entitlement_end_at-refused db id now old new t x b exclusion v g live_x end_x found_b ne live_b
      key from till h =
    let found = lookup db id t g in
    let same_id : x.id ≡ id = ground (arith, find-test (visible_id db id) t found) in
    let found_x : find_where (visible_id db x.id) t ≡ some x =
      subst (λ k. find_where (visible_id db k) t ≡ some x) (sym same_id) found in
    let open_row : is_closed x ≡ false = ground arith in
    let yes_row = accepted db _ _ _ _ _ (rw (g, open_row) at h) in
    clash db now old new t x b found_x found_b ne live_x live_b key
      (find-All HasLength (visible_id db id) t v.0 found)
      (find-All HasLength (λ e. e.id == b.id) t v.0 found_b) end_x from till
      (exclusion (first db now old new t x b) yes_row)
