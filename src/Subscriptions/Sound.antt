-- ===== src/Subscriptions/Sound.antt =====
-- The table of subscriptions: when it is sound, and what one write does to it.
use openrails.Base.{
  ◌≡◌, refl, sym, subst, ◌∙◌, inl, inr, true, false, not, ◌&&◌, Option, none, some, ◌∷◌, arith,
  ◌==◌, if◌then◌else◌, is_some, Bool-cases, Option-cases, ok, All, Pairwise, All-imp₂, All-map,
  Pairwise-map,
}
use openrails.Base.Sql.{find_where, exists_where, update_where}
use openrails.Rows.{update-eq-map, find-test, find-update, exists-All}
use mathlib.Core.List.{map}
use mathlib.Core.Option
use openrails.Payments.Model.{Time, Uuid}
use openrails.Subscriptions.Model.{Subscription, active, is_status}
use openrails.Subscriptions.Table.{
  Subscriptions, collides, has_id, insert_subscription, meets_checks, replace_row,
  update_subscription, write_columns,
}
use openrails.Subscriptions.Repo.{create, update}

-- An active subscription has a period and no trace of a cancellation.
pub record ActiveRow (s : Subscription) : Type 0 where
  pub not_cancelled : s.cancelled_at ≡ none
  pub no_type : s.cancel_type ≡ none
  pub not_ended : s.ended_at ≡ none
  pub starts : is_some s.current_period_starts_at ≡ true
  pub ends : is_some s.current_period_ends_at ≡ true

-- What the code sees to before it writes a row.
abbrev pub IsClean : Subscription → Type 0
IsClean s = is_status active s ≡ true → ActiveRow s

abbrev pub IsGoodRow : Subscription → Type 0
IsGoodRow s = (meets_checks s ≡ true) × IsClean s

abbrev pub Together : Subscription → Subscription → Type 0
Together a b = (has_id a.id b ≡ false) × (collides a b ≡ false)

abbrev pub IsSound : Subscriptions → Type 0
IsSound t = All IsGoodRow t × Pairwise Together t

pub flip : (a b : Subscription) → Together a b → Together b a
flip a b h = ground arith

-- The rows beside the written one do not collide with it.
abbrev Beside : Subscription → Subscription → Type 0
Beside s b = (not (has_id s.id b) && collides s b) ≡ false

abbrev Put : Subscription → Subscription → Subscription
Put s old = if has_id s.id old then s else old

module _ (s : Subscription) (t : Subscriptions) where
  replaced :
      {t' : Subscriptions}
      → replace_row s t ≡ ok t'
      → (meets_checks s ≡ true) × All (Beside s) t × (t' ≡ map (Put s) t)
  unfolding replace_row
  replaced {t'} h =
      let fresh =
        exists-All (λ other. not (has_id s.id other) && collides s other) t (ground arith) in
      (ground arith, fresh, ground arith ∙ update-eq-map (has_id s.id) (λ old. s) t)

  put-good : IsGoodRow s → (a : Subscription) → IsGoodRow a → IsGoodRow (Put s a)
  put-good good a h = elim (Bool-cases (has_id s.id a)) [
    | inl here ↦ rw here good
    | inr there ↦ rw there h
  ]

  put-Together :
      (a b : Subscription) → Beside s a → Beside s b → Together a b → Together (Put s a) (Put s b)
  put-Together a b beside_a beside_b h = elim (Bool-cases (has_id s.id a)) [
    | inl same_a ↦ elim (Bool-cases (has_id s.id b)) [
      | inl same_b ↦ absurd (ground (arith, h.0))
      | inr other_b ↦ rw (same_a, other_b) (other_b, apart b other_b beside_b)
    ]
    | inr other_a ↦ elim (Bool-cases (has_id s.id b)) [
      | inl same_b ↦ rw (other_a, same_b) (flip s a (other_a, apart a other_a beside_a))
      | inr other_b ↦ rw (other_a, other_b) h
    ]
  ]
    where
      apart : (c : Subscription) → has_id s.id c ≡ false → Beside s c → collides s c ≡ false
      apart c other k = rw other at k

  pub replace_row-IsSound :
      {t' : Subscriptions} → IsSound t → IsClean s → replace_row s t ≡ ok t' → IsSound t'
  replace_row-IsSound {t'} v clean h =
      let (checked, beside, table) = replaced h in
      subst IsSound (sym table) (
        All-map IsGoodRow IsGoodRow (Put s) t (put-good (checked, clean)) v.0,
        Pairwise-map (Beside s) Together Together (Put s) put-Together t beside v.1,
      )

-- What the update found.
pub update_subscription-ok :
    (s : Subscription) (t : Subscriptions) {t' : Subscriptions}
    → update_subscription s t ≡ ok t'
    → (old : Subscription) × (find_where (has_id s.id) t ≡ some old)
      × (replace_row (write_columns s old) t ≡ ok t')
unfolding update_subscription
update_subscription-ok s t h = elim (Option-cases (find_where (has_id s.id) t)) [
  | inl missing ↦ absurd (ground arith)
  | inr (old, found) ↦ (old, found, rw found at h)
]

pub update-IsSound :
    (now : Time) (s : Subscription) (t : Subscriptions) {t' : Subscriptions}
    → IsSound t
    → IsClean s
    → update now s t ≡ ok t'
    → IsSound t'
unfolding update
update-IsSound now s t v clean h =
    let s' = record s { updated_at = now } in
    let (old, _, replaced_ok) = update_subscription-ok s' t h in
    replace_row-IsSound (write_columns s' old) t v
      (λ is_active.
        let c = clean is_active in
        record {
          not_cancelled = c.not_cancelled;
          no_type = c.no_type;
          not_ended = c.not_ended;
          starts = c.starts;
          ends = c.ends;
        })
      replaced_ok

pub create-IsSound :
    (s : Subscription) (t : Subscriptions) {t' : Subscriptions}
    → IsSound t
    → IsClean s
    → exists_where (has_id s.id) t ≡ false
    → create s t ≡ ok t'
    → IsSound t'
unfolding create insert_subscription
create-IsSound s t {t'} v clean fresh h =
    let table : t' ≡ s ∷ t = ground arith in
    let apart : exists_where (collides s) t ≡ false = ground arith in
    let checked : meets_checks s ≡ true = ground arith in
    subst IsSound (sym table) (
      ((checked, clean), v.0),
      (
        All-imp₂ (λ b. has_id s.id b ≡ false) (λ b. collides s b ≡ false) (Together s) t
            (λ b other free. (other, free)) (exists-All (has_id s.id) t fresh)
            (exists-All (collides s) t apart),
        v.1,
      ),
    )

-- The row of another key stays as it was.
pub update-other :
    (now : Time) (s : Subscription) (t : Subscriptions) (id : Uuid) {t' : Subscriptions}
    → (id == s.id) ≡ false
    → update now s t ≡ ok t'
    → find_where (has_id id) t' ≡ find_where (has_id id) t
unfolding update replace_row
update-other now s t id {t'} other h =
    let s' = record s { updated_at = now } in
    let (old, found, replaced_ok) = update_subscription-ok s' t h in
    let row = write_columns s' old in
    let table : t' ≡ update_where (has_id s.id) (λ x. row) t = ground arith in
    subst (λ u. find_where (has_id id) u ≡ find_where (has_id id) t) (sym table)
      (find-update (has_id id) (has_id s.id) (λ x. row) t (λ a. ground (arith, other))
        ∙ kept (find_where (has_id id) t) refl row)
  where
    kept :
        (o : Option Subscription)
        → find_where (has_id id) t ≡ o
        → (row : Subscription) → Option.map (λ a. if has_id s.id a then row else a) o ≡ o
    kept none e row = refl
    kept (some x) e row = rw (other_row x (find-test (has_id id) t e)) refl
      where
        other_row : (x : Subscription) → has_id id x ≡ true → has_id s.id x ≡ false
        other_row x is = ground (arith, other)

-- The row of the written key.
pub update-here :
    (now : Time) (s : Subscription) (t : Subscriptions) {t' : Subscriptions}
    → update now s t ≡ ok t'
    → (old : Subscription) × (find_where (has_id s.id) t ≡ some old)
      × (find_where (has_id s.id) t' ≡ some (write_columns (record s { updated_at = now }) old))
unfolding update replace_row
update-here now s t {t'} h =
    let s' = record s { updated_at = now } in
    let (old, found, replaced_ok) = update_subscription-ok s' t h in
    let row = write_columns s' old in
    let table : t' ≡ update_where (has_id s.id) (λ x. row) t = ground arith in
    (
      old,
      found,
      subst (λ u. find_where (has_id s.id) u ≡ some row) (sym table)
          (find-update (has_id s.id) (has_id s.id) (λ x. row) t (λ a. ground arith)
            ∙ rw (found, find-test (has_id s.id) t found) refl),
    )
