-- ===== src/Entitlements/Overlap.antt =====
-- internal/db/repo/entitlement_timeline.go: the invariant of a timeline. Every window has a
-- length, no identifier is used twice, and no two live windows of a user's entitlement overlap.
use openrails.Base.{
  ◌≡◌, ◌⊎◌, inl, inr, Bool, true, false, ◌&&◌, some, arith, ◌==◌, All, Pairwise, sym, subst,
  All-map, Pairwise-map, All-imp₂,
}
use mathlib.Core.List.{map}
use openrails.Base.Sql.{find_where}
use openrails.Rows.{find-Pairwise}
use openrails.Entitlements.Model.{Entitlement, Table, is_live, has_key, ends_after}

-- The test of the constraint `entitlements_no_overlap`: both windows are live, belong to one user
-- and entitlement, and share an instant.
abbrev pub overlaps : Entitlement → Entitlement → Bool
overlaps a b =
    is_live a
    && is_live b
    && has_key a.user_id a.entitlement b
    && ends_after a.start_at b.end_at
    && ends_after b.start_at a.end_at

-- `chk_valid_time_window`
abbrev pub HasLength : Entitlement → Type 0
HasLength e = ends_after e.start_at e.end_at ≡ true

-- Two rows of the table: different identifiers, and no overlap.
abbrev pub Apart : Entitlement → Entitlement → Type 0
Apart a b = ((a.id == b.id) ≡ false) × (overlaps a b ≡ false)

abbrev pub IsTimeline : Table → Type 0
IsTimeline t = All HasLength t × Pairwise Apart t

pub Apart-flip : (a b : Entitlement) → Apart a b → Apart b a
Apart-flip a b h = ground arith

-- A row beside the row `x` that the operation changes.
abbrev pub Beside : Entitlement → Entitlement → Type 0
Beside x r = ((r ≡ x) ⊎ Apart x r) × HasLength r

-- An operation changes the row `x` into `x'` and every other row by `h`. It keeps the timeline if
-- the changed rows keep their distance.
module _ (x x' : Entitlement) (h : Entitlement → Entitlement) (self_length : HasLength x')
    (other_length : (a : Entitlement) → Apart x a → HasLength a → HasLength (h a))
    (self_apart : (b : Entitlement) → Apart x b → HasLength b → Apart x' (h b))
    (other_apart : (a b : Entitlement)
      → Apart x a
      → Apart x b
      → HasLength a
      → HasLength b
      → Apart a b
      → Apart (h a) (h b))
    (g : Entitlement → Entitlement) (on_self : g x ≡ x')
    (on_other : (e : Entitlement) → (x.id == e.id) ≡ false → g e ≡ h e) where
  change-Apart : (a b : Entitlement) → Beside x a → Beside x b → Apart a b → Apart (g a) (g b)
  change-Apart a b (inl ea, la) (inl eb, lb) d = absurd (ground arith)
  change-Apart a b (inl ea, la) (inr xb, lb) d =
      subst (λ r. Apart (g r) (g b)) (sym ea) (rw (on_self, on_other b xb.0) (self_apart b xb lb))
  change-Apart a b (inr xa, la) (inl eb, lb) d =
      subst (λ r. Apart (g a) (g r)) (sym eb)
        (rw (on_self, on_other a xa.0) (Apart-flip x' (h a) (self_apart a xa la)))
  change-Apart a b (inr xa, la) (inr xb, lb) d =
      rw (on_other a xa.0, on_other b xb.0) (other_apart a b xa xb la lb d)

  change-HasLength : (a : Entitlement) → Beside x a → HasLength (g a)
  change-HasLength a (inl e, l) = subst (λ r. HasLength (g r)) (sym e) (rw on_self self_length)
  change-HasLength a (inr xa, l) = rw (on_other a xa.0) (other_length a xa l)

  pub change-IsTimeline : (t : Table) → All (Beside x) t → IsTimeline t → IsTimeline (map g t)
  change-IsTimeline t beside d = (
    All-map (Beside x) HasLength g t change-HasLength beside,
    Pairwise-map (Beside x) Apart Apart g change-Apart t beside d.1,
  )

-- The rows beside a row that a statement finds.
pub found-Beside :
    (p : Entitlement → Bool) (x : Entitlement) (t : Table)
    → IsTimeline t
    → find_where p t ≡ some x
    → All (Beside x) t
found-Beside p x t h e =
    All-imp₂ (λ r. (r ≡ x) ⊎ Apart x r) HasLength (Beside x) t (λ r b l. (b, l))
      (find-Pairwise Apart Apart-flip p t h.1 e) h.0
