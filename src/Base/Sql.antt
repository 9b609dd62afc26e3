-- ===== src/Base/Sql.antt =====
-- A database table as a list of rows, and the statements that the repositories run on it. The order
-- of the rows carries no meaning: what the code orders by, it names.
use Prim.Native.Nat.{ℕ, zero, suc}
use mathlib.Core.Bool.{Bool, false, ◌||◌}
use mathlib.Core.Option.{Option, none, some}
use mathlib.Core.List.{List, [], ◌∷◌}
use openrails.Base.Tests.{if◌then◌else◌}

module _ {ℓ} {A : Type ℓ} where
  -- `UPDATE … SET … WHERE p`
  unfoldable pub update_where : (A → Bool) → (A → A) → List A → List A
  update_where p f [] = []
  update_where p f (x ∷ xs) = (if p x then f x else x) ∷ update_where p f xs

  -- `SELECT … WHERE p`
  unfoldable pub select_where : (A → Bool) → List A → List A
  select_where p [] = []
  select_where p (x ∷ xs) = let rest = select_where p xs in if p x then x ∷ rest else rest

  -- `SELECT … WHERE p LIMIT 1`
  unfoldable pub find_where : (A → Bool) → List A → Option A
  find_where p [] = none
  find_where p (x ∷ xs) = if p x then some x else find_where p xs

  -- `SELECT EXISTS (… WHERE p)`
  unfoldable pub exists_where : (A → Bool) → List A → Bool
  exists_where p [] = false
  exists_where p (x ∷ xs) = p x || exists_where p xs

  -- `SELECT COUNT(*) … WHERE p`
  unfoldable pub count_where : (A → Bool) → List A → ℕ
  count_where p [] = 0
  count_where p (x ∷ xs) = let rest = count_where p xs in if p x then suc rest else rest

  -- `LIMIT n`
  unfoldable pub take : ℕ → List A → List A
  take zero xs = []
  take (suc n) [] = []
  take (suc n) (x ∷ xs) = x ∷ take n xs

  -- Whether a value is in an SQL `IN (…)` list, by its test.
  unfoldable pub member : (A → A → Bool) → A → List A → Bool
  member same a [] = false
  member same a (x ∷ xs) = same a x || member same a xs

  -- `ORDER BY`: rows by `before`, which says that the first row may stand ahead of the second.
  unfoldable pub insert_row : (A → A → Bool) → A → List A → List A
  insert_row before a [] = a ∷ []
  insert_row before a (x ∷ xs) =
      let rest = insert_row before a xs in if before a x then a ∷ x ∷ xs else x ∷ rest

  unfoldable pub order_by : (A → A → Bool) → List A → List A
  unfolding insert_row
  order_by before [] = []
  order_by before (x ∷ xs) = insert_row before x (order_by before xs)

  -- `LIMIT 1` of the ordered rows.
  unfoldable pub first_by : (A → A → Bool) → List A → Option A
  unfolding order_by
  first_by before xs = elim (order_by before xs) [ [] ↦ none | x ∷ _ ↦ some x ]
