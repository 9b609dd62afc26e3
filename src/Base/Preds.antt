-- ===== src/Base/Preds.antt =====
-- Predicates on the rows of a list, and on all pairs of rows.
use mathlib.Core.Path.{subst}
use mathlib.Core.List.{List, [], ◌∷◌, map, Permᴰ}
use mathlib.Core.List.Permᴰ.{nil, cons, swap, trans}

module _ {ℓ κ} {A : Type ℓ} where
  abbrev pub All : (A → Type κ) → List A → Type κ
  All P [] = Unit
  All P (x ∷ xs) = P x × All P xs

  -- `R` holds between each row and every later one.
  abbrev pub Pairwise : (A → A → Type κ) → List A → Type κ
  Pairwise R [] = Unit
  Pairwise R (x ∷ xs) = All (R x) xs × Pairwise R xs

module _ {ℓ κ ι} {A : Type ℓ} (P : A → Type κ) (Q : A → Type ι) where
  pub All-imp : (xs : List A) → ((a : A) → P a → Q a) → All P xs → All Q xs
  All-imp [] f h = tt
  All-imp (x ∷ xs) f h = (f x h.0, All-imp xs f h.1)

module _ {ℓ κ ι υ} {A : Type ℓ} (P : A → Type κ) (Q : A → Type ι) (S : A → Type υ) where
  pub All-imp₂ : (xs : List A) → ((a : A) → P a → Q a → S a) → All P xs → All Q xs → All S xs
  All-imp₂ [] f h k = tt
  All-imp₂ (x ∷ xs) f h k = (f x h.0 k.0, All-imp₂ xs f h.1 k.1)

module _ {ℓ κ ι υ} {A : Type ℓ} {B : Type υ} (P : A → Type κ) (Q : B → Type ι) (g : A → B) where
  pub All-map : (xs : List A) → ((a : A) → P a → Q (g a)) → All P xs → All Q (map g xs)
  All-map [] f h = tt
  All-map (x ∷ xs) f h = (f x h.0, All-map xs f h.1)

-- A map keeps a relation between all pairs, given what holds of each row.
module _ {ℓ κ ι υ} {A : Type ℓ} (Q : A → Type κ) (R : A → A → Type ι) (S : A → A → Type υ)
    (g : A → A) (keep : (a b : A) → Q a → Q b → R a b → S (g a) (g b)) where
  All-map_first : (x : A) (xs : List A) → Q x → All Q xs → All (R x) xs → All (S (g x)) (map g xs)
  All-map_first x [] q h r = tt
  All-map_first x (y ∷ ys) q h r = (keep x y q h.0 r.0, All-map_first x ys q h.1 r.1)

  pub Pairwise-map : (xs : List A) → All Q xs → Pairwise R xs → Pairwise S (map g xs)
  Pairwise-map [] h r = tt
  Pairwise-map (x ∷ xs) h r = (All-map_first x xs h.0 h.1 r.0, Pairwise-map xs h.1 r.1)

-- A predicate on all rows does not see their order.
pub All-perm {ℓ κ} :
    {A : Type κ} (P : A → Type ℓ) {ks ks' : List A} → Permᴰ ks ks' → All P ks → All P ks'
All-perm P nil h = h
All-perm P (cons e p) h = (subst P e h.0, All-perm P p h.1)
All-perm P (swap e e') h = (subst P e' h.1.0, (subst P e h.0, h.1.1))
All-perm P (trans p q) h = All-perm P q (All-perm P p h)
