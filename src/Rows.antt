-- ===== src/Rows.antt =====
-- What the statements of `Sql` do to the rows of a table.
use mathlib.Core.List.{map}
use mathlib.Core.Option
use mathlib.Core.Option.{some-injective}
use openrails.Base.{
  ℕ, zero, suc, ◌≡◌, subst, sym, ◌∙◌, refl, ap, ◌⊎◌, inl, inr, Bool, true, false, none, some, List,
  [], ◌∷◌, arith, if◌then◌else◌, Bool-cases, All, Pairwise, All-imp,
}
use openrails.Base.Sql.{
  update_where, select_where, find_where, exists_where, insert_row, order_by, take,
}

pub true_ne_false : true ≡ false → ⊥
true_ne_false h = cc

none_ne_some {ℓ} : {A : Type ℓ} {x : A} → none ≡ some x → ⊥
none_ne_some h = cc

module _ {ℓ} {A : Type ℓ} where
  pub update-eq-map :
      (p : A → Bool) (f : A → A) (xs : List A)
      → update_where p f xs ≡ map (λ x. if p x then f x else x) xs
  unfolding update_where
  update-eq-map p f [] = refl
  update-eq-map p f (x ∷ xs) = ap (λ r. (if p x then f x else x) ∷ r) (update-eq-map p f xs)

  pub update-update :
      (p q : A → Bool) (f h : A → A) (xs : List A)
      → update_where q h (update_where p f xs)
        ≡ map (λ x. let y = if p x then f x else x in if q y then h y else y) xs
  unfolding update_where
  update-update p q f h [] = refl
  update-update p q f h (x ∷ xs) =
      ap (λ r. (let y = if p x then f x else x in if q y then h y else y) ∷ r)
        (update-update p q f h xs)

  pub find-test : (p : A → Bool) {x : A} (xs : List A) → find_where p xs ≡ some x → p x ≡ true
  unfolding find_where
  find-test p [] h = cc
  find-test p {x} (y ∷ ys) h = ground (arith, find-test p {x = x} ys)

  -- What one test finds, a weaker test finds a row for.
  pub find-weaker :
      (p q : A → Bool) {x : A} (xs : List A)
      → q x ≡ true
      → find_where p xs ≡ some x
      → (y : A) × (find_where q xs ≡ some y)
  unfolding find_where
  find-weaker p q [] passes h = absurd (none_ne_some h)
  find-weaker p q {x} (z ∷ zs) passes h = elim (Bool-cases (q z)) [
    | inl here ↦ (z, rw here refl)
    | inr there ↦ elim (Bool-cases (p z)) [
      | inl found ↦ absurd (
          true_ne_false
            (sym passes ∙ subst (λ r. q r ≡ false) (some-injective _ _ (rw found at h)) there))
      | inr passed ↦
          let (y, e) = find-weaker p q {x = x} zs passes (rw passed at h) in (y, rw there e)
    ]
  ]

module _ {ℓ κ} {A : Type ℓ} (P : A → Type κ) where
  pub find-All : (p : A → Bool) {x : A} (xs : List A) → All P xs → find_where p xs ≡ some x → P x
  unfolding find_where
  find-All p [] a h = absurd (none_ne_some h)
  find-All p (y ∷ ys) a h = elim (Bool-cases (p y)) [
    | inl here ↦ subst P (some-injective _ _ (rw here at h)) a.0
    | inr there ↦ find-All p ys a.1 (rw there at h)
  ]

-- Every row is the one that was found, or stands in the relation to it.
module _ {ℓ κ} {A : Type ℓ} (R : A → A → Type κ) (flip : (a b : A) → R a b → R b a) where
  pub find-Pairwise :
      (p : A → Bool) {x : A} (xs : List A)
      → Pairwise R xs
      → find_where p xs ≡ some x
      → All (λ r. (r ≡ x) ⊎ R x r) xs
  unfolding find_where
  find-Pairwise p [] a h = absurd (none_ne_some h)
  find-Pairwise p {x} (y ∷ ys) a h = elim (Bool-cases (p y)) [
    | inl here ↦
        let e = some-injective _ _ (rw here at h) in
        (inl e, All-imp (R y) _ ys (λ r k. inr (subst (λ z. R z r) e k)) a.0)
    | inr there ↦
        let e = rw there at h in
        (inr (flip _ _ (find-All (R y) p ys a.0 e)), find-Pairwise p ys a.1 e)
  ]

module _ {ℓ} {A : Type ℓ} where
  pub exists-update :
      (q p : A → Bool) (f : A → A) (xs : List A)
      → ((a : A) → q (if p a then f a else a) ≡ false)
      → exists_where q (update_where p f xs) ≡ false
  unfolding exists_where update_where
  exists-update q p f [] h = refl
  exists-update q p f (x ∷ xs) h = rw (h x) (exists-update q p f xs h)

  pub exists-update_update :
      (q p p' : A → Bool) (f f' : A → A) (xs : List A)
      → ((a : A) → q (let b = if p a then f a else a in if p' b then f' b else b) ≡ false)
      → exists_where q (update_where p' f' (update_where p f xs)) ≡ false
  unfolding exists_where update_where
  exists-update_update q p p' f f' [] h = refl
  exists-update_update q p p' f f' (x ∷ xs) h = rw (h x) (exists-update_update q p p' f f' xs h)

  pub exists-All :
      (q : A → Bool) (xs : List A) → exists_where q xs ≡ false → All (λ a. q a ≡ false) xs
  unfolding exists_where
  exists-All q [] h = tt
  exists-All q (x ∷ xs) h = elim (Bool-cases (q x)) [
    | inl here ↦ absurd (ground (arith, here))
    | inr there ↦ (there, exists-All q xs (rw there at h))
  ]

  pub exists-never :
      (q : A → Bool) (xs : List A) → ((a : A) → q a ≡ false) → exists_where q xs ≡ false
  unfolding exists_where
  exists-never q [] h = refl
  exists-never q (x ∷ xs) h = rw (h x) (exists-never q xs h)

  -- An update that leaves a test's answer alone on every row.
  pub exists-update_same :
      (q p : A → Bool) (f : A → A) (xs : List A)
      → ((a : A) → q (if p a then f a else a) ≡ q a)
      → exists_where q (update_where p f xs) ≡ exists_where q xs
  unfolding exists_where update_where
  exists-update_same q p f [] h = refl
  exists-update_same q p f (x ∷ xs) h = rw (h x, exists-update_same q p f xs h)

module _ {ℓ} {A : Type ℓ} where
  -- What a lookup finds after an update that leaves the lookup's test alone.
  pub find-update :
      (q p : A → Bool) (f : A → A) (xs : List A)
      → ((a : A) → q (if p a then f a else a) ≡ q a)
      → find_where q (update_where p f xs)
        ≡ Option.map (λ a. if p a then f a else a) (find_where q xs)
  unfolding find_where update_where
  find-update q p f [] h = refl
  find-update q p f (x ∷ xs) h = elim (Bool-cases (q x)) [
    | inl here ↦ rw (h x, here)
    | inr there ↦ rw (h x, there) (find-update q p f xs h)
  ]

module _ {ℓ κ} {A : Type ℓ} (P : A → Type κ) where
  pub select-All :
      (p : A → Bool) (xs : List A) → All P xs → All (λ a. (p a ≡ true) × P a) (select_where p xs)
  unfolding select_where
  select-All p [] h = tt
  select-All p (x ∷ xs) h = elim (Bool-cases (p x)) [
    | inl chosen ↦ rw chosen ((chosen, h.0), select-All p xs h.1)
    | inr left_out ↦ rw left_out (select-All p xs h.1)
  ]

  pub select-All_plain : (p : A → Bool) (xs : List A) → All P xs → All P (select_where p xs)
  select-All_plain p xs h =
      All-imp (λ a. (p a ≡ true) × P a) P (select_where p xs) (λ a k. k.1) (select-All p xs h)

  insert_row-All :
      (before : A → A → Bool) (a : A) (xs : List A)
      → P a
      → All P xs
      → All P (insert_row before a xs)
  unfolding insert_row
  insert_row-All before a [] k h = (k, tt)
  insert_row-All before a (x ∷ xs) k h = elim (Bool-cases (before a x)) [
    | inl ahead ↦ rw ahead (k, h)
    | inr behind ↦ rw behind (h.0, insert_row-All before a xs k h.1)
  ]

  pub order-All : (before : A → A → Bool) (xs : List A) → All P xs → All P (order_by before xs)
  unfolding order_by
  order-All before [] h = tt
  order-All before (x ∷ xs) h =
      insert_row-All before x (order_by before xs) h.0 (order-All before xs h.1)

  pub take-All : (n : ℕ) (xs : List A) → All P xs → All P (take n xs)
  unfolding take
  take-All zero xs h = tt
  take-All (suc n) [] h = tt
  take-All (suc n) (x ∷ xs) h = (h.0, take-All n xs h.1)

module _ {ℓ κ} {A : Type ℓ} (R : A → A → Type κ) where
  pub take-Pairwise : (n : ℕ) (xs : List A) → Pairwise R xs → Pairwise R (take n xs)
  unfolding take
  take-Pairwise zero xs h = tt
  take-Pairwise (suc n) [] h = tt
  take-Pairwise (suc n) (x ∷ xs) h = (take-All (R x) n xs h.0, take-Pairwise n xs h.1)

  pub select-Pairwise :
      (p : A → Bool) (xs : List A) → Pairwise R xs → Pairwise R (select_where p xs)
  unfolding select_where
  select-Pairwise p [] h = tt
  select-Pairwise p (x ∷ xs) h = elim (Bool-cases (p x)) [
    | inl chosen ↦ rw chosen (select-All_plain (R x) p xs h.0, select-Pairwise p xs h.1)
    | inr left_out ↦ rw left_out (select-Pairwise p xs h.1)
  ]

  module _ (flip : (a b : A) → R a b → R b a) where
    insert_row-Pairwise :
        (before : A → A → Bool) (a : A) (xs : List A)
        → All (R a) xs
        → Pairwise R xs
        → Pairwise R (insert_row before a xs)
    unfolding insert_row
    insert_row-Pairwise before a [] k h = (tt, tt)
    insert_row-Pairwise before a (x ∷ xs) k h = elim (Bool-cases (before a x)) [
      | inl ahead ↦ rw ahead (k, h)
      | inr behind ↦ rw behind (
        insert_row-All (R x) before a xs (flip a x k.0) h.0,
        insert_row-Pairwise before a xs k.1 h.1,
      )
    ]

    pub order-Pairwise :
        (before : A → A → Bool) (xs : List A) → Pairwise R xs → Pairwise R (order_by before xs)
    unfolding order_by
    order-Pairwise before [] h = tt
    order-Pairwise before (x ∷ xs) h =
        insert_row-Pairwise before x (order_by before xs) (order-All (R x) before xs h.0)
          (order-Pairwise before xs h.1)
