-- ===== src/Idempotency/Keys.antt =====
-- internal/modules/idempotency/service.go, `buildKey`: which calls share a record.
use openrails.Base.{◌≡◌, refl, sym, Bool, true, not, ◌&&◌, [], ◌∷◌, ◌++◌, ℕ, ◌==◌, arith}
use openrails.Idempotency.Service.{Bytes, key_prefix, build_key}

-- No byte of the text is a colon.
unfoldable pub without_colon : Bytes → Bool
without_colon [] = true
without_colon (x ∷ xs) = not (x == 58) && without_colon xs

same_head : {x y : ℕ} {xs ys : Bytes} → ◌≡◌ {A = Bytes} (x ∷ xs) (y ∷ ys) → x ≡ y
same_head h = cc

same_tail : {x y : ℕ} {xs ys : Bytes} → ◌≡◌ {A = Bytes} (x ∷ xs) (y ∷ ys) → xs ≡ ys
same_tail h = cc

starts_without : (x : ℕ) (xs : Bytes) → without_colon (x ∷ xs) ≡ true → x ≡ 58 → ⊥
unfolding without_colon
starts_without x xs p h = ground arith

rest_without : (x : ℕ) (xs : Bytes) → without_colon (x ∷ xs) ≡ true → without_colon xs ≡ true
unfolding without_colon
rest_without x xs p = ground arith

cong_cons : {x y : ℕ} {xs ys : Bytes} → x ≡ y → xs ≡ ys → ◌≡◌ {A = Bytes} (x ∷ xs) (y ∷ ys)
cong_cons p q = cc

-- A text without a colon ends where the first colon stands.
first_colon :
    (xs ys : Bytes) {k l : Bytes}
    → without_colon xs ≡ true
    → without_colon ys ≡ true
    → ◌≡◌ {A = Bytes} (xs ++ (58 ∷ k)) (ys ++ (58 ∷ l))
    → (xs ≡ ys) × (k ≡ l)
first_colon [] [] p q h = (refl, same_tail h)
first_colon [] (y ∷ ys) p q h = absurd (starts_without y ys q (sym (same_head h)))
first_colon (x ∷ xs) [] p q h = absurd (starts_without x xs p (same_head h))
first_colon (x ∷ xs) (y ∷ ys) p q h =
    let (same, rest) =
      first_colon xs ys (rest_without x xs p) (rest_without y ys q) (same_tail h) in
    (cong_cons (same_head h) same, rest)

same_after_prefix :
    (xs ys : Bytes) → ◌≡◌ {A = Bytes} (key_prefix ++ xs) (key_prefix ++ ys) → xs ≡ ys
same_after_prefix xs ys h = cc

-- Two operations without a colon in their names have no key in common: if the full keys are the
-- same, so are the operations and the keys.
pub build_key-injective :
    (operation operation' key key' : Bytes)
    → without_colon operation ≡ true
    → without_colon operation' ≡ true
    → build_key operation key ≡ build_key operation' key'
    → (operation ≡ operation') × (key ≡ key')
unfolding build_key
build_key-injective operation operation' key key' p q h =
    first_colon operation operation' p q (same_after_prefix _ _ h)
