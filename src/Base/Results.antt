-- ===== src/Base/Results.antt =====
-- A Go function's `(value, error)` pair: one of the two. A transaction that returns an error is
-- rolled back, so an error carries no state.
use mathlib.Core.Path.{◌≡◌, refl, ap}
use mathlib.Core.Bool.{Bool, true, false}
use mathlib.Core.Option.{Option, none, some}

pub data Result {ℓ κ} (E : Type ℓ) (A : Type κ) : Type (ℓ ⊔ κ) where
  ok : A → Result E A
  err : E → Result E A

-- `if b { return err }`
abbrev pub refuse_if {ℓ} : {E : Type ℓ} → Bool → E → Result E (Unit {0})
refuse_if true e = err e
refuse_if false e = ok tt

-- A row that must be there: `sql.ErrNoRows` otherwise.
abbrev pub or_error {ℓ κ} : {E : Type ℓ} {A : Type κ} → Option A → E → Result E A
or_error none e = err e
or_error (some a) e = ok a

-- `if err != nil { return err }`, and the next call.
module _ {ℓ κ ι} {E : Type ℓ} {A : Type κ} {B : Type ι} where
  infixl 5 ◌>>=◌
  abbrev pub ◌>>=◌ : Result E A → (A → Result E B) → Result E B
  err stop >>= next = err stop
  ok value >>= next = next value

  -- What a chain that succeeds went through.
  pub >>=-eq-ok :
      (first : Result E A) (next : A → Result E B) {b : B}
      → (first >>= next) ≡ ok b
      → (a : A) × (first ≡ ok a) × (next a ≡ ok b)
  >>=-eq-ok (err stop) next h = cc
  >>=-eq-ok (ok value) next h = (value, refl, h)

  -- The same, for a proof about what the second step got.
  pub >>=-then {υ} :
      {P : Type υ} (first : Result E A) (next : A → Result E B) {b : B}
      → (first >>= next) ≡ ok b
      → ((a : A) → first ≡ ok a → next a ≡ ok b → P)
      → P
  >>=-then (err stop) next h k = absurd (cc)
  >>=-then (ok value) next h k = k value refl h

infixl 5 ◌>>◌
abbrev pub ◌>>◌ {ℓ κ} : {E : Type ℓ} {B : Type κ} → Result E (Unit {0}) → Result E B → Result E B
check >> rest = check >>= λ _. rest

pub ok-injective {ℓ κ} :
    {E : Type ℓ} {A : Type κ} {a b : A} → ◌≡◌ {A = Result E A} (ok a) (ok b) → a ≡ b
ok-injective h = cc

pub or_error-ok {ℓ κ} :
    {E : Type ℓ} {A : Type κ} (o : Option A) (e : E) {a : A} → or_error o e ≡ ok a → o ≡ some a
or_error-ok none e h = cc
or_error-ok (some b) e h = ap some (ok-injective h)
