-- ===== src/Credits/TypeRows.antt =====
-- internal/db/repo/credit_type.go: the inserts and updates of billing.credit_types, and what they
-- leave of each row.
use mathlib.Core.Option
use mathlib.Core.Option.{some-injective}
use openrails.Base.{
  ◌≡◌, refl, sym, ap, ◌∙◌, subst, inl, inr, Bool, true, false, not, ◌&&◌, ◌||◌, some, [], ◌∷◌, ◌==◌,
  if◌then◌else◌, ok, ok-injective, Bool-cases, All, All-imp, Pairwise, Pairwise-map, arith,
}
use openrails.Base.Sql.{find_where, exists_where, update_where}
use openrails.Rows.{find-test, find-All, find-update, exists-All, update-eq-map}
use openrails.Credits.Model.{Uuid, Text, CreditType}
use openrails.Credits.Types.{CreditTypes, has_id, has_name, insert_type, update_type}

-- Identifiers differ.
abbrev Apart : CreditType → CreditType → Type 0
Apart a b = has_id a.id b ≡ false

abbrev pub Distinct : CreditTypes → Type 0
Distinct t = Pairwise Apart t

-- Two rows of one credit type.
pub record SameKind (a b : CreditType) : Type 0 where
  pub id : b.id ≡ a.id
  pub name : b.name ≡ a.name
  pub unit : b.unit ≡ a.unit
  pub decimal_places : b.decimal_places ≡ a.decimal_places
  pub created_at : b.created_at ≡ a.created_at

-- Every row stays, as a row of the same type.
abbrev pub Keeps : CreditTypes → CreditTypes → Type 0
Keeps t t' =
    (id : Uuid) (ct : CreditType)
    → find_where (has_id id) t ≡ some ct
    → (ct' : CreditType) × (find_where (has_id id) t' ≡ some ct') × SameKind ct ct'

pub SameKind-refl : (a : CreditType) → SameKind a a
SameKind-refl a = record {
  id = refl;
  name = refl;
  unit = refl;
  decimal_places = refl;
  created_at = refl;
}

pub SameKind-changed :
    (a : CreditType) (display : Text) (is_on : Bool)
    → SameKind a (record a { display_name = display; is_active = is_on })
SameKind-changed a display is_on = record {
  id = refl;
  name = refl;
  unit = refl;
  decimal_places = refl;
  created_at = refl;
}

pub SameKind-trans : (a b c : CreditType) → SameKind a b → SameKind b c → SameKind a c
SameKind-trans a b c h k = record {
  id = k.id ∙ h.id;
  name = k.name ∙ h.name;
  unit = k.unit ∙ h.unit;
  decimal_places = k.decimal_places ∙ h.decimal_places;
  created_at = k.created_at ∙ h.created_at;
}

-- A row that a lookup found is the row with its identifier.
pub by_id :
    (p : CreditType → Bool) (t : CreditTypes) {ct : CreditType}
    → Distinct t
    → find_where p t ≡ some ct
    → find_where (has_id ct.id) t ≡ some ct
unfolding find_where
by_id p [] {ct} d h = cc
by_id p (r ∷ t) {ct} d h = elim (Bool-cases (p r)) [
  | inl here ↦
      let same = some-injective _ _ (rw here at h) in
      let itself : has_id ct.id r ≡ true = ground (arith, same) in rw itself (ap some same)
  | inr there ↦
      let found = rw there at h in
      let other : has_id r.id ct ≡ false = find-All (Apart r) p t d.0 found in
      let behind : has_id ct.id r ≡ false = ground (arith, other) in rw behind (by_id p t d.1 found)
]

pub insert_type-Keeps :
    (new : CreditType) (t t' : CreditTypes)
    → Distinct t
    → insert_type new t ≡ ok t'
    → Distinct t' × Keeps t t'
unfolding insert_type find_where
insert_type-Keeps new t t' d h =
    elim (Bool-cases (exists_where (λ other. has_id new.id other || has_name new.name other) t)) [
      | inl taken ↦ absurd (ground (arith, taken))
      | inr free ↦
          let none_same =
            exists-All (λ other. has_id new.id other || has_name new.name other) t free in
          let same : new ∷ t ≡ t' = ok-injective (rw free at h) in
          subst (λ x. Distinct x × Keeps t x) same
            (
              (
                All-imp (λ a. (has_id new.id a || has_name new.name a) ≡ false) (Apart new) t
                    (λ a e. ground (arith, e)) none_same,
                d,
              ),
              λ id ct found.
                  let apart =
                    find-All (λ a. (has_id new.id a || has_name new.name a) ≡ false) (has_id id) t
                      none_same found in
                  let mine = find-test (has_id id) {x = ct} t found in
                  let other : has_id id new ≡ false = ground (arith, apart, mine) in
                  (ct, rw other found, SameKind-refl ct),
            )
    ]

any_rows : (t : CreditTypes) → All (λ r. Unit {0}) t
any_rows [] = tt
any_rows (r ∷ t) = (tt, any_rows t)

-- A write over the row with an identifier.
module _ (new : CreditType) where
  abbrev written : CreditType → CreditType
  written r = if has_id new.id r then new else r

  written_id : (r : CreditType) → (written r).id ≡ r.id
  written_id r = elim (Bool-cases (has_id new.id r)) [
    | inl same ↦ ground (arith, same)
    | inr other ↦ rw other refl
  ]

  written-Distinct :
      (t : CreditTypes) → Distinct t → Distinct (update_where (has_id new.id) (λ r. new) t)
  written-Distinct t d = subst Distinct (sym (update-eq-map (has_id new.id) (λ r. new) t)) (
      Pairwise-map (λ r. Unit {0}) Apart Apart written
        (λ a b q r e. rw (written_id a, written_id b) e) t (any_rows t) d)

  written-Keeps :
      (old : CreditType) (t : CreditTypes)
      → find_where (has_id new.id) t ≡ some old
      → SameKind old new
      → Keeps t (update_where (has_id new.id) (λ r. new) t)
  written-Keeps old t found same id ct mine = (
    written ct,
    find-update (has_id id) (has_id new.id) (λ r. new) t (λ r. ap (λ x. x == id) (written_id r))
        ∙ ap (Option.map written) mine,
    elim (Bool-cases (has_id new.id ct)) [
      | inr other ↦ rw other (SameKind-refl ct)
      | inl it ↦
          let its_id = find-test (has_id id) {x = ct} t mine in
          let ids : id ≡ new.id = ground (arith, it, its_id) in
          let one =
            some-injective _ _
              (sym found ∙ subst (λ k. find_where (has_id k) t ≡ some ct) ids mine) in
          rw it (subst (λ r. SameKind r new) one same)
    ],
  )

-- The update of a row with a row of the same type.
pub update_type-Keeps :
    (new old : CreditType) (t t' : CreditTypes)
    → Distinct t
    → find_where (has_id new.id) t ≡ some old
    → SameKind old new
    → update_type new t ≡ ok t'
    → Distinct t' × Keeps t t'
unfolding update_type
update_type-Keeps new old t t' d found same h =
    elim (Bool-cases
      (exists_where (λ other. not (has_id new.id other) && has_name new.name other) t)) [
        | inl taken ↦ absurd (ground (arith, taken))
        | inr free ↦ elim (Bool-cases (exists_where (has_id new.id) t)) [
          | inr absent ↦ absurd (ground (arith, free, absent))
          | inl there ↦
              let result : update_where (has_id new.id) (λ r. new) t ≡ t' =
                ok-injective (rw (free, there) at h) in
              subst (λ x. Distinct x × Keeps t x) result
                (written-Distinct new t d, written-Keeps new old t found same)
        ]
      ]

-- `Activate` and `Deactivate`, which may have nothing to do.
pub toggle-Keeps :
    (already is_on : Bool) (ct : CreditType) (t t' : CreditTypes)
    → Distinct t
    → find_where (has_id ct.id) t ≡ some ct
    → (if already then ok t else update_type (record ct { is_active = is_on }) t) ≡ ok t'
    → Distinct t' × Keeps t t'
toggle-Keeps true is_on ct t t' d found h =
    subst (λ x. Distinct x × Keeps t x) (ok-injective h)
      (d, λ id r mine. (r, mine, SameKind-refl r))
toggle-Keeps false is_on ct t t' d found h =
    update_type-Keeps (record ct { is_active = is_on }) ct t t' d found
      (SameKind-changed ct ct.display_name is_on) h
