-- ===== src/Credits/Types.antt =====
-- internal/modules/credits/credit_type_service.go and internal/db/repo/credit_type.go: the kinds of
-- credits.
use openrails.Base.{
  ℕ, zero, suc, Bool, true, false, not, ◌&&◌, ◌||◌, Option, none, some, List, [], ◌∷◌, ◌==◌, leb,
  if◌then◌else◌, Result, ok, err, ◌>>=◌, ◌>>◌, refuse_if, or_error,
}
use openrails.Base.Int.{pos, ltb_ℤ}
use openrails.Base.Sql.{find_where, select_where, exists_where, update_where, order_by}
use openrails.Credits.Model.{Time, Uuid, Text, CreditType}

abbrev pub CreditTypes : Type 0
CreditTypes = List CreditType

pub data CreditTypeError : Type 0 where
  invalid_name display_name_required unit_required bad_decimal_places : CreditTypeError
  empty_display_name no_credit_type duplicate_key no_rows_affected : CreditTypeError

abbrev pub has_id : Uuid → CreditType → Bool
has_id id ct = ct.id == id

abbrev pub has_name : Text → CreditType → Bool
has_name name ct = ct.name == name

-- `Create` of the repository: the primary key and the unique name of billing.credit_types.
unfoldable pub insert_type : CreditType → CreditTypes → Result CreditTypeError CreditTypes
insert_type ct t =
    if exists_where (λ other. has_id ct.id other || has_name ct.name other) t
    then err duplicate_key
    else ok (ct ∷ t)

unfoldable pub get_type_by_id : Uuid → CreditTypes → Result CreditTypeError CreditType
get_type_by_id id t = or_error (find_where (has_id id) t) no_credit_type

unfoldable pub get_type_by_name : Text → CreditTypes → Result CreditTypeError CreditType
get_type_by_name name t = or_error (find_where (has_name name) t) no_credit_type

abbrev pub created_earlier : CreditType → CreditType → Bool
created_earlier a b = leb a.created_at b.created_at

-- `List`
unfoldable pub list_types : Bool → CreditTypes → CreditTypes
list_types active_only t =
    order_by created_earlier (if active_only then select_where (λ ct. ct.is_active) t else t)

-- `Update` of the repository writes every column of the row with the key.
unfoldable pub update_type : CreditType → CreditTypes → Result CreditTypeError CreditTypes
update_type ct t =
    if exists_where (λ other. not (has_id ct.id other) && has_name ct.name other) t
    then err duplicate_key
    else (if exists_where (has_id ct.id) t
        then ok (update_where (has_id ct.id) (λ old. ct) t)
        else err no_rows_affected)

-- `Activate` and `Deactivate` of the repository.
unfoldable pub set_type_active : Bool → Uuid → CreditTypes → Result CreditTypeError CreditTypes
set_type_active is_on id t = do
  ct ← get_type_by_id id t
  update_type (record ct { is_active = is_on }) t

-- `^[a-z][a-z0-9_]{0,62}$`
abbrev pub is_lower : ℕ → Bool
is_lower c = leb 97 c && leb c 122

abbrev pub is_name_char : ℕ → Bool
is_name_char c = is_lower c || (leb 48 c && leb c 57) || c == 95

-- At most `n` more characters.
unfoldable pub name_rest : ℕ → List ℕ → Bool
name_rest n [] = true
name_rest zero (c ∷ cs) = false
name_rest (suc n) (c ∷ cs) = is_name_char c && name_rest n cs

unfoldable pub matches_name : List ℕ → Bool
matches_name [] = false
matches_name (c ∷ cs) = is_lower c && name_rest 62 cs

abbrev pub id_or : Uuid → Uuid → Uuid
id_or id new_id = if id == 0 then new_id else id

abbrev pub time_or : Time → Time → Time
time_or t now = if t == 0 then now else t

-- `Create`: texts come trimmed, and `spell` gives the bytes of a text.
unfoldable pub create_type :
    (Text → List ℕ) → Uuid → Time → CreditType → CreditTypes → Result CreditTypeError CreditTypes
create_type spell new_id now ct t = do
  refuse_if (ct.name == 0 || not (matches_name (spell ct.name))) invalid_name
  refuse_if (ct.display_name == 0) display_name_required
  refuse_if (ct.unit == 0) unit_required
  refuse_if (ltb_ℤ ct.decimal_places (pos 0) || ltb_ℤ (pos 18) ct.decimal_places) bad_decimal_places
  insert_type
      (record ct {
        id = id_or ct.id new_id;
        created_at = time_or ct.created_at now;
        is_active = true;
      })
      t

pub record CreditTypeUpdateParams : Type 0 where
  pub display_name : Option Text
  pub is_active : Option Bool

abbrev pub new_display_name : Option Text → Text → Result CreditTypeError Text
new_display_name none old = ok old
new_display_name (some v) old = if v == 0 then err empty_display_name else ok v

abbrev pub flag_or : Option Bool → Bool → Bool
flag_or none old = old
flag_or (some b) old = b

-- `Update`
unfoldable pub update_credit_type :
    Text → CreditTypeUpdateParams → CreditTypes → Result CreditTypeError (CreditType × CreditTypes)
update_credit_type name p t = do
  ct ← get_type_by_name name t
  display_name ← new_display_name p.display_name ct.display_name
  let ct' = record ct { display_name = display_name; is_active = flag_or p.is_active ct.is_active }
  t' ← update_type ct' t
  ok (ct', t')

-- `Deactivate` and `Activate` do nothing to a type that is so already.
unfoldable pub deactivate : Text → CreditTypes → Result CreditTypeError CreditTypes
deactivate name t = get_type_by_name name t >>= λ ct.
    if not ct.is_active then ok t else update_type (record ct { is_active = false }) t

unfoldable pub activate : Text → CreditTypes → Result CreditTypeError CreditTypes
activate name t = get_type_by_name name t >>= λ ct.
    if ct.is_active then ok t else update_type (record ct { is_active = true }) t
