-- ===== src/Credits/Fixed.antt =====
-- internal/modules/credits/credit_type_service.go: what no call changes about a credit type.
use openrails.Base.{
  ◌≡◌, refl, ap, ◌∙◌, ℕ, Bool, true, false, not, ◌||◌, some, List, [], ◌∷◌, ◌==◌, Result, ok, err,
  ◌>>=◌, >>=-then, refuse_if, or_error-ok, ok-injective,
}
use openrails.Base.Int.{pos, ltb_ℤ}
use openrails.Base.Sql.{find_where}
use openrails.Credits.Model.{Time, Uuid, Text, CreditType}
use openrails.Credits.Types.{
  CreditTypes, CreditTypeError, has_id, get_type_by_id, get_type_by_name, update_type,
  set_type_active, create_type, CreditTypeUpdateParams, update_credit_type, deactivate, activate,
  new_display_name, flag_or, matches_name, invalid_name, display_name_required, unit_required,
  bad_decimal_places,
}
use openrails.Credits.TypeRows.{
  Distinct, SameKind, Keeps, by_id, insert_type-Keeps, update_type-Keeps, toggle-Keeps,
  SameKind-refl, SameKind-changed, SameKind-trans,
}

-- A call of the service or the repository, with what `uuid.New` and the clock give to a creation.
pub data TypeCall : Type 0 where
  create_call : Uuid → Time → CreditType → TypeCall
  update_call : Text → CreditTypeUpdateParams → TypeCall
  activate_call deactivate_call : Text → TypeCall
  set_active_call : Bool → Uuid → TypeCall

module _ (spell : Text → List ℕ) where
  abbrev pub call_types : TypeCall → CreditTypes → Result CreditTypeError CreditTypes
  call_types (create_call new_id now ct) t = create_type spell new_id now ct t
  call_types (update_call name p) t = update_credit_type name p t >>= λ (ct, t'). ok t'
  call_types (activate_call name) t = activate name t
  call_types (deactivate_call name) t = deactivate name t
  call_types (set_active_call is_on id) t = set_type_active is_on id t

  -- A call that fails leaves the table.
  abbrev pub or_same : CreditTypes → Result CreditTypeError CreditTypes → CreditTypes
  or_same t (ok t') = t'
  or_same t (err e) = t

  unfoldable pub call_each : List TypeCall → CreditTypes → CreditTypes
  call_each [] t = t
  call_each (c ∷ calls) t = call_each calls (or_same t (call_types c t))

  call-Keeps :
      (c : TypeCall) (t t' : CreditTypes)
      → Distinct t
      → call_types c t ≡ ok t'
      → Distinct t' × Keeps t t'
  unfolding create_type update_credit_type activate deactivate set_type_active get_type_by_name
      get_type_by_id
  call-Keeps (create_call new_id now ct) t t' d h =
      >>=-then (refuse_if (ct.name == 0 || not (matches_name (spell ct.name))) invalid_name) _ h
        λ a₁ e₁ h₁.
          >>=-then (refuse_if (ct.display_name == 0) display_name_required) _ h₁ λ a₂ e₂ h₂.
            >>=-then (refuse_if (ct.unit == 0) unit_required) _ h₂ λ a₃ e₃ h₃.
              >>=-then
                (refuse_if (ltb_ℤ ct.decimal_places (pos 0) || ltb_ℤ (pos 18) ct.decimal_places)
                  bad_decimal_places)
                _ h₃ λ a₄ e₄ h₄. insert_type-Keeps _ t t' d h₄
  call-Keeps (update_call name p) t t' d h =
      >>=-then (update_credit_type name p t) _ h λ (new, t₁) changed same.
        >>=-then (get_type_by_name name t) _ changed λ ct found h₁.
          >>=-then (new_display_name p.display_name ct.display_name) _ h₁ λ display e h₂.
            let new' = record ct {
              display_name = display;
              is_active = flag_or p.is_active ct.is_active;
            } in
            >>=-then (update_type new' t) _ h₂ λ t₂ e₂ h₃.
              let one : t₂ ≡ t' = ap (λ x. x.1) (ok-injective h₃) ∙ ok-injective same in
              update_type-Keeps new' ct t t' d (by_id _ t d (or_error-ok _ _ found))
                (SameKind-changed ct display (flag_or p.is_active ct.is_active)) (e₂ ∙ ap ok one)
  call-Keeps (activate_call name) t t' d h = >>=-then (get_type_by_name name t) _ h λ ct found h₁.
      toggle-Keeps ct.is_active true ct t t' d (by_id _ t d (or_error-ok _ _ found)) h₁
  call-Keeps (deactivate_call name) t t' d h = >>=-then (get_type_by_name name t) _ h λ ct found h₁.
      toggle-Keeps (not ct.is_active) false ct t t' d (by_id _ t d (or_error-ok _ _ found)) h₁
  call-Keeps (set_active_call is_on id) t t' d h = >>=-then (get_type_by_id id t) _ h λ ct found h₁.
      update_type-Keeps (record ct { is_active = is_on }) ct t t' d
        (by_id _ t d (or_error-ok _ _ found)) (SameKind-changed ct ct.display_name is_on) h₁

  or_same-Keeps :
      (t : CreditTypes) (r : Result CreditTypeError CreditTypes)
      → Distinct t
      → ((t' : CreditTypes) → r ≡ ok t' → Distinct t' × Keeps t t')
      → Distinct (or_same t r) × Keeps t (or_same t r)
  or_same-Keeps t (ok t') d h = h t' refl
  or_same-Keeps t (err e) d h = (d, λ id r mine. (r, mine, SameKind-refl r))

  -- A credit type keeps its meaning. If the identifiers in the table differ, then after any calls
  -- that create, update, activate or deactivate credit types, of which some may fail, every credit
  -- type that was there is still there, with the same name, unit, number of decimal places and time
  -- of creation.
  pub call_each-SameKind :
      (calls : List TypeCall) (t : CreditTypes) (id : Uuid) (ct : CreditType)
      → Distinct t
      → find_where (has_id id) t ≡ some ct
      → (ct' : CreditType) × (find_where (has_id id) (call_each calls t) ≡ some ct')
        × SameKind ct ct'
  unfolding call_each
  call_each-SameKind [] t id ct d found = (ct, found, SameKind-refl ct)
  call_each-SameKind (c ∷ calls) t id ct d found =
      let (d', keeps) = or_same-Keeps t (call_types c t) d (λ t' h. call-Keeps c t t' d h) in
      let (ct', found', same) = keeps id ct found in
      let (ct'', found'', same') =
        call_each-SameKind calls (or_same t (call_types c t)) id ct' d' found' in
      (ct'', found'', SameKind-trans ct ct' ct'' same same')
