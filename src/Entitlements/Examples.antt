-- ===== src/Entitlements/Examples.antt =====
-- The theorems on the entitlement timeline, each at a concrete table.
use openrails.Base.{
  is_some, Bool, Pairwise, ◌≡◌, ◌≤◌, refl, none, some, [], ◌∷◌, true, false, not, ◌&&◌, ◌==◌, leb,
  arith, ok, All,
}
use openrails.Base.Int.{pos, ◌+ℤ◌}
use openrails.Base.Sql.{update_where, find_where, exists_where, count_where, member}
use openrails.Entitlements.Model.{
  Entitlement, subscription, grace, one_off, admin, by_admin, Table, Db, UserId, Name, Time,
  whole_seconds, add_seconds, has_key, is_live, ends_after, covers,
}
use openrails.Entitlements.Overlap.{IsTimeline, overlaps}
use openrails.Entitlements.Refused.{Disjoint, set_entitlement_end_at-refused}
use openrails.Entitlements.Timeline.{
  set_entitlement_end_at, revoke_entitlement_now, get_entitlement_by_id, change_end_at,
  lock_entitlement_timeline, settle_later, shift_entitlement_timeline, revoke_window,
}
use openrails.Entitlements.Service.{
  PushNewEntitlementParams, RevokeExistingEntitlementParams, push_new_entitlement,
  revoke_existing_entitlement, new_window, check_push, push_tx, append_window, start_of, tail_end,
  revoke_key,
}
use openrails.Entitlements.Repo.{
  end_active_by_payment, is_entitled, list_active_entitlements, end_active_by_subscription, to_end,
  from_origin, entitles,
}
use openrails.Entitlements.Grace.{soft_delete_grace_by_subscription}
use openrails.Entitlements.Settle.{
  set_entitlement_end_at-IsTimeline, revoke_entitlement_now-IsTimeline,
}
use openrails.Entitlements.Push.{push_new_entitlement-IsTimeline, push_new_entitlement-start}
use openrails.Entitlements.Access.{
  end_active_by_payment-finite, is_entitled-list_active_entitlements,
  revoke_existing_entitlement-is_entitled, end_active_by_subscription-covers,
  soft_delete_grace-sweeps,
}

-- A database that refuses nothing and shows every row.
abbrev db : Db
db = record { accepts = λ t. true; hides_deleted = false }

-- A window of user 1's entitlement 5, from subscription 9.
abbrev first_window : Entitlement
first_window = record {
  id = 11;
  user_id = 1;
  entitlement = 5;
  start_at = 1000000;
  end_at = some 5000000;
  source_id = some 9;
  source_type = subscription;
  revoked_at = none;
  revoke_reason = none;
  created_at = 1000000;
  updated_at = 1000000;
  deleted_at = none;
}

-- The window behind it, a one-off purchase.
abbrev second_window : Entitlement
second_window = record first_window {
  id = 12;
  start_at = 5000000;
  end_at = some 9000000;
  source_id = some 8;
  source_type = one_off;
}

abbrev table : Table
table = first_window ∷ second_window ∷ []

table-IsTimeline : IsTimeline table
table-IsTimeline = ((refl, (refl, tt)), (((refl, refl), tt), (tt, tt)))

row_read : get_entitlement_by_id db 11 table ≡ ok first_window
unfolding get_entitlement_by_id find_where
row_read = refl

-- Lengthening the first window by two seconds moves the second one.
abbrev longer : Table
longer =
    record first_window { end_at = some 7000000; updated_at = 2000000 }
    ∷ record second_window { start_at = 7000000; end_at = some 11000000; updated_at = 2000000 }
    ∷ []

lengthen : set_entitlement_end_at db 11 (some 7000000) 2000000 table ≡ ok longer
unfolding set_entitlement_end_at get_entitlement_by_id find_where change_end_at
    lock_entitlement_timeline settle_later shift_entitlement_timeline update_where whole_seconds
    add_seconds ◌+ℤ◌ member
lengthen = refl

set_entitlement_end_at-IsTimeline_example : IsTimeline longer
set_entitlement_end_at-IsTimeline_example =
    set_entitlement_end_at-IsTimeline db 11 (some 7000000) 2000000 table table-IsTimeline row_read
      (λ le. refl) lengthen

-- Revoking the first window at three seconds moves the second one up to it.
abbrev revoked : Table
revoked =
    record first_window {
      end_at = some 3000000;
      revoked_at = some 2000000;
      revoke_reason = some by_admin;
      updated_at = 2000000;
    }
    ∷ record second_window { start_at = 3000000; end_at = some 7000000; updated_at = 2000000 }
    ∷ []

revoke_first : revoke_entitlement_now db 11 3000000 (some by_admin) 2000000 table ≡ ok revoked
unfolding revoke_entitlement_now get_entitlement_by_id find_where revoke_window
    lock_entitlement_timeline settle_later shift_entitlement_timeline update_where whole_seconds
    add_seconds ◌+ℤ◌ member
revoke_first = refl

revoke_entitlement_now-IsTimeline_example : IsTimeline revoked
revoke_entitlement_now-IsTimeline_example =
    revoke_entitlement_now-IsTimeline db 11 3000000 (some by_admin) 2000000 table table-IsTimeline
      row_read (λ le. refl) revoke_first

-- Two more seconds of the entitlement, from an administrator.
abbrev two_seconds : PushNewEntitlementParams
two_seconds = record {
  user_id = 1;
  entitlement = 5;
  not_before = none;
  indefinite = false;
  duration = some (pos 2000000);
  end_at = none;
  source_type = admin;
  source_id = 7;
}

abbrev third_window : Entitlement
third_window = new_window two_seconds 13 2000000 9000000 (some 11000000)

push_third :
    push_new_entitlement db two_seconds 13 2000000 table
    ≡ ok (some third_window, third_window ∷ table)
unfolding push_new_entitlement check_push push_tx lock_entitlement_timeline exists_where
    append_window start_of tail_end
push_third = refl

push_new_entitlement-IsTimeline_example : IsTimeline (third_window ∷ table)
push_new_entitlement-IsTimeline_example =
    push_new_entitlement-IsTimeline db two_seconds 13 2000000 table table-IsTimeline
      (refl, (refl, tt)) push_third

push_new_entitlement-start_example :
    (third_window ∷ table ≡ third_window ∷ table)
    × (2000000 ≤ third_window.start_at)
    × Unit {0}
    × All (λ e. (has_key 1 5 e && is_live e && ends_after 9000000 e.end_at) ≡ false) table
push_new_entitlement-start_example =
    push_new_entitlement-start db two_seconds 13 2000000 table push_third

-- An administrator takes the entitlement away.
abbrev take_away : RevokeExistingEntitlementParams
take_away = record {
  entitlement_id = none;
  user_id = 1;
  entitlement = 5;
  source_type = none;
  source_id = none;
  reason = by_admin;
}

abbrev taken_away : Table
taken_away =
    record first_window {
      revoked_at = some 2000000;
      revoke_reason = some by_admin;
      updated_at = 2000000;
    }
    ∷ record second_window { deleted_at = some 2000000; updated_at = 2000000 }
    ∷ []

revoke_all : revoke_existing_entitlement db take_away 2000000 table ≡ ok taken_away
unfolding revoke_existing_entitlement revoke_key lock_entitlement_timeline update_where
revoke_all = refl

revoke_existing_entitlement-is_entitled_example : is_entitled 1 5 6000000 taken_away ≡ false
revoke_existing_entitlement-is_entitled_example =
    revoke_existing_entitlement-is_entitled db take_away 2000000 table 6000000 refl refl refl
      (omega arith) revoke_all

is_entitled-list_active_entitlements_example :
    is_entitled 1 5 2000000 table ≡ member ◌==◌ 5 (list_active_entitlements 1 2000000 table)
is_entitled-list_active_entitlements_example =
    is_entitled-list_active_entitlements 1 5 2000000 table

-- The subscription ends after three seconds.
abbrev cancelled : Table
cancelled = record first_window { end_at = some 3000000; updated_at = 2000000 } ∷ second_window ∷ []

cancel : end_active_by_subscription db 9 3000000 2000000 none table ≡ ok cancelled
unfolding end_active_by_subscription count_where update_where
cancel = refl

end_active_by_subscription-covers_example :
    (count_where (λ e. to_end 9 3000000 e && leb 3000000 e.start_at) table ≡ 0)
    × (exists_where (λ e. from_origin subscription 9 e && is_live e && covers 4000000 e) cancelled
        ≡ false)
end_active_by_subscription-covers_example =
    end_active_by_subscription-covers db 9 3000000 2000000 4000000 none table (omega arith) cancel

-- A grace window behind the two others.
abbrev grace_window : Entitlement
grace_window = record second_window {
  id = 14;
  start_at = 9000000;
  end_at = some 12000000;
  source_id = some 9;
  source_type = grace;
}

abbrev swept : Table
swept =
    first_window
    ∷ second_window
    ∷ record grace_window { deleted_at = some 2000000; updated_at = 2000000 }
    ∷ []

sweep :
    soft_delete_grace_by_subscription db 9 2000000
      (first_window ∷ second_window ∷ grace_window ∷ [])
    ≡ ok swept
unfolding soft_delete_grace_by_subscription update_where
sweep = refl

soft_delete_grace-sweeps_example :
    (exists_where (λ e. from_origin grace 9 e && is_live e) swept ≡ false)
    × ((u : UserId) (n : Name) (at : Time)
        → exists_where (λ e. entitles u n at e && not (from_origin grace 9 e)) swept
          ≡ exists_where
              (λ e. entitles u n at e && not (from_origin grace 9 e))
              (first_window ∷ second_window ∷ grace_window ∷ []))
soft_delete_grace-sweeps_example =
    soft_delete_grace-sweeps db 9 2000000 (first_window ∷ second_window ∷ grace_window ∷ []) sweep

-- A database with the exclusion constraint.
unfoldable disjoint_from : Entitlement → Table → Bool
disjoint_from e [] = true
disjoint_from e (x ∷ t) = not (overlaps e x) && disjoint_from e t

unfoldable no_overlap : Table → Bool
no_overlap [] = true
no_overlap (e ∷ t) = disjoint_from e t && no_overlap t

no_overlap-Disjoint : (t : Table) → no_overlap t ≡ true → Pairwise Disjoint t
unfolding no_overlap disjoint_from
no_overlap-Disjoint [] h = tt
no_overlap-Disjoint (e ∷ t) h = (apart t (ground arith), no_overlap-Disjoint t (ground arith))
  where
    apart : (r : Table) → disjoint_from e r ≡ true → All (Disjoint e) r
    apart [] k = tt
    apart (x ∷ r) k = (ground arith, apart r (ground arith))

abbrev strict : Db
strict = record { accepts = no_overlap; hides_deleted = true }

strict_read : get_entitlement_by_id strict 11 table ≡ ok first_window
unfolding get_entitlement_by_id find_where
strict_read = refl

second_found : find_where (λ e. e.id == 12) table ≡ some second_window
unfolding find_where
second_found = refl

set_entitlement_end_at-refused_example :
    ¬ (set_entitlement_end_at strict 11 (some 7000000) 2000000 table ≡ ok longer)
set_entitlement_end_at-refused_example =
    set_entitlement_end_at-refused strict 11 2000000 5000000 7000000 table first_window
      second_window {t' = longer} no_overlap-Disjoint table-IsTimeline strict_read refl refl
      second_found refl refl refl (omega arith) (omega arith)

-- The purchase behind the second window is ended: that window has an end and stays as it is.
end_purchase : end_active_by_payment db 8 6000000 2000000 (some by_admin) table ≡ ok table
unfolding end_active_by_payment count_where update_where
end_purchase = refl

end_active_by_payment-finite_example :
    exists_where (λ e. from_origin one_off 8 e && is_some e.end_at && entitles 1 5 8000000 e) table
    ≡ exists_where
        (λ e. from_origin one_off 8 e && is_some e.end_at && entitles 1 5 8000000 e)
        table
end_active_by_payment-finite_example =
    end_active_by_payment-finite db 8 6000000 2000000 (some by_admin) table 1 5 8000000 end_purchase
