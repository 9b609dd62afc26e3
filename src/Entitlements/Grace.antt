-- ===== src/Entitlements/Grace.antt =====
-- internal/db/repo/entitlement_grace.go: the grace windows of a subscription.
use openrails.Base.{Bool, ◌&&◌, some, List, [], ◌∷◌, ltb, leb, is_some, Result, ok, ◌>>=◌}
use openrails.Base.Sql.{update_where, select_where}
use openrails.Entitlements.Model.{
  Time, Uuid, grace, Entitlement, Error, Table, Db, exec, is_live, ends_after,
}
use openrails.Entitlements.Timeline.{set_entitlement_end_at, delete_row}
use openrails.Entitlements.Repo.{from_origin}

-- `SoftDeleteGraceBySubscription`
unfoldable pub soft_delete_grace_by_subscription : Db → Uuid → Time → Table → Result Error Table
soft_delete_grace_by_subscription db id now t =
    exec db (update_where (λ e. from_origin grace id e && is_live e) (delete_row now) t)

-- The loop of `EndGraceNowBySubscription`, over the rows read before it.
unfoldable pub end_each : Db → Time → List Entitlement → Table → Result Error Table
end_each db now [] t = ok t
end_each db now (ent ∷ ents) t =
    set_entitlement_end_at db ent.id (some now) now t >>= λ t'. end_each db now ents t'

abbrev pub is_grace_running : Uuid → Time → Entitlement → Bool
is_grace_running id now e =
    from_origin grace id e
    && is_live e
    && ltb e.start_at now
    && is_some e.end_at
    && ends_after now e.end_at

unfoldable pub end_grace_now_by_subscription : Db → Uuid → Time → Table → Result Error Table
unfolding end_each
end_grace_now_by_subscription db id now t = do
  t' ← end_each db now (select_where (is_grace_running id now) t) t
  exec db (
      update_where (λ e. from_origin grace id e && is_live e && leb now e.start_at) (delete_row now)
        t')
