-- ===== src/Servers/Subusers/Granting.antt =====
-- What the rows that the routes of panel/src/api/routes/subusers.ts store grant to the guards of
-- panel/src/api/middleware/rbac.ts.
use troxe_host.Common.{
  ℕ, Bool, true, false, Option, none, some, List, [], ◌∷◌, Text, codes, text_eq_refl, ◌≡◌, refl,
  ◌∙◌, arith, Bool-cases, Option-cases, inl, inr, All, All-append, is_some,
}
use troxe_host.Js.{includes}
use troxe_host.Db.{SubuserRow, Permissions}
use troxe_host.Db.Counting.{
  All-find_where, All-update_where, All-delete_where, find_where-update_each,
}
use troxe_host.Effects.{World, Env, gets, pure, throw, modify, fresh_id, ◌>>=◌}
use troxe_host.Workers.Steps.{find_server}
use troxe_host.Auth.Rbac.{TroxeUser, owns, granted, subuser_row, server_guards}
use troxe_host.Auth.Rbac.Laws.{
  IsGrouped, granted-IsGrouped, server_guards_iff, is_passed, subuser_grant,
}
use troxe_host.Servers.Subusers.{
  GrantBody, with_group, stored, is_member, insert_subuser, add_route, is_subuser, update_route,
  remove_route,
}
use troxe_host.Servers.Subusers.Laws.{Grants, here, added, changed, removed, add_found-cases}

-- No row's document grants a permission as `requirePermission` reads it.
pub record IsWithheld (permission : Text) (w : World) : Type 0 where
  pub rows : All (λ (s : SubuserRow). granted permission s.permissions ≡ false) w.db.subusers

-- a body of an update that does not itself have the permission as a key that is true
abbrev pub BodyWithout : Text → Permissions → Type 0
BodyWithout permission permissions = granted permission permissions ≡ false

with_group-IsGrouped :
    (name : Text) (flags : Option (List (Text × Bool))) (rest : Permissions)
    → includes b'.' name ≡ false
    → IsGrouped rest
    → IsGrouped (with_group name flags rest)
with_group-IsGrouped name none rest bare h = h
with_group-IsGrouped name (some flags) rest bare h = (bare, h)

-- the column that the add route stores, whatever its body
stored-IsGrouped : (body : GrantBody) → IsGrouped (stored body)
unfolding stored includes
stored-IsGrouped g = with_group-IsGrouped (codes "control") g.control _ refl (
    with_group-IsGrouped (codes "file") g.file _ refl (
      with_group-IsGrouped (codes "backup") g.backup _ refl (
        with_group-IsGrouped (codes "database") g.database _ refl (
          with_group-IsGrouped (codes "schedule") g.schedule _ refl
            (with_group-IsGrouped (codes "websocket") g.websocket _ refl tt)))))

insert_subuser-IsWithheld :
    (permission : Text) (env : Env) (id user_id : Text) (permissions : Permissions) (w : World)
    → granted permission permissions ≡ false
    → IsWithheld permission w
    → IsWithheld permission (insert_subuser env id user_id permissions w).1
unfolding insert_subuser gets throw fresh_id modify pure ◌>>=◌
insert_subuser-IsWithheld permission env id user_id permissions w none_granted h =
    elim (Bool-cases (is_some (find_server id w.db))) [
      | inl there ↦
          rw there (record { rows = All-append _ w.db.subusers _ h.rows (none_granted, tt) })
      | inr gone ↦ rw gone h
    ]

update_route-IsWithheld :
    (permission subuser_id : Text) (permissions : Permissions) (w : World)
    → granted permission permissions ≡ false
    → IsWithheld permission w
    → IsWithheld permission (update_route subuser_id permissions w).1
unfolding update_route modify pure ◌>>=◌
update_route-IsWithheld permission subuser_id permissions w none_granted h = record {
  rows =
      All-update_where _ _ (is_subuser subuser_id) _ w.db.subusers (λ r hit k. none_granted)
        (λ r miss k. k) h.rows;
}

remove_route-IsWithheld :
    (permission subuser_id : Text) (w : World)
    → IsWithheld permission w
    → IsWithheld permission (remove_route subuser_id w).1
unfolding remove_route modify pure ◌>>=◌
remove_route-IsWithheld permission subuser_id w h = record {
  rows = All-delete_where _ (is_subuser subuser_id) w.db.subusers h.rows;
}

Grants-IsWithheld :
    (permission : Text) {env : Env} {start w : World}
    → includes b'.' permission ≡ true
    → IsWithheld permission start
    → Grants env (BodyWithout permission) start w
    → IsWithheld permission w
unfolding add_route gets ◌>>=◌
Grants-IsWithheld permission dotted h here = h
Grants-IsWithheld permission dotted h (added {w} id caller email body more) =
    let before = Grants-IsWithheld permission dotted h more in
    add_found-cases (IsWithheld permission) _ id caller (stored body) w _ before (λ user_id new.
      insert_subuser-IsWithheld permission _ id user_id (stored body) w
        (granted-IsGrouped permission (stored body) dotted (stored-IsGrouped body)) before)
Grants-IsWithheld permission dotted h (changed {w} subuser_id permissions without more) =
    update_route-IsWithheld permission subuser_id permissions w without
      (Grants-IsWithheld permission dotted h more)
Grants-IsWithheld permission dotted h (removed {w} subuser_id more) =
    remove_route-IsWithheld permission subuser_id w (Grants-IsWithheld permission dotted h more)

granted_none :
    (permission server_id : Text) (u : TroxeUser) (w : World)
    → IsWithheld permission w
    → subuser_grant permission server_id u w.db ≡ false
unfolding subuser_row
granted_none permission server_id u w h =
    elim (Option-cases (subuser_row u.user_id server_id w.db)) [
      | inl missing ↦ ground (arith, missing)
      | inr (row, found) ↦ ground (arith, found, All-find_where _ _ w.db.subusers found h.rows)
    ]

-- After any run of the routes of subusers, a user who is no root administrator and whose session
-- grants nothing passes the guards of no route that wants a permission with a dot in its name, on any
-- server, whatever groups the owners have granted. Two conditions: no row of the start has the
-- permission itself as a key that is true, and no body of an update has it, which the code does not
-- check.
pub Grants-refused :
    {env : Env} {start w : World} (permission : Text) (c : ℕ) (server_id : Text) (u : TroxeUser)
    → IsWithheld permission start
    → Grants env (BodyWithout permission) start w
    → u.root_admin ≡ false
    → u.permissions ≡ []
    → includes b'.' permission ≡ true
    → is_passed (server_guards permission (c ∷ server_id) u w.db) ≡ false
Grants-refused {w = w} permission c server_id u h more plain bare dotted =
    server_guards_iff permission c server_id u w.db plain bare
    ∙ granted_none permission (c ∷ server_id) u w (Grants-IsWithheld permission dotted h more)

owns-update_route :
    (user_id server_id subuser_id : Text) (permissions : Permissions) (w : World)
    → owns user_id server_id (update_route subuser_id permissions w).1.db
      ≡ owns user_id server_id w.db
unfolding owns update_route modify pure ◌>>=◌
owns-update_route user_id server_id subuser_id permissions w = refl

subuser_row-update_route :
    (user_id server_id : Text) (permissions : Permissions) (w : World) {row : SubuserRow}
    → subuser_row user_id server_id w.db ≡ some row
    → subuser_row user_id server_id (update_route row.id permissions w).1.db
      ≡ some (record row { permissions = permissions })
unfolding subuser_row update_route modify pure ◌>>=◌
subuser_row-update_route user_id server_id permissions w {row} found =
    find_where-update_each (is_member server_id user_id) (is_subuser row.id) _ w.db.subusers
      (λ r. refl)
    ∙ rw (found, text_eq_refl row.id) refl

-- After an update of the row of a subuser, with any body, this user (no root administrator, not the
-- owner, and with a session that grants nothing) passes the guards of a route on the server exactly
-- when the body itself has the wanted permission as a key that is true.
pub update_route-passed :
    (permission : Text) (c : ℕ) (server_id : Text) (u : TroxeUser) (permissions : Permissions)
    (w : World) {row : SubuserRow}
    → subuser_row u.user_id (c ∷ server_id) w.db ≡ some row
    → owns u.user_id (c ∷ server_id) w.db ≡ false
    → u.root_admin ≡ false
    → u.permissions ≡ []
    → is_passed
        (server_guards permission (c ∷ server_id) u (update_route row.id permissions w).1.db)
      ≡ granted permission permissions
update_route-passed permission c server_id u permissions w {row} found other plain bare =
    server_guards_iff permission c server_id u (update_route row.id permissions w).1.db plain bare
    ∙ rw
        (
          owns-update_route u.user_id (c ∷ server_id) row.id permissions w,
          other,
          subuser_row-update_route u.user_id (c ∷ server_id) permissions w found,
        )
        refl
