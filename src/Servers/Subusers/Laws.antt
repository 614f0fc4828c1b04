-- ===== src/Servers/Subusers/Laws.antt =====
-- The rows of `subusers` after any use of the routes of panel/src/api/routes/subusers.ts.
use mathlib.Core.Bool.{and-eq-true_iff}
use mathlib.Core.Path.{subst}
use troxe_host.Common.{
  ◌≤◌, Option, none, some, List, [], ◌∷◌, ◌++◌, Text, text_eq, text_eq_iff, ◌≡◌, refl, arith,
  Bool-cases, Option-cases, inl, inr, is_some,
}
use troxe_host.Db.{SubuserRow, UserRow, Permissions}
use troxe_host.Db.Table.{find_where, count_where}
use troxe_host.Db.Counting.{
  count_where-append, count_where-update_where, count_where-delete_where, none_found,
}
use troxe_host.Effects.{World, Env, gets, pure, throw, modify, fresh_id, ◌>>=◌}
use troxe_host.Workers.Steps.{find_server}
use troxe_host.Servers.Subusers.{
  GrantBody, stored, is_member, new_subuser, insert_subuser, add_found, add_route, is_subuser,
  update_route, remove_route,
}

-- No user has two rows for one server.
pub record IsSingle (w : World) : Type 0 where
  pub rows :
      (server_id user_id : Text) → count_where (is_member server_id user_id) w.db.subusers ≤ 1

-- a row is added for a user that has none for the server
member-append :
    (s : SubuserRow) (rows : List SubuserRow)
    → find_where (is_member s.server_id s.user_id) rows ≡ none
    → ((server_id user_id : Text) → count_where (is_member server_id user_id) rows ≤ 1)
    → (server_id user_id : Text) → count_where (is_member server_id user_id) (rows ++ s ∷ []) ≤ 1
member-append s rows new h server_id user_id = elim (Bool-cases (is_member server_id user_id s)) [
  | inl mine ↦
      let (server, user) = (and-eq-true_iff _ _).0 mine in
      let none_there : count_where (is_member s.server_id s.user_id) rows ≡ 0 =
        none_found (is_member s.server_id s.user_id) rows new in
      let of_server : count_where (is_member server_id s.user_id) rows ≡ 0 =
        subst (λ x. count_where (is_member x s.user_id) rows ≡ 0)
          ((text_eq_iff s.server_id server_id).0 server) none_there in
      let empty : count_where (is_member server_id user_id) rows ≡ 0 =
        subst (λ x. count_where (is_member server_id x) rows ≡ 0)
          ((text_eq_iff s.user_id user_id).0 user) of_server in
      rw (count_where-append (is_member server_id user_id) rows s, mine, empty) (omega arith)
  | inr other ↦
      rw (count_where-append (is_member server_id user_id) rows s, other)
        (omega (arith, h server_id user_id))
]

insert_subuser-IsSingle :
    (env : Env) (id user_id : Text) (permissions : Permissions) (w : World)
    → find_where (is_member id user_id) w.db.subusers ≡ none
    → IsSingle w
    → IsSingle (insert_subuser env id user_id permissions w).1
unfolding insert_subuser gets throw fresh_id modify pure ◌>>=◌
insert_subuser-IsSingle env id user_id permissions w new h =
    elim (Bool-cases (is_some (find_server id w.db))) [
      | inl there ↦ rw there (record {
        rows = member-append (new_subuser _ id user_id permissions) w.db.subusers new h.rows;
      })
      | inr gone ↦ rw gone h
    ]

-- the row is added for a user who has none, or the state stays as it is
pub add_found-cases :
    (P : World → Type 0) (env : Env) (id caller : Text) (permissions : Permissions) (w : World)
    (found : Option UserRow)
    → P w
    → ((user_id : Text)
        → find_where (is_member id user_id) w.db.subusers ≡ none
        → P (insert_subuser env id user_id permissions w).1)
    → P (add_found env id caller permissions w.db found w).1
unfolding add_found pure
add_found-cases P env id caller permissions w none h inserted = h
add_found-cases P env id caller permissions w (some u) h inserted =
    elim (Bool-cases (text_eq u.id caller)) [
      | inl self ↦ rw self h
      | inr other ↦ elim (Option-cases (find_where (is_member id u.id) w.db.subusers)) [
        | inl new ↦ rw (other, new) (inserted u.id new)
        | inr (s, there) ↦ rw (other, there) h
      ]
    ]

update_route-IsSingle :
    (subuser_id : Text) (permissions : Permissions) (w : World)
    → IsSingle w
    → IsSingle (update_route subuser_id permissions w).1
unfolding update_route modify pure ◌>>=◌
update_route-IsSingle subuser_id permissions w h = record {
  rows = λ server_id user_id. omega (
    arith,
    h.rows server_id user_id,
    count_where-update_where (is_member server_id user_id) (is_subuser subuser_id)
        (λ s. record s { permissions = permissions }) w.db.subusers (λ r hit. refl),
  );
}

remove_route-IsSingle :
    (subuser_id : Text) (w : World) → IsSingle w → IsSingle (remove_route subuser_id w).1
unfolding remove_route modify pure ◌>>=◌
remove_route-IsSingle subuser_id w h = record {
  rows = λ server_id user_id. omega (
    arith,
    h.rows server_id user_id,
    count_where-delete_where (is_member server_id user_id) (is_subuser subuser_id) w.db.subusers,
  );
}

-- What owners do to the subusers of all servers, in any order. The code stores the body of an update
-- as it is; a run is one whose updates have bodies that `Body` takes.
pub data Grants (env : Env) (Body : Permissions → Type 0) (start : World) : World → Type 0 where
  here : Grants env Body start start
  added :
      {w : World} (id caller email : Text) (body : GrantBody)
      → Grants env Body start w
      → Grants env Body start (add_route env id caller email body w).1
  changed :
      {w : World} (subuser_id : Text) (permissions : Permissions)
      → Body permissions
      → Grants env Body start w
      → Grants env Body start (update_route subuser_id permissions w).1
  removed :
      {w : World} (subuser_id : Text)
      → Grants env Body start w
      → Grants env Body start (remove_route subuser_id w).1

-- any body of an update
abbrev pub AnyBody : Permissions → Type 0
AnyBody permissions = Unit

-- Where no user has two rows for one server, none has after any run of the routes that add, update and
-- remove subusers, whatever their bodies, those that are refused or throw included.
pub Grants-IsSingle :
    {env : Env} {start w : World} → IsSingle start → Grants env AnyBody start w → IsSingle w
unfolding add_route gets ◌>>=◌
Grants-IsSingle h here = h
Grants-IsSingle h (added {w} id caller email body more) =
    let before = Grants-IsSingle h more in
    add_found-cases IsSingle _ id caller (stored body) w _ before
      (λ user_id new. insert_subuser-IsSingle _ id user_id (stored body) w new before)
Grants-IsSingle h (changed {w} subuser_id permissions any_body more) =
    update_route-IsSingle subuser_id permissions w (Grants-IsSingle h more)
Grants-IsSingle h (removed {w} subuser_id more) =
    remove_route-IsSingle subuser_id w (Grants-IsSingle h more)
