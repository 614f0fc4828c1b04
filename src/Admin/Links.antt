-- ===== src/Admin/Links.antt =====
-- What a server refers to is there: its node, its egg and its owner.

use mathlib.Core.Bool.{and-eq-true_iff}
use troxe_host.Common.{
  ℕ, Bool, true, false, List, [], ◌∷◌, Text, text_eq, text_eq_iff, ◌≡◌, refl, arith, Bool-cases,
  Option-cases, inl, inr, All, All-append, is_some, any, ltb,
}
use troxe_host.Db.{Db, ServerRow, NodeRow, EggRow, UserRow}
use troxe_host.Db.Table.{
  find_where, update_where, delete_where, count_where, find_where-delete_where_ne,
}
use troxe_host.Db.Counting.{All-map, All-both, none_counted}
use troxe_host.Effects.{World, Env, gets, pure, throw, modify, fresh_id, ◌>>=◌}
use troxe_host.Effects.Keeps.{Keeps, Keeps-bind, Keeps-pure}
use troxe_host.Workers.Steps.{find_node, find_egg, log_event}
use troxe_host.Workers.Queue.Adding.{add_job-Keeps}
use troxe_host.Account.{is_user}
use troxe_host.Servers.{claim, add_resources}
use troxe_host.Servers.Create.{
  CreateBody, new_server, placeable, reserve, insert_server, create_chosen, create_with,
  create_route, choose_allocation,
}
use troxe_host.Admin.Places.{
  is_node, on_node, drop_node, delete_node, delete_node_row, node_is_referenced,
}
use troxe_host.Admin.Catalog.{is_egg, delete_egg}
use troxe_host.Admin.Users.{drop_user, delete_user, delete_user_row}

abbrev pub IsHoused : Db → ServerRow → Type 0
IsHoused db s =
    (is_some (find_where (is_node s.node_id) db.nodes) ≡ true)
    × (is_some (find_where (is_egg s.egg_id) db.eggs) ≡ true)
    × (is_some (find_where (is_user s.owner_id) db.users) ≡ true)

abbrev pub IsLinked : World → Type 0
IsLinked w = All (IsHoused w.db) w.db.servers

-- two ids that differ are not both a row's
apart : (a b c : Text) → text_eq c a ≡ false → text_eq b a ≡ true → text_eq b c ≡ false
apart a b c differ same = elim (Bool-cases (text_eq b c)) [
  | inl also ↦ cc (differ, (text_eq_iff b c).0 also)
  | inr other ↦ other
]

found-delete_where :
    {A : Type 0} (key : A → Text) (id other : Text) (rows : List A)
    → text_eq other id ≡ false
    → is_some (find_where (λ r. text_eq (key r) other) rows) ≡ true
    → is_some
        (find_where (λ r. text_eq (key r) other) (delete_where (λ r. text_eq (key r) id) rows))
      ≡ true
found-delete_where key id other rows differ h =
    rw
      (find_where-delete_where_ne (λ r. text_eq (key r) other) (λ r. text_eq (key r) id) rows
        (λ r same. apart id (key r) other differ same))
      h

found-update_where :
    {A : Type 0} (p q : A → Bool) (f : A → A) (rows : List A)
    → ((r : A) → p (f r) ≡ p r)
    → is_some (find_where p rows) ≡ true
    → is_some (find_where p (update_where q f rows)) ≡ true
unfolding find_where update_where
found-update_where p q f [] keep h = h
found-update_where p q f (r ∷ rows) keep h = elim (Bool-cases (p r)) [
  | inl hit ↦ elim (Bool-cases (q r)) [
    | inl changed ↦ rw (changed, keep r, hit) refl
    | inr same ↦ rw (same, hit) refl
  ]
  | inr miss ↦ elim (Bool-cases (q r)) [
    | inl changed ↦ rw (changed, keep r, miss) (found-update_where p q f rows keep (rw miss at h))
    | inr same ↦ rw (same, miss) (found-update_where p q f rows keep (rw miss at h))
  ]
]

-- a count that is not above 0 counts no row
each_free :
    {A : Type 0} (p : A → Bool) (rows : List A)
    → ltb 0 (count_where p rows) ≡ false
    → All (λ r. p r ≡ false) rows
each_free p rows h = none_counted p rows (ground (arith, h))

any_free :
    {A : Type 0} (p : A → Bool) (rows : List A) → any p rows ≡ false → All (λ r. p r ≡ false) rows
any_free p [] h = tt
any_free p (r ∷ rows) h = elim (Bool-cases (p r)) [
  | inl hit ↦ cc (rw hit at h)
  | inr miss ↦ (miss, any_free p rows (rw miss at h))
]

drop_node-IsLinked :
    (id : Text) (w : World)
    → ltb 0 (count_where (on_node id) w.db.servers) ≡ false
    → IsLinked w
    → IsLinked (record w { db = drop_node id w.db })
unfolding drop_node
drop_node-IsLinked id w unused h =
    All-both (λ (s : ServerRow). on_node id s ≡ false) (IsHoused w.db)
      (IsHoused (drop_node id w.db)) w.db.servers
      (λ s free (node, egg, user).
        (found-delete_where (λ (n : NodeRow). n.id) id s.node_id w.db.nodes free node, egg, user))
      (each_free (on_node id) w.db.servers unused) h

drop_egg-IsLinked :
    (id : Text) (w : World)
    → ltb 0 (count_where (λ (s : ServerRow). text_eq s.egg_id id) w.db.servers) ≡ false
    → IsLinked w
    → IsLinked (record w { db = record w.db { eggs = delete_where (is_egg id) w.db.eggs } })
drop_egg-IsLinked id w unused h =
    All-both (λ (s : ServerRow). text_eq s.egg_id id ≡ false) (IsHoused w.db) _ w.db.servers
      (λ s free (node, egg, user).
        (node, found-delete_where (λ (e : EggRow). e.id) id s.egg_id w.db.eggs free egg, user))
      (each_free (λ s. text_eq s.egg_id id) w.db.servers unused) h

drop_user-IsLinked :
    (id : Text) (w : World)
    → any (λ (s : ServerRow). text_eq s.owner_id id) w.db.servers ≡ false
    → IsLinked w
    → IsLinked (record w { db = drop_user id w.db })
unfolding drop_user
drop_user-IsLinked id w unused h =
    All-both (λ (s : ServerRow). text_eq s.owner_id id ≡ false) (IsHoused w.db)
      (IsHoused (drop_user id w.db)) w.db.servers
      (λ s free (node, egg, user).
        (node, egg, found-delete_where (λ (u : UserRow). u.id) id s.owner_id w.db.users free user))
      (any_free (λ s. text_eq s.owner_id id) w.db.servers unused) h

delete_node-IsLinked :
    (env : Env) (id : Text) (w : World) → IsLinked w → IsLinked (delete_node env id w).1
unfolding delete_node delete_node_row gets pure throw modify ◌>>=◌
delete_node-IsLinked env id w h =
    elim (Bool-cases (ltb 0 (count_where (on_node id) w.db.servers))) [
      | inl used ↦ rw used h
      | inr unused ↦ elim (Bool-cases (node_is_referenced id w.db)) [
        | inl held ↦ rw (unused, held) h
        | inr loose ↦ rw (unused, loose) (drop_node-IsLinked id w unused h)
      ]
    ]

delete_egg-IsLinked : (id : Text) (w : World) → IsLinked w → IsLinked (delete_egg id w).1
unfolding delete_egg gets pure modify ◌>>=◌
delete_egg-IsLinked id w h =
    elim (Bool-cases (ltb 0 (count_where (λ (s : ServerRow). text_eq s.egg_id id) w.db.servers))) [
      | inl used ↦ rw used h
      | inr unused ↦ rw unused (drop_egg-IsLinked id w unused h)
    ]

delete_user-IsLinked :
    (env : Env) (caller id : Text) (w : World)
    → IsLinked w
    → IsLinked (delete_user env caller id w).1
unfolding delete_user delete_user_row gets pure throw modify ◌>>=◌
delete_user-IsLinked env caller id w h = elim (Bool-cases (text_eq id caller)) [
  | inl self ↦ rw self h
  | inr other ↦ elim (Bool-cases (any (λ (s : ServerRow). text_eq s.owner_id id) w.db.servers)) [
    | inl owns ↦ rw (other, owns) h
    | inr unused ↦ rw (other, unused) (drop_user-IsLinked id w unused h)
  ]
]

reserve-IsLinked :
    (s : ServerRow) (a : Text) (now : ℕ) (w : World)
    → placeable s w.db ≡ true
    → is_some (find_egg s.egg_id w.db) ≡ true
    → IsLinked w
    → IsLinked (record w { db = reserve s a now w.db })
unfolding reserve claim add_resources placeable find_node find_egg
reserve-IsLinked s a now w possible egg h =
    let (node, user) = (and-eq-true_iff _ _).0 possible in
    let after = reserve s a now w.db in
    All-append (IsHoused after) w.db.servers (s ∷ [])
      (All-map (IsHoused w.db) (IsHoused after) w.db.servers
        (λ r (n, e, u). (
          found-update_where (is_node r.node_id) (λ n. text_eq n.id s.node_id) _ w.db.nodes
              (λ n. refl) n,
          e,
          u,
        ))
        h)
      (
        (
          found-update_where (is_node s.node_id) (λ n. text_eq n.id s.node_id) _ w.db.nodes
              (λ n. refl) node,
          egg,
          user,
        ),
        tt,
      )

log_event-Keeps : (event subject id : Text) → Keeps IsLinked (log_event event subject id)
unfolding log_event modify
log_event-Keeps event subject id = record { at = λ w h. h }

insert_server-IsLinked :
    (env : Env) (s : ServerRow) (a : Text) (w : World)
    → is_some (find_egg s.egg_id w.db) ≡ true
    → IsLinked w
    → IsLinked (insert_server env s a w).1
unfolding insert_server gets throw modify ◌>>=◌
insert_server-IsLinked env s a w egg h = elim (Bool-cases (placeable s w.db)) [
  | inl possible ↦ rw possible (
      (Keeps-bind _ _ (add_job-Keeps env _ _ _ (λ w jobs queue next h. h))
          (λ _. Keeps-bind _ _ (log_event-Keeps _ _ _) (λ _. Keeps-pure _))).at
        _ (reserve-IsLinked s a w.clock w possible egg h))
  | inr refused ↦ rw refused h
]

create_route-IsLinked :
    (env : Env) (draw : ℕ) (owner : Text) (body : CreateBody) (w : World)
    → IsLinked w
    → IsLinked (create_route env draw owner body w).1
unfolding create_route create_with create_chosen gets pure fresh_id ◌>>=◌
create_route-IsLinked env draw owner body w h = elim (Option-cases (find_egg body.egg_id w.db)) [
  | inl missing ↦ rw missing h
  | inr (egg, found) ↦ elim (Option-cases (choose_allocation draw body w.db)) [
    | inl full ↦ rw (found, full) h
    | inr (a, chosen) ↦
        rw (found, chosen)
          (insert_server-IsLinked env (new_server (env.new_id w.next_id) owner body egg a) a _
            (rw found refl) h)
  ]
]

-- What administrators and users do to the rows that servers refer to, in any order.
pub data Act (env : Env) : World → World → Type 0 where
  creates :
      (draw : ℕ) (owner : Text) (body : CreateBody) (w : World)
      → Act env w (create_route env draw owner body w).1
  deletes_node : (id : Text) (w : World) → Act env w (delete_node env id w).1
  deletes_egg : (id : Text) (w : World) → Act env w (delete_egg id w).1
  deletes_user : (caller id : Text) (w : World) → Act env w (delete_user env caller id w).1

pub data Acts (env : Env) (start : World) : World → Type 0 where
  here : Acts env start start
  next : {w after : World} → Acts env start w → Act env w after → Acts env start after

Act-IsLinked : {env : Env} {w after : World} → Act env w after → IsLinked w → IsLinked after
Act-IsLinked (creates draw owner body w) h = create_route-IsLinked _ draw owner body w h
Act-IsLinked (deletes_node id w) h = delete_node-IsLinked _ id w h
Act-IsLinked (deletes_egg id w) h = delete_egg-IsLinked id w h
Act-IsLinked (deletes_user caller id w) h = delete_user-IsLinked _ caller id w h

-- Where every server has its node, its egg and its owner, it has them after any run of creations of
-- servers and deletions of nodes, eggs and users, those that are refused or throw included.
pub Acts-IsLinked : {env : Env} {start w : World} → IsLinked start → Acts env start w → IsLinked w
Acts-IsLinked h here = h
Acts-IsLinked h (next more act) = Act-IsLinked act (Acts-IsLinked h more)
