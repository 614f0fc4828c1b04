-- ===== src/Servers/Databases/Capacity.antt =====
-- The capacity of the database hosts.
use mathlib.Core.Path.{subst}
use troxe_host.Common.{
  ◌+◌, ◌≤◌, Bool, true, Option, none, some, Text, text_eq, text_eq_iff, ◌≡◌, arith, Bool-cases,
  Option-cases, inl, inr, ltb, All, is_some,
}
use troxe_host.Db.{Db, DatabaseRow, DatabaseHostRow}
use troxe_host.Db.Table.{count_where, find_where_sound}
use troxe_host.Db.Counting.{
  All-find_where, All-delete_where, count_where-append, count_where-delete_where,
}
use troxe_host.Effects.{World, Env, gets, pure, throw, modify, fresh_id, ◌>>=◌}
use troxe_host.Workers.Steps.{find_server}
use troxe_host.Servers.Databases.{
  on_host, load, has_room, choose_host, new_database, store_database, create_on, no_hosts,
  create_database, is_database, database_of, delete_found, delete_database, delete_host,
}
use troxe_host.Servers.Databases.Choice.{All-by_load}

-- No other row has the id of the host, and the host has no more databases than it takes.
pub record IsWithin (host : DatabaseHostRow) (w : World) : Type 0 where
  pub alone : All (λ (h : DatabaseHostRow). h.id ≡ host.id → h ≡ host) w.db.database_hosts
  pub few : load w.db host ≤ host.max_databases

chosen-alone :
    (host h : DatabaseHostRow) (w : World)
    → choose_host w.db ≡ some h
    → IsWithin host w
    → h.id ≡ host.id
    → h ≡ host
unfolding choose_host
chosen-alone host h w chosen k =
    All-find_where _ (has_room w.db) _ chosen
      (All-by_load _ (load w.db) w.db.database_hosts k.alone)

chosen-has_room : (h : DatabaseHostRow) (db : Db) → choose_host db ≡ some h → has_room db h ≡ true
unfolding choose_host
chosen-has_room h db chosen = find_where_sound (has_room db) _ chosen

store_database-IsWithin :
    (env : Env) (host : DatabaseHostRow) (id host_id short password : Text) (w : World)
    → (text_eq host_id host.id ≡ true → load w.db host + 1 ≤ host.max_databases)
    → IsWithin host w
    → IsWithin host (store_database env id host_id short password w).1
unfolding store_database gets throw fresh_id modify pure ◌>>=◌ load
store_database-IsWithin env host id host_id short password w room k =
    elim (Bool-cases (is_some (find_server id w.db))) [
      | inl there ↦ rw there (record {
        alone = k.alone;
        few = elim (Bool-cases (text_eq host_id host.id)) [
          | inl hit ↦
              rw
                (
                  count_where-append (on_host host.id) w.db.databases
                      (new_database _ id host_id short password),
                  hit,
                )
                (room hit)
          | inr miss ↦
              rw
                (
                  count_where-append (on_host host.id) w.db.databases
                      (new_database _ id host_id short password),
                  miss,
                )
                (omega (arith, k.few))
        ];
      })
      | inr gone ↦ rw gone k
    ]

create_on-IsWithin :
    (env : Env) (mysql : DatabaseHostRow → Text → Bool) (host : DatabaseHostRow)
    (id short password : Text) (w : World)
    → IsWithin host w
    → IsWithin host (create_on env mysql id short password (choose_host w.db) w).1
unfolding create_on pure
create_on-IsWithin env mysql host id short password w k = elim (Option-cases (choose_host w.db)) [
  | inl full ↦ rw full k
  | inr (h, chosen) ↦ elim (Bool-cases (mysql h short)) [
    | inl done ↦
        rw (chosen, done)
          (store_database-IsWithin env host id h.id short password w
            (λ same.
              let is_host : h ≡ host =
                chosen-alone host h w chosen k ((text_eq_iff h.id host.id).0 same) in
              let room : has_room w.db host ≡ true =
                subst (λ x. has_room w.db x ≡ true) is_host (chosen-has_room h w.db chosen) in
              ground (arith, room))
            k)
    | inr refused ↦ rw (chosen, refused) k
  ]
]

delete_found-IsWithin :
    (host : DatabaseHostRow) (database_id : Text) (w : World) (found : Option DatabaseRow)
    → IsWithin host w
    → IsWithin host (delete_found database_id found w).1
unfolding delete_found modify pure ◌>>=◌ load
delete_found-IsWithin host database_id w none k = k
delete_found-IsWithin host database_id w (some d) k = record {
  alone = k.alone;
  few = omega (
    arith,
    k.few,
    count_where-delete_where (on_host host.id) (is_database database_id) w.db.databases,
  );
}

delete_host-IsWithin :
    (host : DatabaseHostRow) (id : Text) (w : World)
    → IsWithin host w
    → IsWithin host (delete_host id w).1
unfolding delete_host gets modify pure ◌>>=◌ load
delete_host-IsWithin host id w k =
    elim (Bool-cases (ltb 0 (count_where (on_host id) w.db.databases))) [
      | inl used ↦ rw used k
      | inr unused ↦
          rw unused
            (record { alone = All-delete_where _ _ w.db.database_hosts k.alone; few = k.few })
    ]

-- What users and administrators do to the databases of all servers, in any order; `mysql` is whether a
-- host makes the database.
pub data Use (env : Env) (mysql : DatabaseHostRow → Text → Bool) (start : World)
    : World → Type 0 where
  here : Use env mysql start start
  created :
      {w : World} (id short password : Text)
      → Use env mysql start w
      → Use env mysql start (create_database env mysql id short password w).1
  deleted :
      {w : World} (id database_id : Text)
      → Use env mysql start w
      → Use env mysql start (delete_database id database_id w).1
  removed :
      {w : World} (id : Text) → Use env mysql start w → Use env mysql start (delete_host id w).1

create_database-IsWithin :
    (env : Env) (mysql : DatabaseHostRow → Text → Bool) (host : DatabaseHostRow)
    (id short password : Text) (w : World)
    → IsWithin host w
    → IsWithin host (create_database env mysql id short password w).1
unfolding create_database gets pure ◌>>=◌
create_database-IsWithin env mysql host id short password w k =
    elim (Bool-cases (no_hosts w.db.database_hosts)) [
      | inl empty ↦ rw empty k
      | inr some_hosts ↦ rw some_hosts (create_on-IsWithin env mysql host id short password w k)
    ]

-- A database host whose id no other row has, and that has at most as many databases as it takes, has
-- so after any run of the routes that create and delete databases and that delete hosts, those that
-- are refused or throw included.
pub Use-IsWithin :
    {env : Env} {mysql : DatabaseHostRow → Text → Bool} {start w : World} (host : DatabaseHostRow)
    → IsWithin host start
    → Use env mysql start w
    → IsWithin host w
unfolding delete_database gets ◌>>=◌
Use-IsWithin host k here = k
Use-IsWithin host k (created {w} id short password more) =
    create_database-IsWithin _ _ host id short password w (Use-IsWithin host k more)
Use-IsWithin host k (deleted {w} id database_id more) =
    delete_found-IsWithin host database_id w (database_of id database_id w.db)
      (Use-IsWithin host k more)
Use-IsWithin host k (removed {w} id more) =
    delete_host-IsWithin host id w (Use-IsWithin host k more)
