-- ===== src/Servers/Create.antt =====
-- `POST /servers` of panel/src/api/routes/servers.ts.
pub mod Laws
use troxe_host.Common.{
  ℕ, zero, suc, Bool, true, false, not, ◌&&◌, Option, none, some, List, [], ◌∷◌, ◌++◌, Text, codes,
  text_eq, if◌then◌else◌, is_some,
}
use troxe_host.Db.{Db, ServerRow, install_pending, AllocationRow, EggRow, UserRow, server_create}
use troxe_host.Db.Table.{find_where}
use troxe_host.Effects.{
  World, Env, Exec, db_error, pure, throw, gets, modify, on_db, fresh_id, ◌>>=◌, ◌>>◌,
}
use troxe_host.Workers.Steps.{find_node, find_egg, number_or, log_event, subject_server}
use troxe_host.Workers.Queue.{add_job}
use troxe_host.Reply.{Reply, sent, failed}
use troxe_host.Servers.{on_server, claim, add_resources}

-- the body of a creation, as the schema lets it through; an environment that is absent is empty
pub record CreateBody : Type 0 where
  pub name : Text
  pub egg_id : Text
  pub node_id : Text
  pub allocation_id : Option Text
  pub memory_mb : Option ℕ
  pub disk_mb : Option ℕ
  pub cpu_percent : Option ℕ
  pub docker_image : Option Text
  pub startup_command : Option Text
  pub environment : List (Text × Text)

-- `WHERE node_id = $1 AND server_id IS NULL`
unfoldable pub free_on : Text → List AllocationRow → List AllocationRow
free_on node_id [] = []
free_on node_id (a ∷ rest) =
    let others = free_on node_id rest in
    if text_eq a.node_id node_id && not (is_some a.server_id) then a ∷ others else others

-- `ORDER BY RANDOM() LIMIT 1`: the draw is the place of the row in the table's order, and the last
-- row where the draw is too large
unfoldable pub pick : ℕ → List AllocationRow → Option AllocationRow
pick n [] = none
pick zero (a ∷ rest) = some a
pick (suc n) (a ∷ []) = some a
pick (suc n) (a ∷ b ∷ rest) = pick n (b ∷ rest)

abbrev id_of : Option AllocationRow → Option Text
id_of none = none
id_of (some a) = some a.id

-- `body.allocationId`, or one that is drawn
unfoldable pub choose_allocation : ℕ → CreateBody → Db → Option Text
unfolding free_on pick
choose_allocation draw body db = elim body.allocation_id [
  | some id ↦ some id
  | none ↦ id_of (pick draw (free_on body.node_id db.allocations))
]

-- `text || fallback`
abbrev text_or : Option Text → Text → Text
text_or none fallback = fallback
text_or (some []) fallback = fallback
text_or (some (c ∷ s)) fallback = c ∷ s

-- the row of `INSERT INTO servers`, with the columns' defaults
abbrev pub new_server : Text → Text → CreateBody → EggRow → Text → ServerRow
new_server id owner_id body egg allocation_id = record {
  id = id;
  name = body.name;
  node_id = body.node_id;
  owner_id = owner_id;
  egg_id = body.egg_id;
  allocation_id = some allocation_id;
  memory_mb = number_or body.memory_mb egg.default_memory_mb;
  disk_mb = number_or body.disk_mb egg.default_disk_mb;
  cpu_percent = number_or body.cpu_percent egg.default_cpu_percent;
  pid_limit = egg.default_pid_limit;
  docker_image = text_or body.docker_image egg.docker_image;
  startup_command = text_or body.startup_command egg.startup_command;
  environment = body.environment;
  status = install_pending;
  installed_at = none;
  crash_count = 0;
  last_crashed_at = none;
}

-- whether the node and the owner of a new row are there; `allocation_id` has no constraint
unfoldable pub placeable : ServerRow → Db → Bool
placeable s db =
    is_some (find_node s.node_id db)
    && is_some (find_where (λ (u : UserRow). text_eq u.id s.owner_id) db.users)

-- the three statements of a creation
unfoldable pub reserve : ServerRow → Text → ℕ → Db → Db
unfolding claim add_resources
reserve s allocation_id now db =
    add_resources s.memory_mb s.disk_mb s.node_id
      (claim s.id allocation_id now (record db { servers = db.servers ++ s ∷ [] }))

-- the part of the route that follows the `INSERT`, with the job and the event
unfoldable pub insert_server : Env → ServerRow → Text → Exec (Reply ServerRow)
unfolding placeable reserve modify
insert_server env s allocation_id = do
  possible ← gets (λ w. placeable s w.db)
  now ← gets (λ w. w.clock)
  if not possible then throw (db_error env.foreign_key_error) else do
    on_db (reserve s allocation_id now)
    add_job env server_create (on_server s.id) (some s.node_id)
    log_event (codes "server.created") subject_server s.id
    pure (sent s)

unfoldable pub create_chosen :
    Env → Text → CreateBody → EggRow → Option Text → Exec (Reply ServerRow)
unfolding insert_server
create_chosen env owner_id body egg none = pure (failed 400 (codes "No available allocations"))
create_chosen env owner_id body egg (some allocation_id) = do
  id ← fresh_id env
  insert_server env (new_server id owner_id body egg allocation_id) allocation_id

unfoldable pub create_with : Env → ℕ → Text → CreateBody → Option EggRow → Exec (Reply ServerRow)
unfolding create_chosen
create_with env draw owner_id body none = pure (failed 404 (codes "Egg not found"))
create_with env draw owner_id body (some egg) = do
  allocation ← gets (λ w. choose_allocation draw body w.db)
  create_chosen env owner_id body egg allocation

-- `POST /servers`
unfoldable pub create_route : Env → ℕ → Text → CreateBody → Exec (Reply ServerRow)
unfolding create_with
create_route env draw owner_id body = do
  egg ← gets (λ w. find_egg body.egg_id w.db)
  create_with env draw owner_id body egg
