-- ===== src/Workers/Install.antt =====
-- The jobs `server.create` and `server.install` of panel/src/workers/index.ts. Both remove what the
-- agent holds, run the install script in a container that only sleeps, remove that one, and create
-- and start the real one. Both begin with a SELECT that names `e.container_port`, a column that no
-- migration declares, so that the statement fails; what stands behind it is modelled for the row and
-- the port that it would give.
pub mod Outcomes
pub mod Frame
pub mod Refused
use mathlib.Core.Option
use troxe_host.Common.{
  ℕ, ◌∷◌, map, any, Option, none, some, List, [], Text, codes, text_eq, if◌then◌else◌,
}
use troxe_host.Db.{ServerRow, EggRow, installing, install_failed}
use troxe_host.Agent.{
  NodeInfo, PortBinding, start, remove, create, install, AgentResponse, accepted, refused,
}
use troxe_host.Effects.{
  World, Env, Exec, Failure, db_error, pure, throw, gets, try_catch, ◌>>=◌, ◌>>◌,
}
use troxe_host.Workers.Steps.{
  set_status, mark_installed, find_egg, allocated_port, bindings, container_spec, require_node,
  require_server, require_placed, agent_post, log_event, notify_installed, failed_to,
  subject_server,
}

abbrev pub keep_alive : Text
keep_alive = codes "sleep infinity"

-- `status = 'install_failed'`, then the throw
fail_install : Text → Failure → Exec (Unit {0})
fail_install id e = do set_status id install_failed; throw e

-- the columns of `eggs` that migration 006 declares; no other migration adds one
abbrev pub egg_columns : List Text
egg_columns =
    map (λ s. codes s)
      ("id" ∷ "name" ∷ "nest_id" ∷ "docker_image" ∷ "startup_command" ∷ "install_script"
        ∷ "config_files" ∷ "variables" ∷ "config_from" ∷ "copy_script_from" ∷ "max_databases"
        ∷ "max_allocations" ∷ "max_backups" ∷ "default_memory_mb" ∷ "default_disk_mb"
        ∷ "default_cpu_percent" ∷ "default_pid_limit" ∷ "security_overrides" ∷ "created_at"
        ∷ "updated_at" ∷ [])

-- the columns `e.…` that the SELECT of both jobs names
abbrev pub named_columns : List Text
named_columns = codes "container_port" ∷ codes "install_script" ∷ []

-- PostgreSQL refuses a statement that names a column that its table has not.
unfoldable pub require_columns : Env → List Text → List Text → Exec (Unit {0})
require_columns env declared [] = pure tt
require_columns env declared (name ∷ names) =
    let rest = require_columns env declared names in
    if any (λ column. text_eq column name) declared then rest else throw (db_error env.column_error)

-- the egg's `install_script`, undefined where there is no egg
abbrev script_of : Option EggRow → Text
script_of none = []
script_of (some e) = elim e.install_script [ none ↦ [] | some s ↦ s ]

-- `ports: server.alloc_port ? [{ … }] : []`, for what the SELECT gave as the egg's port
unfoldable pub ports_of : ServerRow → Option ℕ → Exec (List PortBinding)
unfolding gets
ports_of srv inside = gets (λ w. bindings (allocated_port srv w.db) inside)

-- step 3: the script, if there is one; a script that fails is only warned of
run_script : Env → NodeInfo → Text → Text → Exec (Unit {0})
unfolding pure
run_script env node id [] = pure tt
run_script env node id script = do agent_post env node id (install script); pure tt

-- the steps after the second create call
after_final : Env → NodeInfo → Text → ServerRow → Text → AgentResponse → Exec (Unit {0})
unfolding fail_install
after_final env node id srv event (refused status e) =
    fail_install id (failed_to (codes "Failed to recreate container after install: ") e)
after_final env node id srv event (accepted _) = do
  agent_post env node id start
  mark_installed id
  try_catch (notify_installed env id srv.name) (λ err. pure tt)
  log_event event subject_server id

-- steps 3 to 6
script_and_final : Env → NodeInfo → Text → ServerRow → List PortBinding → Text → Exec (Unit {0})
unfolding run_script after_final
script_and_final env node id srv ports event = do
  egg ← gets (λ w. find_egg srv.egg_id w.db)
  run_script env node id (script_of egg)
  agent_post env node id remove
  final ← agent_post env node id (create (container_spec srv srv.startup_command ports))
  after_final env node id srv event final

-- `server.create` after its first create call: the answer to the start call is only warned of
after_create :
    Env → NodeInfo → Text → ServerRow → List PortBinding → AgentResponse → Exec (Unit {0})
unfolding script_and_final fail_install
after_create env node id srv ports (refused status e) =
    fail_install id (failed_to (codes "Failed to create container: ") e)
after_create env node id srv ports (accepted _) = do
  agent_post env node id start
  script_and_final env node id srv ports (codes "server.created")

-- `server.create` with the row that its SELECT gives: `inside` is the row's `container_port`
unfoldable pub create_selected : Env → Text → Option ℕ → Exec (Unit {0})
unfolding after_create
create_selected env id inside = do
  srv ← require_placed id
  ports ← ports_of srv inside
  set_status id installing
  node ← require_node id
  agent_post env node id remove
  created ← agent_post env node id (create (container_spec srv keep_alive ports))
  after_create env node id srv ports created

-- `"server.create"`
unfoldable pub create_server : Env → Text → Exec (Unit {0})
unfolding create_selected require_columns
create_server env id = do require_columns env egg_columns named_columns; create_selected env id none

-- `server.install` after its start call
after_start : Env → NodeInfo → Text → ServerRow → List PortBinding → AgentResponse → Exec (Unit {0})
unfolding script_and_final fail_install
after_start env node id srv ports (refused status e) =
    fail_install id (failed_to (codes "Failed to start container for install: ") e)
after_start env node id srv ports (accepted _) =
    script_and_final env node id srv ports (codes "server.installed")

-- `server.install` after its first create call
after_install_create :
    Env → NodeInfo → Text → ServerRow → List PortBinding → AgentResponse → Exec (Unit {0})
unfolding after_start fail_install
after_install_create env node id srv ports (refused status e) =
    fail_install id (failed_to (codes "Failed to create container for install: ") e)
after_install_create env node id srv ports (accepted _) = do
  started ← agent_post env node id start
  after_start env node id srv ports started

-- `server.install` on a node, with the row that its SELECT gives
unfoldable pub install_selected : Env → Text → NodeInfo → Option ℕ → Exec (Unit {0})
unfolding after_install_create
install_selected env id node inside = do
  srv ← require_server id
  ports ← ports_of srv inside
  agent_post env node id remove
  created ← agent_post env node id (create (container_spec srv keep_alive ports))
  after_install_create env node id srv ports created

-- `"server.install"`
unfoldable pub install_server : Env → Text → Exec (Unit {0})
unfolding install_selected require_columns
install_server env id = do
  node ← require_node id
  require_columns env egg_columns named_columns
  install_selected env id node none
