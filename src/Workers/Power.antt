-- ===== src/Workers/Power.antt =====
-- The power jobs of panel/src/workers/index.ts: `server.start`, `server.stop`, `server.kill` and
-- `server.restart`.
pub mod Outcomes
pub mod Frame
use troxe_host.Common.{◌++◌, Bool, not, Option, none, some, [], Text, codes, if◌then◌else◌}
use troxe_host.Db.{ServerRow, NodeRow, starting, stopping, stopped, running, crashed}
use troxe_host.Agent.{
  NodeInfo, Action, start, stop, kill, create, AgentResponse, accepted, refused, is_untracked,
}
use troxe_host.Effects.{World, Env, Exec, Failure, error, pure, throw, gets, ◌>>=◌, ◌>>◌}
use troxe_host.Workers.Steps.{
  set_status, find_server, find_placed, require_node, require_placed, agent_post, container_spec,
  log_event, failed_to, subject_server,
}

-- `status = 'crashed'`, then the throw
crash : Text → Failure → Exec (Unit {0})
crash id e = do set_status id crashed; throw e

-- the end of `server.start`, once the last answer of the agent is known
finish_start : Text → AgentResponse → Exec (Unit {0})
finish_start id (refused status e) = crash id (failed_to (codes "Failed to start server: ") e)
finish_start id (accepted _) = do
  set_status id running
  log_event (codes "server.started") subject_server id

-- the answer to the create call of a start; the container is then started
after_create : Env → NodeInfo → Text → AgentResponse → Exec (Unit {0})
after_create env node id (refused status e) =
    crash id (failed_to (codes "Failed to create container: ") e)
after_create env node id (accepted _) = do resp ← agent_post env node id start; finish_start id resp

-- The first answer to the start call. A container that the agent does not know is created anew,
-- with no port.
after_start : Env → NodeInfo → Text → ServerRow → AgentResponse → Exec (Unit {0})
unfolding after_create
after_start env node id srv (accepted d) = finish_start id (accepted d)
after_start env node id srv (refused status e) =
    if is_untracked e
    then (do
      created ← agent_post env node id (create (container_spec srv srv.startup_command []))
      after_create env node id created)
    else finish_start id (refused status e)

-- `"server.start"`
unfoldable pub start_server : Env → Text → Exec (Unit {0})
unfolding crash finish_start after_start
start_server env id = do
  set_status id starting
  srv ← require_placed id
  node ← require_node id
  resp ← agent_post env node id start
  after_start env node id srv resp

-- The end of `server.stop` and of `server.kill`: an agent that does not know the container is taken
-- to have stopped it.
finish_stop : Text → Text → AgentResponse → Exec (Unit {0})
finish_stop what id (accepted _) = do
  set_status id stopped
  log_event (codes "server.stopped") subject_server id
finish_stop what id (refused status e) =
    if is_untracked e
    then (do set_status id stopped; log_event (codes "server.stopped") subject_server id)
    else throw (failed_to what e)

-- `"server.stop"`
unfoldable pub stop_server : Env → Text → Exec (Unit {0})
unfolding finish_stop
stop_server env id = do
  set_status id stopping
  node ← require_node id
  resp ← agent_post env node id stop
  finish_stop (codes "Failed to stop server: ") id resp

-- `"server.kill"`
unfoldable pub kill_server : Env → Text → Exec (Unit {0})
unfolding finish_stop
kill_server env id = do
  set_status id stopping
  node ← require_node id
  resp ← agent_post env node id kill
  finish_stop (codes "Failed to kill server: ") id resp

-- the end of `server.restart`
finish_restart : Text → AgentResponse → Exec (Unit {0})
finish_restart id (refused status e) = crash id (failed_to (codes "Failed to restart server: ") e)
finish_restart id (accepted _) = do
  set_status id running
  log_event (codes "server.restarted") subject_server id

-- the create call of a restart, where the row of the server can still be read
create_found : Env → NodeInfo → Text → Option (ServerRow × NodeRow) → Exec (Unit {0})
create_found env node id none = pure tt
create_found env node id (some (srv, n)) = do
  agent_post env node id (create (container_spec srv srv.startup_command []))
  pure tt

-- the fall-back of a restart: a container that the agent does not know is created
recreate_if_untracked : Env → NodeInfo → Text → AgentResponse → Exec (Unit {0})
unfolding create_found
recreate_if_untracked env node id (accepted _) = pure tt
recreate_if_untracked env node id (refused status e) =
    if not (is_untracked e)
    then pure tt
    else do found ← gets (λ w. find_placed id w.db); create_found env node id found

-- `"server.restart"`: kill, start, create if need be, and start once more
unfoldable pub restart_server : Env → Text → Exec (Unit {0})
unfolding crash finish_restart recreate_if_untracked
restart_server env id = do
  set_status id starting
  node ← require_node id
  agent_post env node id kill
  resp ← agent_post env node id start
  recreate_if_untracked env node id resp
  final ← agent_post env node id start
  finish_restart id final
