-- ===== src/Servers.antt =====
-- The server routes of panel/src/api/routes/servers.ts, behind their guards: what a route answers
-- and what it does to the database and the queue.
pub mod Create
pub mod Transfer
pub mod Backups
pub mod Schedules
pub mod Settings
pub mod Subusers
pub mod Databases
pub mod Files
pub mod Overview
pub mod Accounts
pub mod Laws
pub mod Undeleted
use troxe_host.Common.{
  ℕ, zero, suc, ◌+◌, Bool, true, false, not, ◌&&◌, ◌||◌, Option, none, some, List, [], ◌∷◌, ◌++◌,
  Text, codes, text_eq, if◌then◌else◌, is_some, ◌==◌,
}
use troxe_host.Common.Int.{ℤ, pos, ◌+ℤ◌, ◌-ℤ◌}
use troxe_host.Reply.{Reply, sent, failed}
use troxe_host.Db.{
  Db, ServerRow, ServerStatus, install_pending, starting, running, stopping, stopped, NodeRow,
  AllocationRow, EggRow, JobType, unknown, server_create, server_start, server_stop, server_kill,
  server_restart, server_delete, Payload,
}
use troxe_host.Db.Table.{find_where, update_where}
use troxe_host.Effects.{
  World, Env, Exec, db_error, pure, throw, gets, modify, on_db, fresh_id, ◌>>=◌, ◌>>◌,
}
use troxe_host.Workers.Steps.{
  find_server, update_server, find_node, find_egg, number_or, log_event, subject_server,
}
use troxe_host.Workers.Queue.{add_job}

-- the `data` of a job on a server
abbrev pub on_server : Text → Payload
on_server id = record { server_id = id; backup_id = []; command = [] }

abbrev pub queue_job : Env → JobType → Text → Option Text → Exec (Reply (Unit {0}))
queue_job env type id node_id = do add_job env type (on_server id) node_id; pure (sent tt)

-- the job of a power action, where it is one of the four
unfoldable pub power_job : Text → Option JobType
power_job action =
    if text_eq action (codes "start")
    then some server_start
    else if text_eq action (codes "stop")
    then some server_stop
    else if text_eq action (codes "restart")
    then some server_restart
    else if text_eq action (codes "kill")
    then some server_kill
    else none

-- `POST /servers/:id/power`
unfoldable pub power_route : Env → Text → Text → Exec (Reply (Unit {0}))
unfolding power_job
power_route env id action = elim (power_job action) [
  | none ↦ pure (failed 400 (codes "Invalid power action"))
  | some type ↦ queue_job env type id none
]

abbrev pub is_running : ServerStatus → Bool
is_running running = true
is_running starting = true
is_running _ = false

abbrev pub is_stopped : ServerStatus → Bool
is_stopped stopped = true
is_stopped stopping = true
is_stopped _ = false

not_found : {A : Type 0} → Exec (Reply A)
not_found = pure (failed 404 (codes "Server not found"))

start_found : Env → Text → Option ServerRow → Exec (Reply (Unit {0}))
unfolding not_found
start_found env id none = not_found
start_found env id (some s) =
    if is_running s.status
    then pure (failed 400 (codes "Server is already running"))
    else queue_job env server_start id none

-- `POST /servers/:id/start`
unfoldable pub start_route : Env → Text → Exec (Reply (Unit {0}))
unfolding start_found
start_route env id = do found ← gets (λ w. find_server id w.db); start_found env id found

stop_found : Env → Text → Option ServerRow → Exec (Reply (Unit {0}))
unfolding not_found
stop_found env id none = not_found
stop_found env id (some s) =
    if is_stopped s.status
    then pure (failed 400 (codes "Server is already stopped"))
    else queue_job env server_stop id none

-- `POST /servers/:id/stop`
unfoldable pub stop_route : Env → Text → Exec (Reply (Unit {0}))
unfolding stop_found
stop_route env id = do found ← gets (λ w. find_server id w.db); stop_found env id found

-- `POST /servers/:id/restart`
unfoldable pub restart_route : Env → Text → Exec (Reply (Unit {0}))
restart_route env id = queue_job env server_restart id none

-- `POST /servers/:id/reset-crash-count`
unfoldable pub reset_crash_route : Text → Exec (Reply (Unit {0}))
unfolding update_server modify
reset_crash_route id = do
  on_db (update_server id (λ r. record r { crash_count = 0; last_crashed_at = none }))
  pure (sent tt)

-- `UPDATE allocations SET server_id = $1, allocated_at = now() WHERE id = $2`
unfoldable pub claim : Text → Text → ℕ → Db → Db
claim server_id id now db = record db {
  allocations =
      update_where (λ a. text_eq a.id id)
        (λ a. record a { server_id = some server_id; allocated_at = some now }) db.allocations;
}

abbrev free_rows : Option Text → List AllocationRow → List AllocationRow
free_rows none rows = rows
free_rows (some id) rows =
    update_where (λ a. text_eq a.id id) (λ a. record a { server_id = none; allocated_at = none })
      rows

-- `UPDATE allocations SET server_id = NULL, allocated_at = NULL WHERE id = $1`; a null id is no row's
unfoldable pub free : Option Text → Db → Db
free id db = record db { allocations = free_rows id db.allocations }

-- `if (server.allocation_id)`
abbrev known_rows : Option Text → List AllocationRow → List AllocationRow
known_rows none rows = rows
known_rows (some []) rows = rows
known_rows (some (c ∷ id)) rows = free_rows (some (c ∷ id)) rows

abbrev pub free_known : Option Text → Db → Db
free_known id db = record db { allocations = known_rows id db.allocations }

abbrev on_node : Text → (NodeRow → NodeRow) → Db → Db
on_node id f db = record db { nodes = update_where (λ n. text_eq n.id id) f db.nodes }

-- `allocated_memory_mb + $1`, `allocated_disk_mb + $2`
unfoldable pub add_resources : ℕ → ℕ → Text → Db → Db
add_resources memory disk id = on_node id (λ n. record n {
  allocated_memory_mb = n.allocated_memory_mb +ℤ pos memory;
  allocated_disk_mb = n.allocated_disk_mb +ℤ pos disk;
})

-- `allocated_memory_mb - $1`, `allocated_disk_mb - $2`
unfoldable pub subtract_resources : ℕ → ℕ → Text → Db → Db
subtract_resources memory disk id = on_node id (λ n. record n {
  allocated_memory_mb = n.allocated_memory_mb -ℤ pos memory;
  allocated_disk_mb = n.allocated_disk_mb -ℤ pos disk;
})

-- what `DELETE /servers/:id` does to the tables before it queues the job
unfoldable pub release : ServerRow → Db → Db
unfolding free subtract_resources
release s db = subtract_resources s.memory_mb s.disk_mb s.node_id (free_known s.allocation_id db)

delete_found : Env → Text → Option ServerRow → Exec (Reply (Unit {0}))
unfolding not_found release modify
delete_found env id none = not_found
delete_found env id (some s) = do on_db (release s); queue_job env server_delete id (some s.node_id)

-- `DELETE /servers/:id`
unfoldable pub delete_route : Env → Text → Exec (Reply (Unit {0}))
unfolding delete_found
delete_route env id = do found ← gets (λ w. find_server id w.db); delete_found env id found
