-- ===== src/Workers/Queue.antt =====
-- `addJob` and the worker of panel/src/workers/index.ts.
pub mod Frame
pub mod Adding
pub mod Drain
pub mod Laws
use troxe_host.Common.{
  ℕ, ◌+◌, Bool, true, false, not, ◌&&◌, Option, none, some, List, [], ◌∷◌, ◌++◌, Text, codes,
  text_eq, if◌then◌else◌, is_some,
}
use troxe_host.Db.{
  Db, JobRow, JobStatus, pending, active, JobType, Payload, server_create, server_install,
  server_start, server_stop, server_kill, server_restart, server_delete, server_command,
  backup_create, backup_delete, unknown,
}
use troxe_host.Db.Table.{find_where, update_where}
use troxe_host.Effects.{
  World, Env, QueuedJob, Exec, Failure, error, db_error, failure_text, pure, throw, gets, modify,
  try_catch, on_db, fresh_id, ◌>>=◌, ◌>>◌,
}
use troxe_host.Workers.Steps.{find_server, find_node}
use troxe_host.Workers.Power.{start_server, stop_server, kill_server, restart_server}
use troxe_host.Workers.Install.{create_server, install_server}
use troxe_host.Workers.Removal.{delete_server, send_command, create_backup, delete_backup}

-- `x || null`: the empty text is null
abbrev pub or_null : Text → Option Text
or_null [] = none
or_null (c ∷ s) = some (c ∷ s)

-- whether the references of a new job are to rows that are there
unfoldable pub references_ok : Option Text → Option Text → Db → Bool
references_ok server node db =
    elim server [ none ↦ true | some s ↦ is_some (find_server s db) ]
    && elim node [ none ↦ true | some n ↦ is_some (find_node n db) ]

-- `addJob(type, data)`; `node_id` is `data.nodeId`
unfoldable pub add_job : Env → JobType → Payload → Option Text → Exec Text
unfolding modify references_ok
add_job env type payload node_id = do
  db ← gets (λ w. w.db)
  if not (references_ok (or_null payload.server_id) node_id db)
      then throw (db_error env.foreign_key_error)
      else do
        id ← fresh_id env
        on_db (λ db. record db {
          jobs =
              db.jobs
              ++ record {
                id = id;
                type = type;
                payload = payload;
                status = pending;
                attempts = 0;
                error = none;
                server_id = or_null payload.server_id;
                node_id = node_id;
                started_at = none;
                completed_at = none;
              }
                ∷ [];
        })
        modify (λ w. record w {
          queue = w.queue ++ record { job_id = id; type = type; payload = payload } ∷ [];
        })
        pure id

-- `jobHandlers[job.name]`
unfoldable pub handler : Env → JobType → Payload → Option (Exec (Unit {0}))
handler env server_create p = some (create_server env p.server_id)
handler env server_install p = some (install_server env p.server_id)
handler env server_start p = some (start_server env p.server_id)
handler env server_stop p = some (stop_server env p.server_id)
handler env server_kill p = some (kill_server env p.server_id)
handler env server_restart p = some (restart_server env p.server_id)
handler env server_delete p = some (delete_server env p.server_id)
handler env server_command p = some (send_command env p.server_id p.command)
handler env backup_create p = some (create_backup env p.backup_id p.server_id)
handler env backup_delete p = some (delete_backup env p.backup_id p.server_id)
handler env (unknown name) p = none

abbrev type_name : JobType → Text
type_name (unknown name) = name
type_name _ = []

abbrev pub is_job : Text → JobRow → Bool
is_job id j = text_eq j.id id

-- `UPDATE jobs SET … WHERE id = $1`
unfoldable pub update_job : Text → (JobRow → JobRow) → Exec (Unit {0})
unfolding modify
update_job id f = on_db (λ db. record db { jobs = update_where (is_job id) f db.jobs })

-- the end of the `try`, and the `catch` of the worker, which throws again
unfoldable pub note_completed : Text → Exec (Unit {0})
unfolding update_job
note_completed job_id = do
  now ← gets (λ w. w.clock)
  update_job job_id (λ j. record j { status = JobStatus.completed; completed_at = some now })

unfoldable pub note_failed : Text → Failure → Exec (Unit {0})
unfolding update_job
note_failed job_id err = do
  update_job job_id (λ j. record j { status = JobStatus.failed; error = some (failure_text err) })
  throw err

unfoldable pub run_handler : Text → Exec (Unit {0}) → Exec (Unit {0})
unfolding note_completed note_failed
run_handler job_id run = try_catch (do run; note_completed job_id) (note_failed job_id)

-- the statement before the handler is called
unfoldable pub begin_job : Text → Exec (Unit {0})
unfolding update_job
begin_job job_id = do
  now ← gets (λ w. w.clock)
  update_job job_id
      (λ j. record j { status = active; started_at = some now; attempts = j.attempts + 1 })

-- a job whose handler is known
unfoldable pub run_known : Text → Exec (Unit {0}) → Exec (Unit {0})
unfolding begin_job run_handler
run_known job_id run = do begin_job job_id; run_handler job_id run

-- the function of the `Worker`
unfoldable pub run_job : Env → QueuedJob → Exec (Unit {0})
unfolding run_known
run_job env job = elim (handler env job.type job.payload) [
  | none ↦ throw (error (codes "Unknown job type: " ++ type_name job.type))
  | some run ↦ run_known job.job_id run
]
