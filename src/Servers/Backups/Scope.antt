-- ===== src/Servers/Backups/Scope.antt =====
-- Which server a backup is deleted for.

use troxe_host.Common.{true, Option, none, some, [], ◌∷◌, ◌++◌, Text, ◌≡◌, refl, ◌∙◌, ap}
use troxe_host.Db.{ServerRow, BackupRow, Payload, backup_delete}
use troxe_host.Db.Table.{find_where, find_where-delete_where}
use troxe_host.Agent.{NodeInfo}
use troxe_host.Effects.{World, Env, QueuedJob, ok, gets, pure, modify, ◌>>=◌}
use troxe_host.Reply.{sent}
use troxe_host.Workers.Steps.{find_server, agent_post, node_for_server}
use troxe_host.Workers.Queue.{references_ok, or_null, handler, begin_job, run_job}
use troxe_host.Workers.Queue.Adding.{add_job_lem}
use troxe_host.Workers.Queue.Laws.{run_job_lem}
use troxe_host.Workers.Removal.{
  is_backup, delete_on, delete_file, delete_backup_row, delete_backup, path_of,
}
use troxe_host.Servers.Backups.{queue_delete, delete_route}

delete_on-ok :
    (env : Env) (id file : Text) (at : Option NodeInfo) (w : World)
    → (delete_on env id file at w).0 ≡ ok tt
unfolding delete_on agent_post pure ◌>>=◌
delete_on-ok env id file none w = refl
delete_on-ok env id file (some n) w = refl

delete_file-ok :
    (env : Env) (id : Text) (path : Option Text) (w : World) → (delete_file env id path w).0 ≡ ok tt
unfolding delete_file gets pure ◌>>=◌
delete_file-ok env id none w = refl
delete_file-ok env id (some []) w = refl
delete_file-ok env id (some (c ∷ path)) w =
    delete_on-ok env id (c ∷ path) (node_for_server id w.db) w

delete_backup-gone :
    (env : Env) (what id : Text) (w : World)
    → find_where (is_backup what) (delete_backup env what id w).1.db.backups ≡ none
unfolding delete_backup delete_backup_row gets modify ◌>>=◌
delete_backup-gone env what id w =
    rw (delete_file-ok env id (path_of (find_where (is_backup what) w.db.backups)) w)
      (find_where-delete_where (is_backup what) _)

server_referenced :
    (id : Text) (w : World) {s : ServerRow}
    → find_server id w.db ≡ some s
    → references_ok (or_null id) none w.db ≡ true
unfolding references_ok
server_referenced [] w there = refl
server_referenced (c ∷ id) w there = rw there refl

-- the payload of the route's job
abbrev pub deletion : Text → Text → Payload
deletion id what = record { server_id = id; backup_id = what; command = [] }

-- a worker that takes a delete job leaves no row of its backup
run_deletion-gone :
    (env : Env) (job_id id what : Text) (w : World)
    → let job : QueuedJob = record {
      job_id = job_id;
      type = backup_delete;
      payload = deletion id what;
    } in
      find_where (is_backup what) (run_job env job w).1.db.backups ≡ none
unfolding handler
run_deletion-gone env job_id id what w =
    let job : QueuedJob = record {
      job_id = job_id;
      type = backup_delete;
      payload = deletion id what;
    } in
    let (_, _, same, _) = run_job_lem env job w (delete_backup env what id) refl in
    ap (find_where (is_backup what)) same ∙ delete_backup-gone env what id (begin_job job_id w).1

-- A backup that has a row is deleted at the request for any server that has a row, be it the server
-- of the backup or another: the route accepts the request and adds one job to the queue, and the
-- worker that then takes this job leaves no row of the backup.
pub delete_route-any :
    (env : Env) (id what : Text) (w : World) {s : ServerRow} {b : BackupRow}
    → find_server id w.db ≡ some s
    → find_where (is_backup what) w.db.backups ≡ some b
    → let (answer, after) = delete_route env id what w in
      let job : QueuedJob = record {
        job_id = env.new_id w.next_id;
        type = backup_delete;
        payload = deletion id what;
      } in
      (answer ≡ ok (sent tt))
      × (after.queue ≡ w.queue ++ job ∷ [])
      × (find_where (is_backup what) (run_job env job after).1.db.backups ≡ none)
unfolding delete_route queue_delete gets pure ◌>>=◌
delete_route-any env id what w there found =
    let added =
      add_job_lem env backup_delete (deletion id what) none w (server_referenced id w there) in
    (
      rw (found, added) refl,
      rw (found, added) refl,
      run_deletion-gone env (env.new_id w.next_id) id what (delete_route env id what w).1,
    )
