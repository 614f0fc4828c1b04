-- ===== src/Workers/Removal/Laws.antt =====
-- What becomes of the rows of a removal and of a backup.
use mathlib.Core.Option
use troxe_host.Common.{Text, Option, none, some, List, true, ◌≡◌, refl, ◌∙◌, ap, any}
use troxe_host.Db.{Db, JobRow, BackupRow, BackupStatus, ServerRow, NodeRow}
use troxe_host.Db.Table.{find_where, update_where, find_where-update_where, update_where-none}
use troxe_host.Agent.{NodeInfo, AgentCall, AgentResponse, accepted, refused}
use troxe_host.Effects.{World, Env, Result, ok, thrown, db_error, gets, throw, pure, ◌>>=◌}
use troxe_host.Workers.Steps.{node_for_server, find_server, find_node, agent_post, log_event}
use troxe_host.Workers.Tables.{IsPlaced, require_node-ok}
use troxe_host.Workers.Removal.{
  refers, delete_server_row, remove_container, delete_server, is_backup, update_backup,
  finish_backup, create_backup,
}

remove_container_lem :
    (env : Env) (id : Text) (node : Option NodeInfo) (w : World)
    → (calls : List AgentCall) × (remove_container env id node w
        ≡ (ok tt, record w { calls = calls }))
unfolding remove_container agent_post pure ◌>>=◌
remove_container_lem env id none w = (w.calls, refl)
remove_container_lem env id (some n) w = (_, refl)

-- What a refused removal leaves: the error of the foreign key, and the database as it was.
abbrev pub IsRefused : Env → World → Result (Unit {0}) × World → Type 0
IsRefused env w r = (r.0 ≡ thrown (db_error env.foreign_key_error)) × (r.1.db ≡ w.db)

-- the handler, where some job names the server
pub delete_server-IsRefused :
    (env : Env) (id : Text) (w : World)
    → any (λ (j : JobRow). refers id j.server_id) w.db.jobs ≡ true
    → IsRefused env w (delete_server env id w)
unfolding delete_server delete_server_row gets throw ◌>>=◌
delete_server-IsRefused env id w named =
    let (calls, e) = remove_container_lem env id (node_for_server id w.db) w in
    rw (e, IsRefused, named) (refl, refl)

-- The backup's row after a run of its job.
abbrev pub BackupEnds : Text → Result (Unit {0}) × World → Type 0
BackupEnds id (ok _, w) =
    Option.map (λ (b : BackupRow). b.status) (find_where (is_backup id) w.db.backups)
    ≡ some BackupStatus.completed
BackupEnds id (thrown _, w) =
    Option.map (λ (b : BackupRow). b.status) (find_where (is_backup id) w.db.backups)
    ≡ some BackupStatus.failed

backup_status_lem :
    (id : Text) (f : BackupRow → BackupRow) (rows : List BackupRow) {b : BackupRow}
    → ((r : BackupRow) → (f r).id ≡ r.id)
    → find_where (is_backup id) rows ≡ some b
    → find_where (is_backup id) (update_where (is_backup id) f rows) ≡ some (f b)
backup_status_lem id f rows keep h =
    find_where-update_where (is_backup id) f rows (λ r k. rw (keep r) k) ∙ ap (Option.map f) h

finish_backup-BackupEnds :
    (id : Text) (resp : AgentResponse) (w : World) {b : BackupRow}
    → find_where (is_backup id) w.db.backups ≡ some b
    → BackupEnds id (finish_backup id resp w)
unfolding finish_backup update_backup gets throw log_event ◌>>=◌
finish_backup-BackupEnds id (accepted d) w h =
    ap (Option.map (λ (b : BackupRow). b.status))
      (backup_status_lem id _ w.db.backups (λ r. refl) h)
finish_backup-BackupEnds id (refused status e) w h =
    ap (Option.map (λ (b : BackupRow). b.status))
      (backup_status_lem id _ w.db.backups (λ r. refl) h)

-- the table of backups is another than those of servers and nodes
backups-IsPlaced :
    {id : Text} {db : Db} {s : ServerRow} {n : NodeRow} (bs : List BackupRow)
    → IsPlaced id db s n
    → IsPlaced id (record db { backups = bs }) s n
unfolding find_server find_node
backups-IsPlaced bs p = record { server = p.server; node = p.node }

-- A backup job of a listed backup, of a server whose row and whose node are there, ends with the
-- backup completed where it returns, and failed where it throws.
pub create_backup-BackupEnds :
    (env : Env) (backup_id id : Text) (w : World) {b : BackupRow} {s : ServerRow} {n : NodeRow}
    → find_where (is_backup backup_id) w.db.backups ≡ some b
    → IsPlaced id w.db s n
    → BackupEnds backup_id (create_backup env backup_id id w)
unfolding create_backup update_backup agent_post ◌>>=◌
create_backup-BackupEnds env backup_id id w {n} h p =
    let marked : World =
      (update_backup backup_id (λ b. record b { status = BackupStatus.compressing }) w).1 in
    let q = backups-IsPlaced marked.db.backups p in
    rw (require_node-ok id marked q) (
      finish_backup-BackupEnds backup_id _ _
        (backup_status_lem backup_id _ w.db.backups (λ r. refl) h))

finish_backup_unlisted :
    (id : Text) (resp : AgentResponse) (w : World)
    → find_where (is_backup id) w.db.backups ≡ none
    → (finish_backup id resp w).1.db.backups ≡ w.db.backups
unfolding finish_backup update_backup gets throw log_event ◌>>=◌
finish_backup_unlisted id (accepted d) w h = update_where-none (is_backup id) _ w.db.backups h
finish_backup_unlisted id (refused status e) w h = update_where-none (is_backup id) _ w.db.backups h

-- A backup job under an id that no backup has, such as the scheduler's, adds no backup to the table
-- and changes none, also where the agent makes the file.
pub create_backup_unlisted :
    (env : Env) (backup_id id : Text) (w : World) {s : ServerRow} {n : NodeRow}
    → find_where (is_backup backup_id) w.db.backups ≡ none
    → IsPlaced id w.db s n
    → (create_backup env backup_id id w).1.db.backups ≡ w.db.backups
unfolding create_backup update_backup agent_post ◌>>=◌
create_backup_unlisted env backup_id id w {n} h p =
    let same =
      update_where-none (is_backup backup_id) (λ b. record b { status = BackupStatus.compressing })
        w.db.backups h in
    let marked : World =
      (update_backup backup_id (λ b. record b { status = BackupStatus.compressing }) w).1 in
    let q = backups-IsPlaced marked.db.backups p in
    rw (require_node-ok id marked q) (finish_backup_unlisted backup_id _ _ (rw same h) ∙ same)
