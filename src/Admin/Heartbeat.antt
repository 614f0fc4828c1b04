-- ===== src/Admin/Heartbeat.antt =====
-- `POST /remote/heartbeat` of panel/src/api/routes/admin.ts: what an agent reports of its node.
pub mod Laws
use mathlib.Core.Option
use mathlib.Core.List.{reverse, filter}
use troxe_host.Common.{
  ℕ, zero, suc, ◌+◌, ◌*◌, Bool, true, false, not, ◌&&◌, ◌||◌, Option, none, some, List, [], ◌∷◌,
  ◌++◌, map, Text, codes, text_eq, if◌then◌else◌, is_some, ◌==◌, leb, ltb, any, length,
}
use troxe_host.Common.Int.{ℤ, pos, ◌+ℤ◌, ◌-ℤ◌}
use troxe_host.Js.{trim, split_spaces}
use troxe_host.Js.Decimal.{print}
use troxe_host.Db.{
  Db, UserRow, NodeRow, LocationRow, NestRow, AllocationRow, EggRow, ServerRow, ServerStatus,
  install_pending, crashed, BackupRow, BackupStatus, building, Task, ScheduleRow, DatabaseHostRow,
  DatabaseRow, Grant, flag, group, Permissions, SubuserRow, ApiKeyRow, PreferenceRow, JobRow,
  TransferRow, server_install, backup_create, backup_delete, server_command, JobType, Payload,
}
use troxe_host.Db.Table.{find_where, update_where, delete_where, count_where, select_where}
use troxe_host.Db.Patch.{change, updates, set_all}
use troxe_host.Agent.{NodeInfo}
use troxe_host.Effects.{
  World, Env, Mail, MailKind, Exec, Failure, error, db_error, pure, throw, gets, modify, try_catch,
  on_db, fresh_id, send_mail, ◌>>=◌, ◌>>◌,
}
use troxe_host.Workers.Steps.{
  is_server, find_server, find_node, find_egg, find_owner, update_server, node_for_server,
  log_event, subject_server, number_or, should_notify,
}
use troxe_host.Workers.Queue.{add_job, references_ok}
use troxe_host.Workers.Removal.{refers, is_backup}
use troxe_host.Reply.{Reply, sent, failed}
use troxe_host.Servers.{on_server, queue_job, power_job}
use troxe_host.Auth.Keys.{Hashing, authenticate_daemon, bearer}

-- the members of a body that the code reads; an absent number is 0
pub record Report : Type 0 where
  pub allocated_memory_mb : Option ℕ
  pub allocated_disk_mb : Option ℕ
  pub crashed_servers : List Text

abbrev or_zero : Option ℕ → ℕ
or_zero none = 0
or_zero (some n) = n

-- `UPDATE nodes SET last_heartbeat_at = now(), status = 'online', …`
unfoldable pub note_report : Text → Report → ℕ → Db → Db
note_report node_id report now db = record db {
  nodes =
      update_where (λ n. text_eq n.id node_id)
        (λ n. record n {
          last_heartbeat_at = some now;
          online = true;
          allocated_memory_mb = pos (or_zero report.allocated_memory_mb);
          allocated_disk_mb = pos (or_zero report.allocated_disk_mb);
        })
        db.nodes;
}

abbrev pub is_crashed : ServerStatus → Bool
is_crashed crashed = true
is_crashed _ = false

abbrev pub is_placed_at : Text → Text → ServerRow → Bool
is_placed_at id node_id s = text_eq s.id id && text_eq s.node_id node_id

-- `UPDATE servers SET status = 'crashed', … WHERE id = $1 AND status != 'crashed'`
unfoldable pub note_crash : Text → ℕ → Db → Db
note_crash id now db = record db {
  servers =
      update_where (λ s. is_server id s && not (is_crashed s.status))
        (λ s. record s {
          status = crashed;
          crash_count = s.crash_count + 1;
          last_crashed_at = some now;
        })
        db.servers;
}

unfoldable pub notify_crashed :
    Env → Text → Db → Option ServerRow → Option UserRow → Exec (Unit {0})
notify_crashed env id db (some s) (some owner) =
    if should_notify env (λ p. p.email_on_crash) owner.id db
    then send_mail (record { kind = MailKind.crashed; to = owner.email; about = s.name })
    else pure tt
notify_crashed env id db _ _ = pure tt

-- the statements for a reported server that stands on the node
unfoldable pub report_found : Env → Text → Option ServerRow → Exec (Unit {0})
unfolding notify_crashed note_crash modify find_owner
report_found env id none = pure tt
report_found env id (some s) = do
  now ← gets (λ w. w.clock)
  on_db (note_crash id now)
  log_event (codes "server.crashed") subject_server id
  db ← gets (λ w. w.db)
  try_catch (notify_crashed env id db (find_server id db) (find_owner id db)) (λ err. pure tt)

-- the loop over `crashed_servers`
unfoldable pub report_crashes : Env → Text → List Text → Exec (Unit {0})
unfolding report_found
report_crashes env node_id [] = pure tt
report_crashes env node_id (id ∷ ids) = do
  found ← gets (λ w. find_where (is_placed_at id node_id) w.db.servers)
  report_found env id found
  report_crashes env node_id ids

unfoldable pub report_on : Env → Report → NodeRow → Exec (Reply (Unit {0}))
unfolding report_crashes note_report modify
report_on env report n = do
  now ← gets (λ w. w.clock)
  on_db (note_report n.id report now)
  report_crashes env n.id report.crashed_servers
  pure (sent tt)

-- the texts of the two refusals
abbrev refusal : Option Text → Text
refusal none = codes "Daemon token required"
refusal (some token) = codes "Invalid daemon token"

unfoldable pub heartbeat_from :
    Env → Hashing → Option Text → Report → Option NodeRow → Exec (Reply (Unit {0}))
unfolding report_on bearer
heartbeat_from env h header report none = pure (failed 401 (refusal (bearer header)))
heartbeat_from env h header report (some n) = report_on env report n

-- `POST /remote/heartbeat`, with the header of the request
unfoldable pub heartbeat : Env → Hashing → Option Text → Report → Exec (Reply (Unit {0}))
unfolding heartbeat_from authenticate_daemon
heartbeat env h header report = do
  found ← gets (λ w. authenticate_daemon h header w.db)
  heartbeat_from env h header report found
