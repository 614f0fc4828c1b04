-- ===== src/Tests/Rows.antt =====
-- The tables behind the routes, on the small panel.
use troxe_host.Common.{
  arith, ◌≤◌, true, false, some, none, List, [], ◌∷◌, ◌++◌, codes, refl, ◌≡◌, ◌≢◌, text_eq, All,
  Bool-cases, inl, inr, ◌⊎◌,
}
use troxe_host.Db.{ServerRow, DatabaseHostRow, ScheduleRow, server_start, running, backup_delete}
use troxe_host.Db.Table.{find_where, count_where, select_where}
use troxe_host.Effects.{World, QueuedJob, ok, pure, ◌>>◌}
use troxe_host.Reply.{sent}
use troxe_host.Workers.Steps.{is_server, find_server, find_node}
use troxe_host.Workers.Removal.{is_backup}
use troxe_host.Workers.Queue.{handler, run_job}
use troxe_host.Workers.Queue.Drain.{drain, IsSettled, IsReady, drain-IsSettled}
use troxe_host.Scheduler.Runs.{is_schedule, execute_schedule}
use troxe_host.Servers.Schedules.{run_route}
use troxe_host.Servers.Schedules.Laws.{run_route-execute_schedule}
use troxe_host.Servers.Backups.{delete_route}
use troxe_host.Servers.Backups.Scope.{delete_route-any, deletion}
use troxe_host.Servers.Settings.{SettingsBody, update_route}
use troxe_host.Servers.Settings.Laws.{IsAstray, update_route-unaccounted}
use troxe_host.Servers.Accounts.{IsOnly}
use troxe_host.Servers.Files.{read_file, write_file}
use troxe_host.Servers.Files.Laws.{AreInside, Requests, reads, writes, Requests-AreInside}
use troxe_host.Servers.Databases.{load, by_load, has_room, choose_host, create_database}
use troxe_host.Servers.Databases.Choice.{choose_host-least}
use troxe_host.Servers.Databases.Capacity.{IsWithin, here, created, Use-IsWithin}
use troxe_host.Admin.Heartbeat.{report_crashes}
use troxe_host.Admin.Heartbeat.Laws.{IsDistinct, noted, report_crashes-noted}
use troxe_host.Statistics.{status_text, is_running, tick}
use troxe_host.Statistics.Laws.{tick-other}
use troxe_host.Events.{called, handlers_of}
use troxe_host.Events.Laws.{Call, registers, unregisters, performed, promised, called-promised}
use troxe_host.Tests.{site, server, backup, payload, db, world, up, texts_apart}
use troxe_host.Tests.Runs.{balanced, balanced-IsAccounted, second}

abbrev queued : QueuedJob
queued = record { job_id = codes "j1"; type = server_start; payload = payload }

queued-IsReady : IsReady up world queued
unfolding find_where text_eq handler
queued-IsReady = (refl, refl)

drain-IsSettled_example :
    All (λ (j : QueuedJob). IsSettled (drain up (queued ∷ []) world) j.job_id) (queued ∷ [])
drain-IsSettled_example = drain-IsSettled up (queued ∷ []) world (queued-IsReady, tt)

abbrev hourly : ScheduleRow
hourly = record {
  id = codes "c1";
  server_id = codes "s1";
  name = codes "hourly";
  cron_expression = codes "0 * * * *";
  is_active = true;
  tasks =
      record { type = codes "power"; payload = codes "restart" }
      ∷ record { type = codes "backup"; payload = [] }
      ∷ [];
  last_run_at = none;
}

abbrev planned : World
planned = record world { db = record db { schedules = hourly ∷ [] } }

hourly_there : find_where (is_schedule (codes "c1")) planned.db.schedules ≡ some hourly
unfolding find_where text_eq
hourly_there = refl

run_route-execute_schedule_example :
    run_route up (codes "c1") planned ≡ (do execute_schedule up hourly; pure (sent hourly)) planned
run_route-execute_schedule_example = run_route-execute_schedule up planned hourly_there

-- a second server, which has no backup
abbrev pair : World
pair = record world { db = record db { servers = server ∷ second ∷ [] } }

second_there : find_server (codes "s2") pair.db ≡ some second
unfolding find_server find_where text_eq
second_there = refl

backup_there : find_where (is_backup (codes "b1")) pair.db.backups ≡ some backup
unfolding find_where text_eq
backup_there = refl

abbrev deleting : QueuedJob
deleting = record {
  job_id = codes "new";
  type = backup_delete;
  payload = deletion (codes "s2") (codes "b1");
}

delete_route-any_example :
    ((delete_route up (codes "s2") (codes "b1") pair).0 ≡ ok (sent tt))
    × ((delete_route up (codes "s2") (codes "b1") pair).1.queue ≡ deleting ∷ [])
    × (find_where
          (is_backup (codes "b1"))
          (run_job up deleting (delete_route up (codes "s2") (codes "b1") pair).1).1.db.backups
        ≡ none)
delete_route-any_example =
    delete_route-any up (codes "s2") (codes "b1") pair second_there backup_there

abbrev accounted : World
accounted = record world { db = balanced }

abbrev doubled : SettingsBody
doubled = record {
  name = none;
  startup = none;
  environment = none;
  memory_mb = some 2048;
  disk_mb = none;
  cpu_percent = none;
  pid_limit = none;
}

sole_server : IsOnly (codes "s1") server accounted.db.servers
unfolding find_where count_where text_eq
sole_server = (refl, refl)

site_there : find_node (codes "n1") accounted.db ≡ some site
unfolding find_node find_where text_eq
site_there = refl

more : 2048 ≢ server.memory_mb
more e = omega (arith, e)

update_route-unaccounted_example :
    IsAstray (codes "s1") 2048 accounted.db (update_route (codes "s1") doubled accounted).1.db
update_route-unaccounted_example =
    update_route-unaccounted (codes "s1") doubled accounted 2048 sole_server site_there refl more
      balanced-IsAccounted

abbrev host : DatabaseHostRow
host = record {
  id = codes "h1";
  name = codes "main";
  host = codes "db.x";
  port = 3306;
  username = codes "root";
  password_hash = codes "secret";
  max_databases = 1;
}

abbrev full_host : DatabaseHostRow
full_host = record host { id = codes "h2"; name = codes "full"; max_databases = 0 }

abbrev hosting : World
hosting = record world { db = record db { database_hosts = full_host ∷ host ∷ [] } }

chosen : choose_host hosting.db ≡ some host
unfolding choose_host by_load load find_where count_where text_eq
chosen = refl

choose_host-least_example :
    (has_room hosting.db host ≡ true)
    × All
        (λ r. (has_room hosting.db r ≡ false) ⊎ (load hosting.db host ≤ load hosting.db r))
        hosting.db.database_hosts
choose_host-least_example = choose_host-least hosting.db chosen

world-AreInside : AreInside world
world-AreInside = record { calls = tt }

Requests-AreInside_example :
    AreInside
      (write_file up
        (codes "s1")
        (codes "../x")
        (codes "y")
        (read_file up (codes "s1") (codes "a.txt") world).1).1
Requests-AreInside_example = Requests-AreInside world-AreInside (
    writes (codes "s1") (codes "../x") (codes "y")
      (reads (codes "s1") (codes "a.txt") Requests.here))

-- the small panel, with its server running and a second one stopped
abbrev busy : World
busy = record world {
  db = record db { servers = record server { status = running } ∷ second ∷ [] };
}

server_apart : text_eq (codes "s1") (codes "s2") ≡ false
unfolding text_eq
server_apart = refl

running_rows_apart :
    All (λ (s : ServerRow). s.id ≢ codes "s2") (select_where is_running busy.db.servers)
unfolding select_where status_text text_eq
running_rows_apart = (texts_apart (codes "s1") (codes "s2") server_apart, tt)

tick-other_example :
    find_server
      (codes "s2")
      (tick up (record { takes = λ t. true; overflow = codes "numeric field overflow" }) busy).1.db
    ≡ find_server (codes "s2") busy.db
tick-other_example =
    tick-other up (record { takes = λ t. true; overflow = codes "numeric field overflow" })
      (codes "s2") busy running_rows_apart

hosts_apart : text_eq (codes "h2") (codes "h1") ≡ false
unfolding text_eq
hosts_apart = refl

apart : codes "h2" ≢ codes "h1"
apart = texts_apart (codes "h2") (codes "h1") hosts_apart

host-IsWithin : IsWithin host hosting
unfolding load count_where
host-IsWithin = record { alone = ((λ e. absurd (apart e)), ((λ e. refl), tt)); few = omega arith }

Use-IsWithin_example :
    IsWithin host
      (create_database up (λ h short. true) (codes "s1") (codes "00ff") (codes "pass") hosting).1
Use-IsWithin_example =
    Use-IsWithin host host-IsWithin (created (codes "s1") (codes "00ff") (codes "pass") here)

once : IsDistinct world.db.servers
unfolding count_where
once id = elim (Bool-cases (text_eq server.id id)) [
  | inl same ↦ rw same (omega arith)
  | inr other ↦ rw other (omega arith)
]

server_there : find_where (is_server (codes "s1")) world.db.servers ≡ some server
unfolding find_where text_eq
server_there = refl

report_crashes-noted_example :
    find_where
      (is_server (codes "s1"))
      (report_crashes up (codes "n1") (codes "s1" ∷ codes "s1" ∷ []) world).1.db.servers
    ≡ some (noted (codes "n1") (codes "s1" ∷ codes "s1" ∷ []) 600000 server)
report_crashes-noted_example =
    report_crashes-noted up (codes "n1") (codes "s1" ∷ codes "s1" ∷ []) world (codes "s1") once
      server_there

-- two handlers of an event and one of every event, of which one goes and one was never there
abbrev registrations : List Call
registrations =
    unregisters (codes "e") 4
    ∷ unregisters (codes "e") 1
    ∷ registers (codes "*") 2
    ∷ registers (codes "e") 1
    ∷ registers (codes "e") 3
    ∷ []

called-promised_example :
    called (codes "e") (performed registrations [])
    ≡ promised registrations (λ e. []) (codes "e") ++ promised registrations (λ e. []) (codes "*")
unfolding handlers_of
called-promised_example = called-promised registrations [] (codes "e")
