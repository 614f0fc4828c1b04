-- ===== src/Tests/Jobs.antt =====
-- The jobs of the worker, on the small panel.
use troxe_host.Common.{none, some, inr, codes, refl, ◌≡◌, ◌≢◌, text_eq, false}
use troxe_host.Db.{running, crashed, server_start, server_stop, server_install, BackupRow}
use troxe_host.Db.Table.{find_where}
use troxe_host.Effects.{QueuedJob}
use troxe_host.Workers.Steps.{find_server}
use troxe_host.Workers.Power.{start_server, stop_server, restart_server}
use troxe_host.Workers.Power.Outcomes.{Ends, start_server-Ends, restart_server-Ends}
use troxe_host.Workers.Install.{create_selected}
use troxe_host.Workers.Install.Outcomes.{EndsInstall, create_selected-Ends}
use troxe_host.Workers.Install.Refused.{IsUnserved, run_install-IsUnserved}
use troxe_host.Workers.Removal.{create_backup}
use troxe_host.Workers.Removal.Laws.{BackupEnds, create_backup-BackupEnds, create_backup_unlisted}
use troxe_host.Workers.Queue.{handler, run_job, is_job, begin_job}
use troxe_host.Workers.Queue.Frame.{handler-other_server}
use troxe_host.Workers.Queue.Laws.{IsNoted, run_job-IsNoted}
use troxe_host.Tests.{texts_apart, world, up, down, placed, payload, job, backup}

abbrev queued : QueuedJob
queued = record { job_id = codes "j1"; type = server_start; payload = payload }

job_there : find_where (is_job (codes "j1")) world.db.jobs ≡ some job
unfolding find_where text_eq
job_there = refl

start_handled : handler down server_start payload ≡ some (start_server down (codes "s1"))
unfolding handler
start_handled = refl

stop_handled : handler up server_stop payload ≡ some (stop_server up (codes "s1"))
unfolding handler
stop_handled = refl

run_job-IsNoted_example :
    IsNoted
      (codes "j1")
      job
      600000
      (start_server down (codes "s1") (begin_job (codes "j1") world).1).0
      (run_job down queued world)
run_job-IsNoted_example =
    run_job-IsNoted down queued world job (start_server down (codes "s1")) job_there start_handled

apart : text_eq (codes "s1") (codes "s2") ≡ false
unfolding text_eq
apart = refl

other_id : codes "s1" ≢ codes "s2"
other_id = texts_apart (codes "s1") (codes "s2") apart

handler-other_server_example :
    find_server (codes "s2") (stop_server up (codes "s1") world).1.db
    ≡ find_server (codes "s2") world.db
handler-other_server_example =
    handler-other_server up server_stop payload (stop_server up (codes "s1")) (codes "s2") world
      other_id stop_handled

start_server-Ends_example : Ends (codes "s1") running crashed (start_server down (codes "s1") world)
start_server-Ends_example = start_server-Ends down (codes "s1") world placed

restart_server-Ends_example :
    Ends (codes "s1") running crashed (restart_server up (codes "s1") world)
restart_server-Ends_example = restart_server-Ends up (codes "s1") world placed

create_selected-Ends_example :
    EndsInstall (codes "s1") (create_selected up (codes "s1") (some 25566) world)
create_selected-Ends_example = create_selected-Ends up (codes "s1") (some 25566) world placed

abbrev installing_job : QueuedJob
installing_job = record { job_id = codes "j1"; type = server_install; payload = payload }

run_install-IsUnserved_example :
    IsUnserved up (codes "j1") job world (run_job up installing_job world)
run_install-IsUnserved_example =
    run_install-IsUnserved up installing_job world job job_there placed (inr refl)

backup_there :
    find_where (λ (b : BackupRow). text_eq b.id (codes "b1")) world.db.backups ≡ some backup
unfolding find_where text_eq
backup_there = refl

create_backup-BackupEnds_example :
    BackupEnds (codes "b1") (create_backup up (codes "b1") (codes "s1") world)
create_backup-BackupEnds_example =
    create_backup-BackupEnds up (codes "b1") (codes "s1") world backup_there placed

backup_missing : find_where (λ (b : BackupRow). text_eq b.id (codes "b2")) world.db.backups ≡ none
unfolding find_where text_eq
backup_missing = refl

create_backup_unlisted_example :
    (create_backup up (codes "b2") (codes "s1") world).1.db.backups ≡ world.db.backups
create_backup_unlisted_example =
    create_backup_unlisted up (codes "b2") (codes "s1") world backup_missing placed
