-- ===== src/Workers/Queue/Frame.antt =====
-- What every job leaves alone: the rows of the other servers, and the table of jobs.
use mathlib.Core.Option.{some-injective}
use mathlib.Core.Path.{subst}
use troxe_host.Common.{
  Text, Option, some, List, ◌≡◌, ◌≢◌, refl, ◌∙◌, text_eq, text_eq_iff, Bool-cases, inl, inr,
}
use troxe_host.Db.{
  Db, ServerRow, JobRow, JobType, Payload, server_create, server_install, server_start, server_stop,
  server_kill, server_restart, server_delete, server_command, backup_create, backup_delete, unknown,
}
use troxe_host.Db.Table.{find_where-delete_where_ne}
use troxe_host.Effects.{World, Env, Exec}
use troxe_host.Effects.Keeps.{Keeps}
use troxe_host.Workers.Steps.{is_server, find_server, update_server}
use troxe_host.Workers.Tables.{find_server-update_server_ne}
use troxe_host.Workers.Frame.{Stable, OnDb}
use troxe_host.Workers.Power.Frame.{
  start_server-Keeps, stop_server-Keeps, kill_server-Keeps, restart_server-Keeps,
}
use troxe_host.Workers.Install.Frame.{create_server-Keeps, install_server-Keeps}
use troxe_host.Workers.Removal.{drop_server}
use troxe_host.Workers.Removal.Frame.{
  delete_server-Keeps, send_command-Keeps, create_backup-Keeps, delete_backup-Keeps,
}
use troxe_host.Workers.Queue.{handler}

-- a part of the table of jobs, and the row of a server
abbrev pub SameJobs : List JobRow → Db → Type 0
SameJobs jobs db = db.jobs ≡ jobs

abbrev pub SameServer : Text → Option ServerRow → Db → Type 0
SameServer other row db = find_server other db ≡ row

Stable-SameJobs : (id : Text) (jobs : List JobRow) → Stable id (SameJobs jobs)
unfolding update_server drop_server
Stable-SameJobs id jobs = record {
  status = λ s db h. h;
  installed = λ now db h. h;
  events = λ es db h. h;
  backups = λ bs db h. h;
  drop = λ db h. h;
}

find_server-drop_server_ne :
    (id other : Text) (db : Db)
    → id ≢ other
    → find_server other (drop_server id db) ≡ find_server other db
unfolding find_server drop_server
find_server-drop_server_ne id other db apart =
    find_where-delete_where_ne (is_server other) (is_server id) db.servers λ r hit.
      elim (Bool-cases (text_eq r.id other)) [
        | inl same ↦
            absurd (apart (cc ((text_eq_iff r.id id).0 hit, (text_eq_iff r.id other).0 same)))
        | inr miss ↦ miss
      ]

Stable-SameServer :
    (id other : Text) (row : Option ServerRow) → id ≢ other → Stable id (SameServer other row)
Stable-SameServer id other row apart = record {
  status = λ s db h. find_server-update_server_ne id other _ db apart (λ r. refl) ∙ h;
  installed = λ now db h. find_server-update_server_ne id other _ db apart (λ r. refl) ∙ h;
  events = λ es db h. unfold find_server in h;
  backups = λ bs db h. unfold find_server in h;
  drop = λ db h. find_server-drop_server_ne id other db apart ∙ h;
}

adopt : {P : World → Type 0} {m run : Exec (Unit {0})} → some m ≡ some run → Keeps P m → Keeps P run
adopt {P} {m} {run} e k = subst (Keeps P) (some-injective m run e) k

module _ {Q : Db → Type 0} (env : Env) (p : Payload) (stable : Stable p.server_id Q) where
  handler-Keeps :
      (type : JobType) (run : Exec (Unit {0})) → handler env type p ≡ some run → Keeps (OnDb Q) run
  unfolding handler
  handler-Keeps server_create run e = adopt e (create_server-Keeps stable env)
  handler-Keeps server_install run e = adopt e (install_server-Keeps stable env)
  handler-Keeps server_start run e = adopt e (start_server-Keeps stable env)
  handler-Keeps server_stop run e = adopt e (stop_server-Keeps stable env)
  handler-Keeps server_kill run e = adopt e (kill_server-Keeps stable env)
  handler-Keeps server_restart run e = adopt e (restart_server-Keeps stable env)
  handler-Keeps server_delete run e = adopt e (delete_server-Keeps stable env)
  handler-Keeps server_command run e = adopt e (send_command-Keeps stable env p.command)
  handler-Keeps backup_create run e = adopt e (create_backup-Keeps stable env p.backup_id)
  handler-Keeps backup_delete run e = adopt e (delete_backup-Keeps stable env p.backup_id)
  handler-Keeps (unknown name) run e = cc

-- No job of one server changes the row of another, whether it returns or throws.
pub handler-other_server :
    (env : Env) (type : JobType) (p : Payload) (run : Exec (Unit {0})) (other : Text) (w : World)
    → p.server_id ≢ other
    → handler env type p ≡ some run
    → find_server other (run w).1.db ≡ find_server other w.db
unfolding OnDb
handler-other_server env type p run other w apart e =
    (handler-Keeps env p (Stable-SameServer p.server_id other (find_server other w.db) apart) type
        run e).at
      w refl

-- No handler of a job writes to the table of jobs.
pub jobs-handler :
    (env : Env) (type : JobType) (p : Payload) (run : Exec (Unit {0})) (w : World)
    → handler env type p ≡ some run
    → (run w).1.db.jobs ≡ w.db.jobs
unfolding OnDb
jobs-handler env type p run w e =
    (handler-Keeps env p (Stable-SameJobs p.server_id w.db.jobs) type run e).at w refl
