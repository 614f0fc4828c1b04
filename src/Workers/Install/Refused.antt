-- ===== src/Workers/Install/Refused.antt =====
-- What becomes of the jobs `server.create` and `server.install` in the worker of
-- panel/src/workers/index.ts, with the columns of `eggs` that the migrations declare.
use mathlib.Core.Path.{subst}
use troxe_host.Common.{◌++◌, some, Text, text_eq, ◌≡◌, refl, ◌∙◌, ap, inl, inr, ◌⊎◌, codes}
use troxe_host.Db.{JobRow, JobStatus, ServerRow, NodeRow, server_create, server_install}
use troxe_host.Db.Table.{find_where}
use troxe_host.Effects.{
  World, Env, QueuedJob, Exec, Result, thrown, db_error, throw, gets, modify, ◌>>=◌,
}
use troxe_host.Workers.Steps.{find_server, find_node}
use troxe_host.Workers.Tables.{IsPlaced, require_node-ok}
use troxe_host.Workers.Install.{require_columns, create_server, install_server}
use troxe_host.Workers.Queue.{handler, begin_job, run_job, is_job}
use troxe_host.Workers.Queue.Laws.{IsNoted, run_job-IsNoted, run_job_lem, started}

-- A run that the database refused: the worker throws the error of the column, the job's row is failed
-- with its text, no server has changed, and no agent was called.
pub record IsUnserved (env : Env) (id : Text) (j : JobRow) (before : World)
    (run : Result (Unit {0}) × World) : Type 0 where
  pub result : run.0 ≡ thrown (db_error env.column_error)
  pub row :
      find_where (is_job id) run.1.db.jobs
      ≡ some (record (started j before.clock) {
        status = JobStatus.failed;
        error = some (codes "error: " ++ env.column_error);
      })
  pub servers : run.1.db.servers ≡ before.db.servers
  pub calls : run.1.calls ≡ before.calls

create_server_lem :
    (env : Env) (id : Text) (w : World)
    → create_server env id w ≡ (thrown (db_error env.column_error), w)
unfolding create_server require_columns throw text_eq ◌>>=◌
create_server_lem env id w = refl

install_server_lem :
    (env : Env) (id : Text) (w : World) {s : ServerRow} {n : NodeRow}
    → IsPlaced id w.db s n
    → install_server env id w ≡ (thrown (db_error env.column_error), w)
unfolding install_server require_columns throw text_eq ◌>>=◌
install_server_lem env id w p = rw (require_node-ok id w p) refl

begin_job-IsPlaced :
    (job_id id : Text) (w : World) {s : ServerRow} {n : NodeRow}
    → IsPlaced id w.db s n
    → IsPlaced id (begin_job job_id w).1.db s n
unfolding begin_job find_server find_node gets modify ◌>>=◌
begin_job-IsPlaced job_id id w p = record { server = p.server; node = p.node }

begun_same :
    (job_id : Text) (w : World)
    → ((begin_job job_id w).1.db.servers ≡ w.db.servers) × ((begin_job job_id w).1.calls ≡ w.calls)
unfolding begin_job gets modify ◌>>=◌
begun_same job_id w = (refl, refl)

-- a handler that throws the error of the column and changes nothing
refused-IsUnserved :
    (env : Env) (job : QueuedJob) (w : World) (j : JobRow) (run : Exec (Unit {0}))
    → find_where (is_job job.job_id) w.db.jobs ≡ some j
    → handler env job.type job.payload ≡ some run
    → run (begin_job job.job_id w).1
      ≡ (thrown (db_error env.column_error), (begin_job job.job_id w).1)
    → IsUnserved env job.job_id j w (run_job env job w)
refused-IsUnserved env job w j run there handled threw =
    let noted : IsNoted job.job_id j w.clock (thrown (db_error env.column_error))
        (run_job env job w) =
      subst (λ r. IsNoted job.job_id j w.clock r (run_job env job w)) (ap (λ x. x.0) threw)
        (run_job-IsNoted env job w j run there handled) in
    let (_, servers, _, calls) = run_job_lem env job w run handled in
    let begun = begun_same job.job_id w in
    record {
      result = noted.0;
      row = noted.1;
      servers = servers ∙ ap (λ x. x.1.db.servers) threw ∙ begun.0;
      calls = calls ∙ ap (λ x. x.1.calls) threw ∙ begun.1;
    }

-- The worker fails every create job and every install job that has a row and is of a server whose row
-- and whose node are there, since no migration declares a column that the SELECT of the job names: it
-- throws the error of the column, the job's row is failed with the text of this error and counts one
-- more attempt, the table of servers is as it was, and no agent is called.
pub run_install-IsUnserved :
    (env : Env) (job : QueuedJob) (w : World) (j : JobRow) {s : ServerRow} {n : NodeRow}
    → find_where (is_job job.job_id) w.db.jobs ≡ some j
    → IsPlaced job.payload.server_id w.db s n
    → (job.type ≡ server_create) ⊎ (job.type ≡ server_install)
    → IsUnserved env job.job_id j w (run_job env job w)
unfolding handler
run_install-IsUnserved env job w j there p (inl creates) =
    refused-IsUnserved env job w j (create_server env job.payload.server_id) there
      (ap (λ t. handler env t job.payload) creates)
      (create_server_lem env job.payload.server_id (begin_job job.job_id w).1)
run_install-IsUnserved env job w j there p (inr installs) =
    refused-IsUnserved env job w j (install_server env job.payload.server_id) there
      (ap (λ t. handler env t job.payload) installs)
      (install_server_lem env job.payload.server_id (begin_job job.job_id w).1
        (begin_job-IsPlaced job.job_id job.payload.server_id w p))
