-- ===== src/Workers/Queue/Laws.antt =====
-- What the worker notes of a job.
use mathlib.Core.Option
use troxe_host.Common.{ℕ, ◌+◌, Text, some, List, ◌≡◌, refl, ◌∙◌, ap}
use troxe_host.Db.{JobRow, JobStatus, active}
use troxe_host.Db.Table.{find_where, update_where, find_where-update_where}
use troxe_host.Effects.{
  World, Env, QueuedJob, Result, ok, thrown, Exec, failure_text, gets, modify, try_catch, handle,
  continue, throw, ◌>>=◌,
}
use troxe_host.Workers.Queue.{
  handler, is_job, note_completed, note_failed, begin_job, run_known, run_job,
}
use troxe_host.Workers.Queue.Frame.{jobs-handler}

-- the row of a job that a run began at `began`
abbrev pub started : JobRow → ℕ → JobRow
started j began = record j { status = active; started_at = some began; attempts = j.attempts + 1 }

-- What the worker makes of the handler's own result: where the handler returned, the worker returns,
-- and the row is completed; where it threw, the worker throws the same, and the row is failed with
-- the text of the error. Either way one more attempt is counted.
abbrev pub IsNoted : Text → JobRow → ℕ → Result (Unit {0}) → Result (Unit {0}) × World → Type 0
IsNoted id j began (ok _) (r, w) =
    (r ≡ ok tt)
    × (find_where (is_job id) w.db.jobs
        ≡ some (record (started j began) {
          status = JobStatus.completed;
          completed_at = some w.clock;
        }))
IsNoted id j began (thrown e) (r, w) =
    (r ≡ thrown e)
    × (find_where (is_job id) w.db.jobs
        ≡ some
            (record (started j began) { status = JobStatus.failed; error = some (failure_text e) }))

find-update_job :
    (id : Text) (f : JobRow → JobRow) (jobs : List JobRow) {j : JobRow}
    → ((r : JobRow) → (f r).id ≡ r.id)
    → find_where (is_job id) jobs ≡ some j
    → find_where (is_job id) (update_where (is_job id) f jobs) ≡ some (f j)
find-update_job id f jobs keep h =
    find_where-update_where (is_job id) f jobs (λ r k. rw (keep r) k) ∙ ap (Option.map f) h

finish-IsNoted :
    (id : Text) (j : JobRow) (began : ℕ) (r : Result (Unit {0})) (w : World)
    → find_where (is_job id) w.db.jobs ≡ some (started j began)
    → IsNoted id j began r (handle (note_failed id) (continue r (λ _. note_completed id) w))
unfolding note_completed note_failed gets throw modify ◌>>=◌
finish-IsNoted id j began (ok _) w h = (refl, find-update_job id _ w.db.jobs (λ r. refl) h)
finish-IsNoted id j began (thrown e) w h = (refl, find-update_job id _ w.db.jobs (λ r. refl) h)

run_known-IsNoted :
    (id : Text) (run : Exec (Unit {0})) (w : World) (j : JobRow)
    → find_where (is_job id) w.db.jobs ≡ some j
    → ((v : World) → (run v).1.db.jobs ≡ v.db.jobs)
    → IsNoted id j w.clock (run (begin_job id w).1).0 (run_known id run w)
unfolding run_known gets modify ◌>>=◌ try_catch
run_known-IsNoted id run w j there keeps =
    let begun : World = (begin_job id w).1 in
    finish-IsNoted id j w.clock (run begun).0 (run begun).1
      (rw (keeps begun) (find-update_job id _ w.db.jobs (λ r. refl) there))

-- A worker that takes a job with a row and a handler runs the handler once the row is active. Where
-- the handler returns, the worker returns and the row is completed; where it throws, the worker
-- throws the same error and the row is failed with its text. Either way one more attempt is counted.
pub run_job-IsNoted :
    (env : Env) (job : QueuedJob) (w : World) (j : JobRow) (run : Exec (Unit {0}))
    → find_where (is_job job.job_id) w.db.jobs ≡ some j
    → handler env job.type job.payload ≡ some run
    → IsNoted job.job_id j w.clock (run (begin_job job.job_id w).1).0 (run_job env job w)
unfolding run_job
run_job-IsNoted env job w j run there handled =
    rw (handled, run_job)
      (run_known-IsNoted job.job_id run w j there
        (λ v. jobs-handler env job.type job.payload run v handled))

finish_lem :
    (id : Text) (r : Result (Unit {0})) (w : World)
    → let (s, after) = handle (note_failed id) (continue r (λ _. note_completed id) w) in
      (s ≡ r)
      × (after.db.servers ≡ w.db.servers)
      × (after.db.backups ≡ w.db.backups)
      × (after.calls ≡ w.calls)
unfolding note_completed note_failed gets throw modify ◌>>=◌
finish_lem id (ok _) w = (refl, refl, refl, refl)
finish_lem id (thrown e) w = (refl, refl, refl, refl)

-- the worker returns or throws as the handler does, writes neither servers nor backups itself, and
-- calls no agent itself
pub run_job_lem :
    (env : Env) (job : QueuedJob) (w : World) (run : Exec (Unit {0}))
    → handler env job.type job.payload ≡ some run
    → let (r, after) = run_job env job w in
      let (s, ran) = run (begin_job job.job_id w).1 in
      (r ≡ s)
      × (after.db.servers ≡ ran.db.servers)
      × (after.db.backups ≡ ran.db.backups)
      × (after.calls ≡ ran.calls)
unfolding run_job run_known ◌>>=◌ try_catch begin_job gets modify
run_job_lem env job w run handled =
    let begun : World = (begin_job job.job_id w).1 in
    rw (handled, run_job) (finish_lem job.job_id (run begun).0 (run begun).1)
