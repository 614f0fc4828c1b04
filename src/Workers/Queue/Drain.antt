-- ===== src/Workers/Queue/Drain.antt =====
-- What becomes of a queue that the worker runs to its end.
use mathlib.Core.Option
use mathlib.Core.Path.{subst}
use troxe_host.Common.{
  arith, ℕ, Bool, true, false, Option, some, List, [], ◌∷◌, Text, text_eq, text_eq_iff, ◌≡◌, refl,
  sym, ◌∙◌, ap, Bool-cases, Option-cases, inl, inr, All, is_some,
}
use troxe_host.Db.{JobRow, JobStatus}
use troxe_host.Db.Table.{find_where, update_where, find_where-update_where_ne}
use troxe_host.Db.Counting.{All-map}
use troxe_host.Effects.{
  World, Env, QueuedJob, Exec, Result, ok, thrown, gets, modify, throw, handle, continue, try_catch,
  ◌>>=◌,
}
use troxe_host.Workers.Queue.{
  handler, is_job, run_job, run_known, begin_job, run_handler, note_completed, note_failed,
}
use troxe_host.Workers.Queue.Frame.{jobs-handler}
use troxe_host.Workers.Queue.Laws.{IsNoted, run_job-IsNoted}

-- the jobs of the queue, one after the other
abbrev pub drain : Env → List QueuedJob → World → World
drain env [] w = w
drain env (job ∷ rest) w = drain env rest (run_job env job w).1

abbrev is_finished : JobStatus → Bool
is_finished JobStatus.completed = true
is_finished JobStatus.failed = true
is_finished _ = false

-- a row whose job has ended
abbrev pub IsSettled : World → Text → Type 0
IsSettled w id =
    Option.map (λ (j : JobRow). is_finished j.status) (find_where (is_job id) w.db.jobs) ≡ some true

-- a job that has a row, and whose type has a handler
abbrev pub IsReady : Env → World → QueuedJob → Type 0
IsReady env w job =
    (is_some (find_where (is_job job.job_id) w.db.jobs) ≡ true)
    × (is_some (handler env job.type job.payload) ≡ true)

other_row :
    (id other : Text) (f : JobRow → JobRow) (jobs : List JobRow)
    → text_eq id other ≡ false
    → ((r : JobRow) → (f r).id ≡ r.id)
    → find_where (is_job other) (update_where (is_job id) f jobs) ≡ find_where (is_job other) jobs
other_row id other f jobs apart keep =
    find_where-update_where_ne (is_job other) (is_job id) f jobs (λ r hit.
      let miss : text_eq r.id other ≡ false =
        ap (λ x. text_eq x other) ((text_eq_iff r.id id).0 hit) ∙ apart in
      (ap (λ x. text_eq x other) (keep r) ∙ miss, miss))

finish-other :
    (id other : Text) (r : Result (Unit {0})) (w : World)
    → text_eq id other ≡ false
    → find_where
        (is_job other)
        (handle (note_failed id) (continue r (λ _. note_completed id) w)).1.db.jobs
      ≡ find_where (is_job other) w.db.jobs
unfolding note_completed note_failed gets throw modify ◌>>=◌
finish-other id other (ok _) w apart = other_row id other _ w.db.jobs apart (λ r. refl)
finish-other id other (thrown e) w apart = other_row id other _ w.db.jobs apart (λ r. refl)

run_known-other :
    (id other : Text) (run : Exec (Unit {0})) (w : World)
    → text_eq id other ≡ false
    → ((v : World) → (run v).1.db.jobs ≡ v.db.jobs)
    → find_where (is_job other) (run_known id run w).1.db.jobs ≡ find_where (is_job other) w.db.jobs
unfolding run_known run_handler gets modify ◌>>=◌ try_catch
run_known-other id other run w apart keeps =
    let begun : World = (begin_job id w).1 in
    finish-other id other (run begun).0 (run begun).1 apart
    ∙ ap (find_where (is_job other)) (keeps begun)
    ∙ other_row id other _ w.db.jobs apart (λ r. refl)

run_job-other :
    (env : Env) (job : QueuedJob) (other : Text) (w : World) (run : Exec (Unit {0}))
    → handler env job.type job.payload ≡ some run
    → text_eq job.job_id other ≡ false
    → find_where (is_job other) (run_job env job w).1.db.jobs ≡ find_where (is_job other) w.db.jobs
unfolding run_job
run_job-other env job other w run handled apart =
    rw (handled, run_job)
      (run_known-other job.job_id other run w apart
        (λ v. jobs-handler env job.type job.payload run v handled))

noted-IsSettled :
    (id : Text) (j : JobRow) (began : ℕ) (handled : Result (Unit {0}))
    (r : Result (Unit {0}) × World)
    → IsNoted id j began handled r
    → IsSettled r.1 id
noted-IsSettled id j began (ok _) r (_, h) = rw h refl
noted-IsSettled id j began (thrown e) r (_, h) = rw h refl

abbrev HasRow : World → Text → Type 0
HasRow w id = is_some (find_where (is_job id) w.db.jobs) ≡ true

settled-HasRow : (w : World) (id : Text) → IsSettled w id → HasRow w id
settled-HasRow w id h = elim (Option-cases (find_where (is_job id) w.db.jobs)) [
  | inl missing ↦ ground (arith, missing, h)
  | inr (j, there) ↦ rw there refl
]

run_job-IsSettled :
    (env : Env) (job : QueuedJob) (w : World)
    → IsReady env w job
    → IsSettled (run_job env job w).1 job.job_id
run_job-IsSettled env job w (row, known) =
    elim (Option-cases (find_where (is_job job.job_id) w.db.jobs)) [
      | inl missing ↦ ground (arith, missing, row)
      | inr (j, there) ↦ elim (Option-cases (handler env job.type job.payload)) [
        | inl none_there ↦ ground (arith, none_there, known)
        | inr (run, handled) ↦
            noted-IsSettled job.job_id j w.clock _ (run_job env job w)
              (run_job-IsNoted env job w j run there handled)
      ]
    ]

-- what holds of the row of the job that runs, and of the rows that its run leaves alone
run_job-cases :
    (P : Option JobRow → Type 0) (env : Env) (job : QueuedJob) (other : Text) (w : World)
    → IsReady env w job
    → (IsSettled (run_job env job w).1 other
        → P (find_where (is_job other) (run_job env job w).1.db.jobs))
    → P (find_where (is_job other) w.db.jobs)
    → P (find_where (is_job other) (run_job env job w).1.db.jobs)
run_job-cases P env job other w (row, known) settled before =
    elim (Bool-cases (text_eq job.job_id other)) [
      | inl same ↦ settled (
          subst (IsSettled (run_job env job w).1) ((text_eq_iff job.job_id other).0 same)
            (run_job-IsSettled env job w (row, known)))
      | inr apart ↦ elim (Option-cases (handler env job.type job.payload)) [
        | inl none_there ↦ ground (arith, none_there, known)
        | inr (run, handled) ↦
            subst P (sym (run_job-other env job other w run handled apart)) before
      ]
    ]

keeps-HasRow :
    (env : Env) (job : QueuedJob) (other : Text) (w : World)
    → IsReady env w job
    → HasRow w other
    → HasRow (run_job env job w).1 other
keeps-HasRow env job other w ready h =
    run_job-cases (λ o. is_some o ≡ true) env job other w ready
      (settled-HasRow (run_job env job w).1 other) h

drain-keeps :
    (env : Env) (jobs : List QueuedJob) (w : World) (id : Text)
    → All (IsReady env w) jobs
    → IsSettled w id
    → IsSettled (drain env jobs w) id
drain-keeps env [] w id ready h = h
drain-keeps env (job ∷ rest) w id (first, later) h =
    drain-keeps env rest (run_job env job w).1 id
      (All-map (IsReady env w) (IsReady env (run_job env job w).1) rest
        (λ (j : QueuedJob) (row, known). (keeps-HasRow env job j.job_id w first row, known)) later)
      (run_job-cases (λ o. Option.map (λ (j : JobRow). is_finished j.status) o ≡ some true) env job
        id w first (λ k. k) h)

-- Where every job of the queue has a row and a handler, then after the worker has run them one after
-- the other each of their rows says completed or failed, whatever the handlers did.
pub drain-IsSettled :
    (env : Env) (jobs : List QueuedJob) (w : World)
    → All (IsReady env w) jobs
    → All (λ (job : QueuedJob). IsSettled (drain env jobs w) job.job_id) jobs
drain-IsSettled env [] w ready = tt
drain-IsSettled env (job ∷ rest) w (first, later) =
    let after : World = (run_job env job w).1 in
    let ready : All (IsReady env after) rest =
      All-map (IsReady env w) (IsReady env after) rest
        (λ (j : QueuedJob) (row, known). (keeps-HasRow env job j.job_id w first row, known))
        later in
    (
      drain-keeps env rest after job.job_id ready (run_job-IsSettled env job w first),
      drain-IsSettled env rest after ready,
    )
