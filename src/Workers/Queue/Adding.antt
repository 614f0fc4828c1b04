-- ===== src/Workers/Queue/Adding.antt =====
-- What `addJob` of panel/src/lib/queue.ts leaves alone.
use troxe_host.Common.{
  ℕ, ◌+◌, Option, none, List, [], ◌∷◌, ◌++◌, Text, true, ◌≡◌, refl, Bool-cases, inl, inr,
}
use troxe_host.Db.{JobRow, JobType, Payload, pending}
use troxe_host.Effects.{World, Env, QueuedJob, ok, gets, throw, modify, fresh_id, pure, ◌>>=◌}
use troxe_host.Effects.Keeps.{Keeps}
use troxe_host.Workers.Queue.{add_job, references_ok, or_null}

-- the row of a new job, and the world that holds it
abbrev pub new_job : Text → JobType → Payload → Option Text → JobRow
new_job id type payload node_id = record {
  id = id;
  type = type;
  payload = payload;
  status = pending;
  attempts = 0;
  error = none;
  server_id = or_null payload.server_id;
  node_id = node_id;
  started_at = none;
  completed_at = none;
}

abbrev pub with_job : Env → JobType → Payload → Option Text → World → World
with_job env type payload node_id w =
    let id : Text = env.new_id w.next_id in
    record w {
      db = record w.db { jobs = w.db.jobs ++ new_job id type payload node_id ∷ [] };
      queue = w.queue ++ record { job_id = id; type = type; payload = payload } ∷ [];
      next_id = w.next_id + 1;
    }

-- where the references of a job are to rows that are there, its row and the job are added
pub add_job_lem :
    (env : Env) (type : JobType) (p : Payload) (node_id : Option Text) (w : World)
    → references_ok (or_null p.server_id) node_id w.db ≡ true
    → add_job env type p node_id w ≡ (ok (env.new_id w.next_id), with_job env type p node_id w)
unfolding add_job gets modify pure ◌>>=◌ fresh_id
add_job_lem env type p node_id w known = rw known refl

-- `P` sees neither the jobs, the queue nor the counter of the ids.
abbrev pub IsQuiet : (World → Type 0) → Type 0
IsQuiet P =
    (w : World) (jobs : List JobRow) (queue : List QueuedJob) (next : ℕ)
    → P w
    → P (record w { db = record w.db { jobs = jobs }; queue = queue; next_id = next })

pub add_job-Keeps :
    {P : World → Type 0} (env : Env) (type : JobType) (p : Payload) (at_node : Option Text)
    → IsQuiet P
    → Keeps P (add_job env type p at_node)
unfolding add_job gets modify pure throw ◌>>=◌ fresh_id
add_job-Keeps env type p at_node quiet = record {
  at = λ w h. elim (Bool-cases (references_ok (or_null p.server_id) at_node w.db)) [
    | inl there ↦ rw there (quiet w _ _ _ h)
    | inr gone ↦ rw gone h
  ];
}
