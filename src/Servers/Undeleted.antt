-- ===== src/Servers/Undeleted.antt =====
-- What becomes of a server that `DELETE /servers/:id` of panel/src/api/routes/servers.ts accepted, once
-- the worker of panel/src/workers/index.ts takes the job.
use troxe_host.Common.{
  ℕ, Bool, true, Option, some, List, [], ◌∷◌, ◌++◌, Text, text_eq_refl, ◌≡◌, refl, ◌∙◌, ap, any,
  Bool-cases, inl, inr,
}
use troxe_host.Db.{Db, ServerRow, NodeRow, JobRow, server_delete}
use troxe_host.Db.Table.{find_where, update_where}
use troxe_host.Effects.{World, Env, QueuedJob, ok, thrown, db_error, gets, modify, pure, ◌>>=◌}
use troxe_host.Reply.{sent}
use troxe_host.Workers.Steps.{is_server, find_server}
use troxe_host.Workers.Tables.{IsPlaced}
use troxe_host.Workers.Removal.{refers, delete_server}
use troxe_host.Workers.Removal.Laws.{delete_server-IsRefused}
use troxe_host.Workers.Queue.{handler, begin_job, run_job, references_ok, is_job}
use troxe_host.Workers.Queue.Adding.{add_job_lem, with_job}
use troxe_host.Workers.Queue.Laws.{run_job_lem}
use troxe_host.Servers.{on_server, delete_found, delete_route, release, free, subtract_resources}
use troxe_host.Servers.Create.Laws.{find_node-release}

abbrev names : Text → JobRow → Bool
names id j = refers id j.server_id

any-last :
    (p : JobRow → Bool) (rows : List JobRow) (r : JobRow)
    → p r ≡ true
    → any p (rows ++ r ∷ []) ≡ true
any-last p [] r h = rw h refl
any-last p (x ∷ rows) r h = elim (Bool-cases (p x)) [
  | inl hit ↦ rw hit refl
  | inr miss ↦ rw miss (any-last p rows r h)
]

any-update_where :
    (p q : JobRow → Bool) (f : JobRow → JobRow) (rows : List JobRow)
    → ((r : JobRow) → p (f r) ≡ p r)
    → any p (update_where q f rows) ≡ any p rows
unfolding update_where
any-update_where p q f [] keep = refl
any-update_where p q f (r ∷ rows) keep = elim (Bool-cases (q r)) [
  | inl hit ↦ rw (hit, keep r, any-update_where p q f rows keep) refl
  | inr miss ↦ rw (miss, any-update_where p q f rows keep) refl
]

-- a server's own delete job names it, also once the job has begun
begun-names :
    (env : Env) (c : ℕ) (id job_id : Text) (at_node : Option Text) (w : World)
    → any
        (names (c ∷ id))
        (begin_job job_id (with_job env server_delete (on_server (c ∷ id)) at_node w)).1.db.jobs
      ≡ true
unfolding begin_job gets modify ◌>>=◌
begun-names env c id job_id at_node w =
    any-update_where (names (c ∷ id)) (is_job job_id) _ _ (λ r. refl)
    ∙ any-last (names (c ∷ id)) w.db.jobs _ (text_eq_refl (c ∷ id))

abbrev released : ServerRow → World → World
released s w = record w { db = release s w.db }

released_there :
    (c : ℕ) (id : Text) (s : ServerRow) (w : World)
    → find_server (c ∷ id) w.db ≡ some s
    → find_server (c ∷ id) (released s w).db ≡ some s
unfolding find_server release free subtract_resources
released_there c id s w h = h

still_there :
    (env : Env) (c : ℕ) (id job_id : Text) (after : Db) (s : ServerRow) (w : World)
    → (let queued : World =
          with_job env server_delete (on_server (c ∷ id)) (some s.node_id) (released s w) in
        after.servers ≡ (begin_job job_id queued).1.db.servers)
    → find_server (c ∷ id) w.db ≡ some s
    → find_server (c ∷ id) after ≡ some s
unfolding find_server release free subtract_resources begin_job gets modify ◌>>=◌
still_there env c id job_id after s w same h = ap (find_where (is_server (c ∷ id))) same ∙ h

released_known :
    (c : ℕ) (id : Text) (w : World) {s : ServerRow} {n : NodeRow}
    → IsPlaced (c ∷ id) w.db s n
    → references_ok (some (c ∷ id)) (some s.node_id) (released s w).db ≡ true
unfolding references_ok
released_known c id w {s} p =
    rw (released_there c id s w p.server, find_node-release s w.db p.node) refl

-- the route, where the server and its node are there
delete_route_lem :
    (env : Env) (c : ℕ) (id : Text) (w : World) {s : ServerRow} {n : NodeRow}
    → IsPlaced (c ∷ id) w.db s n
    → delete_route env (c ∷ id) w ≡ (
      ok (sent tt),
      with_job env server_delete (on_server (c ∷ id)) (some s.node_id) (released s w),
    )
unfolding delete_route delete_found gets modify pure ◌>>=◌
delete_route_lem env c id w {s} p =
    let known = released_known c id w p in
    rw
      (
        p.server,
        add_job_lem env server_delete (on_server (c ∷ id)) (some s.node_id) (released s w) known,
      )
      refl

-- A server that is there with its node, under an id that is not empty, is not deleted at the request:
-- the route answers that all went well and adds one job to the queue, and the worker that then takes
-- this job throws the error of a foreign key and leaves the row of the server as it was.
pub delete_route-undone :
    (env : Env) (c : ℕ) (id : Text) (w : World) {s : ServerRow} {n : NodeRow}
    → IsPlaced (c ∷ id) w.db s n
    → let (answer, after) = delete_route env (c ∷ id) w in
      let job : QueuedJob = record {
        job_id = env.new_id w.next_id;
        type = server_delete;
        payload = on_server (c ∷ id);
      } in
      let (result, ran) = run_job env job after in
      (answer ≡ ok (sent tt))
      × (after.queue ≡ w.queue ++ job ∷ [])
      × (result ≡ thrown (db_error env.foreign_key_error))
      × (find_server (c ∷ id) ran.db ≡ some s)
unfolding handler
delete_route-undone env c id w {s} p =
    let job : QueuedJob = record {
      job_id = env.new_id w.next_id;
      type = server_delete;
      payload = on_server (c ∷ id);
    } in
    let after : World =
      with_job env server_delete (on_server (c ∷ id)) (some s.node_id) (released s w) in
    let (refused, same) =
      delete_server-IsRefused env (c ∷ id) (begin_job job.job_id after).1
        (begun-names env c id job.job_id (some s.node_id) (released s w)) in
    let (as_handled, servers, _, _) = run_job_lem env job after (delete_server env (c ∷ id)) refl in
    rw (delete_route_lem env c id w p) (
      refl,
      refl,
      as_handled ∙ refused,
      still_there env c id job.job_id (run_job env job after).1.db s w
          (servers ∙ ap (λ db. db.servers) same) p.server,
    )
