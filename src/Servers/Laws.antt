-- ===== src/Servers/Laws.antt =====
-- What the routes of one server do to the queue and to the totals of its node.

use troxe_host.Common.{
  ℕ, Option, some, [], ◌∷◌, ◌++◌, Text, text_eq, ◌≡◌, refl, ◌∙◌, ap, if◌then◌else◌, Bool-cases, inl,
  inr,
}
use troxe_host.Common.Int.{pos, ◌-ℤ◌}
use troxe_host.Db.{Db, ServerRow, NodeRow, JobType, server_start, server_delete, Payload}
use troxe_host.Db.Table.{find_where}
use troxe_host.Effects.{
  World, Env, Result, ok, thrown, continue, pure, throw, gets, modify, fresh_id, ◌>>=◌,
}
use troxe_host.Workers.Steps.{is_server, find_server, find_node}
use troxe_host.Workers.Queue.{add_job, references_ok, or_null}
use troxe_host.Servers.Create.Laws.{find_node-release}
use troxe_host.Reply.{sent}
use troxe_host.Servers.{
  on_server, is_running, start_found, start_route, delete_found, delete_route, release, free,
  subtract_resources,
}

-- The start route of a server that is there adds one start job to the queue, and leaves the queue as
-- it was where the server is running or starting.
pub start_route-queue :
    (env : Env) (c : ℕ) (id : Text) (w : World) {s : ServerRow}
    → find_server (c ∷ id) w.db ≡ some s
    → (start_route env (c ∷ id) w).1.queue ≡ (
        if is_running s.status
        then w.queue
        else w.queue
          ++ record {
            job_id = env.new_id w.next_id;
            type = server_start;
            payload = on_server (c ∷ id);
          }
            ∷ [])
unfolding start_route start_found add_job references_ok gets modify pure throw fresh_id ◌>>=◌
start_route-queue env c id w {s} there = elim (Bool-cases (is_running s.status)) [
  | inl runs ↦ rw (there, runs) refl
  | inr idle ↦ rw (there, idle, there) refl
]

-- adding a job touches neither the nodes nor the servers
module _ (env : Env) (type : JobType) (p : Payload) (at_node : Option Text) (w : World) where
  nodes-add_job : (add_job env type p at_node w).1.db.nodes ≡ w.db.nodes
  unfolding add_job gets modify pure throw fresh_id ◌>>=◌
  nodes-add_job = elim (Bool-cases (references_ok (or_null p.server_id) at_node w.db)) [
    | inl there ↦ rw there refl
    | inr gone ↦ rw gone refl
  ]

  servers-add_job : (add_job env type p at_node w).1.db.servers ≡ w.db.servers
  unfolding add_job gets modify pure throw fresh_id ◌>>=◌
  servers-add_job = elim (Bool-cases (references_ok (or_null p.server_id) at_node w.db)) [
    | inl there ↦ rw there refl
    | inr gone ↦ rw gone refl
  ]

state_of_continue :
    {A B : Type 0} (b : B) (r : Result A) (w : World) → (continue r (λ _. pure b) w).1 ≡ w
unfolding pure
state_of_continue b (ok a) w = refl
state_of_continue b (thrown e) w = refl

delete_route_state :
    (env : Env) (id : Text) (w : World) {s : ServerRow}
    → find_server id w.db ≡ some s
    → ((delete_route env id w).1.db.nodes ≡ (release s w.db).nodes)
      × ((delete_route env id w).1.db.servers ≡ w.db.servers)
unfolding delete_route delete_found gets modify release free subtract_resources ◌>>=◌
delete_route_state env id w {s} there =
    let released : World = record w { db = release s w.db } in
    let (r, after) = add_job env server_delete (on_server id) (some s.node_id) released in
    let same = state_of_continue (sent tt) r after in
    rw there (
      ap (λ (v : World). v.db.nodes) same
          ∙ nodes-add_job env server_delete (on_server id) (some s.node_id) released,
      ap (λ (v : World). v.db.servers) same
          ∙ servers-add_job env server_delete (on_server id) (some s.node_id) released,
    )

-- what is left of a node's totals after the deletion of a server
abbrev pub without : ServerRow → NodeRow → NodeRow
without s n = record n {
  allocated_memory_mb = n.allocated_memory_mb -ℤ pos s.memory_mb;
  allocated_disk_mb = n.allocated_disk_mb -ℤ pos s.disk_mb;
}

delete_route_node :
    (env : Env) (id : Text) (w : World) {s : ServerRow} {n : NodeRow}
    → find_server id w.db ≡ some s
    → find_node s.node_id w.db ≡ some n
    → find_node s.node_id (delete_route env id w).1.db ≡ some (without s n)
unfolding find_node
delete_route_node env id w {s} there placed =
    ap (find_where (λ n. text_eq n.id s.node_id)) (delete_route_state env id w there).0
    ∙ find_node-release s w.db placed

still_there :
    (id : Text) (db before : Db) {s : ServerRow}
    → db.servers ≡ before.servers
    → find_server id before ≡ some s
    → find_server id db ≡ some s
unfolding find_server
still_there id db before same there = ap (find_where (is_server id)) same ∙ there

-- Where the delete route of a server runs twice with no job in between, the memory and the disk of
-- the server are taken off the totals of its node twice.
pub delete_route_twice :
    (env : Env) (id : Text) (w : World) {s : ServerRow} {n : NodeRow}
    → find_server id w.db ≡ some s
    → find_node s.node_id w.db ≡ some n
    → find_node s.node_id (delete_route env id (delete_route env id w).1).1.db
      ≡ some (without s (without s n))
delete_route_twice env id w {s} there placed =
    delete_route_node env id (delete_route env id w).1
      (still_there id (delete_route env id w).1.db w.db (delete_route_state env id w there).1 there)
      (delete_route_node env id w there placed)
