-- ===== src/Workers/Power/Outcomes.antt =====
-- The status that each power job leaves.
use mathlib.Core.Option
use troxe_host.Common.{some, Text, codes, ◌≡◌, refl, ap, Bool-cases, Option-cases, inl, inr}
use troxe_host.Db.{ServerRow, ServerStatus, NodeRow, starting, stopping, stopped, running, crashed}
use troxe_host.Agent.{NodeInfo, start, stop, kill, AgentResponse, accepted, refused, is_untracked}
use troxe_host.Effects.{World, Env, Result, ok, thrown, throw, pure, gets, ◌>>=◌, ◌>>◌}
use troxe_host.Workers.Steps.{set_status, find_server, find_placed, agent_post, log_event}
use troxe_host.Workers.Tables.{
  set_status_lem, require_placed-ok, require_node-ok, info, after_update, status_of, IsPlaced,
  update_server-IsPlaced,
}
use troxe_host.Workers.Power.{
  crash, finish_start, after_create, after_start, start_server, finish_stop, stop_server,
  kill_server, finish_restart, recreate_if_untracked, restart_server,
}

-- What a run leaves as the status of `id`: `good` where it returned, `bad` where it threw.
abbrev pub Ends : Text → ServerStatus → ServerStatus → Result (Unit {0}) × World → Type 0
Ends id good bad (ok _, w) = status_of id w.db ≡ some good
Ends id good bad (thrown _, w) = status_of id w.db ≡ some bad

abbrev IsThere : Text → World → Type 0
IsThere id w = (s : ServerRow) × (find_server id w.db ≡ some s)

finish_start-Ends :
    (id : Text) (resp : AgentResponse) (w : World)
    → IsThere id w
    → Ends id running crashed (finish_start id resp w)
unfolding finish_start crash set_status throw ◌>>=◌ log_event find_server
finish_start-Ends id (accepted d) w (s, h) = set_status_lem id running w.db.servers h
finish_start-Ends id (refused status e) w (s, h) = set_status_lem id crashed w.db.servers h

after_create-Ends :
    (env : Env) (node : NodeInfo) (id : Text) (resp : AgentResponse) (w : World)
    → IsThere id w
    → Ends id running crashed (after_create env node id resp w)
unfolding after_create crash set_status throw ◌>>=◌ agent_post find_server
after_create-Ends env node id (accepted d) w h = finish_start-Ends id _ _ h
after_create-Ends env node id (refused status e) w (s, h) = set_status_lem id crashed w.db.servers h

after_start-Ends :
    (env : Env) (node : NodeInfo) (id : Text) (srv : ServerRow) (resp : AgentResponse) (w : World)
    → IsThere id w
    → Ends id running crashed (after_start env node id srv resp w)
unfolding after_start ◌>>=◌ agent_post
after_start-Ends env node id srv (accepted d) w h = finish_start-Ends id (accepted d) w h
after_start-Ends env node id srv (refused status e) w h = elim (Bool-cases (is_untracked e)) [
  | inl lost ↦ rw lost (after_create-Ends env node id _ _ h)
  | inr known ↦ rw known (finish_start-Ends id (refused status e) w h)
]

-- A start of a server whose row and whose node are there ends as running where it returns, and as
-- crashed where it throws, whatever the agent answers.
pub start_server-Ends :
    (env : Env) (id : Text) (w : World) {s : ServerRow} {n : NodeRow}
    → IsPlaced id w.db s n
    → Ends id running crashed (start_server env id w)
unfolding start_server set_status agent_post ◌>>=◌
start_server-Ends env id w {s} {n} p =
    let set : ServerRow → ServerRow = λ r. record r { status = starting } in
    let q = update_server-IsPlaced set (λ r. refl) (λ r. refl) p in
    rw
      (require_placed-ok id (after_update id set w) q, require_node-ok id (after_update id set w) q)
      (after_start-Ends env (info n) id (set s) _ _ (set s, q.server))

finish_stop-Ends :
    (what : Text) (id : Text) (resp : AgentResponse) (w : World)
    → status_of id w.db ≡ some stopping
    → IsThere id w
    → Ends id stopped stopping (finish_stop what id resp w)
unfolding finish_stop set_status throw ◌>>=◌ log_event find_server
finish_stop-Ends what id (accepted d) w now (s, h) = set_status_lem id stopped w.db.servers h
finish_stop-Ends what id (refused status e) w now (s, h) = elim (Bool-cases (is_untracked e)) [
  | inl lost ↦ rw lost (set_status_lem id stopped w.db.servers h)
  | inr known ↦ rw known now
]

-- A stop of a server whose row and whose node are there ends as stopped where it returns, and stays
-- stopping where it throws: a stop never leaves the server crashed.
pub stop_server-Ends :
    (env : Env) (id : Text) (w : World) {s : ServerRow} {n : NodeRow}
    → IsPlaced id w.db s n
    → Ends id stopped stopping (stop_server env id w)
unfolding stop_server set_status agent_post ◌>>=◌
stop_server-Ends env id w {s} {n} p =
    let set : ServerRow → ServerRow = λ r. record r { status = stopping } in
    let q = update_server-IsPlaced set (λ r. refl) (λ r. refl) p in
    rw (require_node-ok id (after_update id set w) q) (
      finish_stop-Ends (codes "Failed to stop server: ") id _
        (agent_post env (info n) id stop (after_update id set w)).1
        (ap (Option.map (λ (r : ServerRow). r.status)) q.server) (set s, q.server))

-- A kill of a server whose row and whose node are there ends as stopped where it returns, and stays
-- stopping where it throws, whatever the agent answers.
pub kill_server-Ends :
    (env : Env) (id : Text) (w : World) {s : ServerRow} {n : NodeRow}
    → IsPlaced id w.db s n
    → Ends id stopped stopping (kill_server env id w)
unfolding kill_server set_status agent_post ◌>>=◌
kill_server-Ends env id w {s} {n} p =
    let set : ServerRow → ServerRow = λ r. record r { status = stopping } in
    let q = update_server-IsPlaced set (λ r. refl) (λ r. refl) p in
    rw (require_node-ok id (after_update id set w) q) (
      finish_stop-Ends (codes "Failed to kill server: ") id _
        (agent_post env (info n) id kill (after_update id set w)).1
        (ap (Option.map (λ (r : ServerRow). r.status)) q.server) (set s, q.server))

finish_restart-Ends :
    (id : Text) (resp : AgentResponse) (w : World)
    → IsThere id w
    → Ends id running crashed (finish_restart id resp w)
unfolding finish_restart crash set_status throw ◌>>=◌ log_event find_server
finish_restart-Ends id (accepted d) w (s, h) = set_status_lem id running w.db.servers h
finish_restart-Ends id (refused status e) w (s, h) = set_status_lem id crashed w.db.servers h

last_start-Ends :
    (env : Env) (node : NodeInfo) (id : Text) (resp : AgentResponse) (w : World)
    → IsThere id w
    → Ends id running crashed (
        (do
          recreate_if_untracked env node id resp
          final ← agent_post env node id start
          finish_restart id final)
          w)
unfolding recreate_if_untracked agent_post gets pure ◌>>=◌
last_start-Ends env node id (accepted d) w h = finish_restart-Ends id _ _ h
last_start-Ends env node id (refused status e) w h = elim (Bool-cases (is_untracked e)) [
  | inr known ↦ rw known (finish_restart-Ends id _ _ h)
  | inl lost ↦ elim (Option-cases (find_placed id w.db)) [
    | inl gone ↦ rw (lost, gone) (finish_restart-Ends id _ _ h)
    | inr (found, e) ↦ rw (lost, e) (finish_restart-Ends id _ _ h)
  ]
]

-- A restart of a server whose row and whose node are there ends as running where it returns, and as
-- crashed where it throws, whatever the agent answers.
pub restart_server-Ends :
    (env : Env) (id : Text) (w : World) {s : ServerRow} {n : NodeRow}
    → IsPlaced id w.db s n
    → Ends id running crashed (restart_server env id w)
unfolding restart_server set_status agent_post ◌>>=◌
restart_server-Ends env id w {s} {n} p =
    let set : ServerRow → ServerRow = λ r. record r { status = starting } in
    let q = update_server-IsPlaced set (λ r. refl) (λ r. refl) p in
    rw (require_node-ok id (after_update id set w) q)
      (last_start-Ends env (info n) id _ _ (set s, q.server))
