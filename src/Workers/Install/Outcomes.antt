-- ===== src/Workers/Install/Outcomes.antt =====
-- How the install jobs end.
use mathlib.Core.Option
use troxe_host.Common.{
  ℕ, Option, none, some, List, [], ◌∷◌, ◌++◌, Text, ◌≡◌, refl, ◌∙◌, ap, Bool-cases, inl, inr,
}
use troxe_host.Db.{Db, ServerRow, UserRow, NodeRow, installing, install_failed, running}
use troxe_host.Agent.{
  NodeInfo, PortBinding, AgentCall, start, remove, AgentResponse, accepted, refused,
}
use troxe_host.Effects.{
  World, Env, Mail, MailKind, Result, ok, thrown, Failure, throw, pure, gets, ◌>>=◌, send_mail,
}
use troxe_host.Effects.Runs.{bind-ok, try_catch-ok}
use troxe_host.Workers.Steps.{
  set_status, find_server, find_owner, should_notify, notify_installed, notify_owner, agent_post,
  find_egg, log_event,
}
use troxe_host.Workers.Tables.{
  set_status_lem, require_placed-ok, require_server-ok, require_node-ok, info, after_update,
  status_of, agent_post-bind, gets-bind, set_status-bind, mark_installed-bind, asked,
  find_server-update_server, IsPlaced, update_server-IsPlaced,
}
use troxe_host.Workers.Install.{
  fail_install, run_script, script_of, after_final, script_and_final, after_create, create_selected,
  ports_of, after_start, after_install_create, install_selected,
}

-- running since `now`
abbrev pub IsInstalled : Text → World → Type 0
IsInstalled id w =
    (r : ServerRow) × (find_server id w.db ≡ some r)
    × (r.status ≡ running)
    × (r.installed_at ≡ some w.clock)

-- What a run of an install job leaves: a server that is installed where it returned, and one that
-- failed to install where it threw.
abbrev pub EndsInstall : Text → Result (Unit {0}) × World → Type 0
EndsInstall id (ok _, w) = IsInstalled id w
EndsInstall id (thrown _, w) = status_of id w.db ≡ some install_failed

abbrev pub IsThere : Text → World → Type 0
IsThere id w = (s : ServerRow) × (find_server id w.db ≡ some s)

abbrev installed_mail : UserRow → Text → Mail
installed_mail owner name = record { kind = MailKind.installed; to = owner.email; about = name }

-- the mail changes the outbox alone, and does not throw
notify_owner_lem :
    (env : Env) (name : Text) (db : Db) (owner : Option UserRow) (w : World)
    → (sent : List Mail) × (notify_owner env name db owner w ≡ (ok tt, record w { outbox = sent }))
unfolding notify_owner pure send_mail
notify_owner_lem env name db none w = (w.outbox, refl)
notify_owner_lem env name db (some owner) w =
    elim (Bool-cases (should_notify env (λ p. p.email_on_install) owner.email db)) [
      | inl wanted ↦ (w.outbox ++ installed_mail owner name ∷ [], rw wanted)
      | inr unwanted ↦ (w.outbox, rw unwanted)
    ]

notify_installed_lem :
    (env : Env) (id name : Text) (w : World)
    → (sent : List Mail) × (notify_installed env id name w ≡ (ok tt, record w { outbox = sent }))
unfolding notify_installed gets ◌>>=◌
notify_installed_lem env id name w = notify_owner_lem env name w.db (find_owner id w.db) w

mark_installed_lem :
    (id : Text) (w : World) {s : ServerRow}
    → find_server id w.db ≡ some s
    → IsInstalled id
        (after_update id (λ r. record r { status = running; installed_at = some w.clock }) w)
mark_installed_lem id w {s} h = (
  record s { status = running; installed_at = some w.clock },
  find_server-update_server id _ w.db (λ r. refl) ∙ ap (Option.map _) h,
  refl,
  refl,
)

-- the event and the outbox are not read
log_event-Ends :
    (id event subject : Text) (sent : List Mail) (w : World)
    → IsInstalled id w
    → EndsInstall id (log_event event subject id (record w { outbox = sent }))
unfolding log_event find_server
log_event-Ends id event subject sent w h = h

fail_install-Ends :
    (id : Text) (e : Failure) (w : World) → IsThere id w → EndsInstall id (fail_install id e w)
unfolding fail_install set_status throw ◌>>=◌ find_server
fail_install-Ends id e w (s, h) = set_status_lem id install_failed w.db.servers h

after_final-Ends :
    (env : Env) (node : NodeInfo) (id : Text) (srv : ServerRow) (event : Text)
    (resp : AgentResponse) (w : World)
    → IsThere id w
    → EndsInstall id (after_final env node id srv event resp w)
unfolding after_final
after_final-Ends env node id srv event (refused status e) w h = fail_install-Ends id _ w h
after_final-Ends env node id srv event (accepted d) w (s, h) =
    agent_post-bind (EndsInstall id) env node id start _ (
      mark_installed-bind (EndsInstall id) id _ _ (
        let marked : World =
          after_update id (λ r. record r { status = running; installed_at = some w.clock })
            (asked node id start w) in
        let (sent, e) = notify_installed_lem env id srv.name marked in
        bind-ok (EndsInstall id) _ _ tt (record marked { outbox = sent }) (try_catch-ok _ _ tt _ e)
          (log_event-Ends id event _ sent marked
            (mark_installed_lem id (asked node id start w) h))))

run_script_lem :
    (env : Env) (node : NodeInfo) (id script : Text) (w : World)
    → (calls : List AgentCall) × (run_script env node id script w
        ≡ (ok tt, record w { calls = calls }))
unfolding run_script agent_post pure ◌>>=◌
run_script_lem env node id [] w = (w.calls, refl)
run_script_lem env node id (c ∷ script) w = (_, refl)

script_and_final-Ends :
    (env : Env) (node : NodeInfo) (id : Text) (srv : ServerRow) (ports : List PortBinding)
    (event : Text) (w : World)
    → IsThere id w
    → EndsInstall id (script_and_final env node id srv ports event w)
unfolding script_and_final
script_and_final-Ends env node id srv ports event w h = gets-bind (EndsInstall id) _ _ (
    let (calls, e) = run_script_lem env node id (script_of (find_egg srv.egg_id w.db)) w in
    bind-ok (EndsInstall id) _ _ tt (record w { calls = calls }) e
      (agent_post-bind (EndsInstall id) env node id remove _ (
        agent_post-bind (EndsInstall id) env node id _ _
          (after_final-Ends env node id srv event _ _ h))))

after_create-Ends :
    (env : Env) (node : NodeInfo) (id : Text) (srv : ServerRow) (ports : List PortBinding)
    (resp : AgentResponse) (w : World)
    → IsThere id w
    → EndsInstall id (after_create env node id srv ports resp w)
unfolding after_create
after_create-Ends env node id srv ports (refused status e) w h = fail_install-Ends id _ w h
after_create-Ends env node id srv ports (accepted d) w h =
    agent_post-bind (EndsInstall id) env node id start _
      (script_and_final-Ends env node id srv ports _ _ h)

-- The steps of a create job behind its SELECT, for any port that it would give: for a server whose row
-- and whose node are there they end with the server running, with the time of the install, where they
-- return, and with the server failed to install where they throw, whatever the agent answers.
pub create_selected-Ends :
    (env : Env) (id : Text) (inside : Option ℕ) (w : World) {s : ServerRow} {n : NodeRow}
    → IsPlaced id w.db s n
    → EndsInstall id (create_selected env id inside w)
unfolding create_selected ports_of
create_selected-Ends env id inside w {s} {n} p =
    let set : ServerRow → ServerRow = λ r. record r { status = installing } in
    let q = update_server-IsPlaced set (λ r. refl) (λ r. refl) p in
    bind-ok (EndsInstall id) _ _ s w (require_placed-ok id w p) (
      gets-bind (EndsInstall id) _ _ (
        set_status-bind (EndsInstall id) id installing _ w (
          bind-ok (EndsInstall id) _ _ (info n) (after_update id set w) (require_node-ok id _ q) (
            agent_post-bind (EndsInstall id) env (info n) id remove _ (
              agent_post-bind (EndsInstall id) env (info n) id _ _
                (after_create-Ends env (info n) id s _ _ _ (set s, q.server)))))))

after_start-Ends :
    (env : Env) (node : NodeInfo) (id : Text) (srv : ServerRow) (ports : List PortBinding)
    (resp : AgentResponse) (w : World)
    → IsThere id w
    → EndsInstall id (after_start env node id srv ports resp w)
unfolding after_start
after_start-Ends env node id srv ports (refused status e) w h = fail_install-Ends id _ w h
after_start-Ends env node id srv ports (accepted d) w h =
    script_and_final-Ends env node id srv ports _ w h

after_install_create-Ends :
    (env : Env) (node : NodeInfo) (id : Text) (srv : ServerRow) (ports : List PortBinding)
    (resp : AgentResponse) (w : World)
    → IsThere id w
    → EndsInstall id (after_install_create env node id srv ports resp w)
unfolding after_install_create
after_install_create-Ends env node id srv ports (refused status e) w h = fail_install-Ends id _ w h
after_install_create-Ends env node id srv ports (accepted d) w h =
    agent_post-bind (EndsInstall id) env node id start _
      (after_start-Ends env node id srv ports _ _ h)

-- The steps of an install job behind its SELECT, for any port that it would give: for a server whose
-- row and whose node are there they end with the server running, with the time of the install, where
-- they return, and with the server failed to install where they throw, whatever the agent answers.
pub install_selected-Ends :
    (env : Env) (id : Text) (inside : Option ℕ) (w : World) {s : ServerRow} {n : NodeRow}
    → IsPlaced id w.db s n
    → EndsInstall id (install_selected env id (info n) inside w)
unfolding install_selected ports_of
install_selected-Ends env id inside w {s} {n} p =
    bind-ok (EndsInstall id) _ _ s w (require_server-ok id w p) (
      gets-bind (EndsInstall id) _ _ (
        agent_post-bind (EndsInstall id) env (info n) id remove _ (
          agent_post-bind (EndsInstall id) env (info n) id _ _
            (after_install_create-Ends env (info n) id s _ _ _ (s, p.server)))))
