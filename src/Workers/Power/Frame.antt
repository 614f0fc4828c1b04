-- ===== src/Workers/Power/Frame.antt =====
-- The power jobs of a server keep what `Stable` allows.
use troxe_host.Common.{Text, Option, none, some}
use troxe_host.Db.{Db, ServerRow, NodeRow}
use troxe_host.Agent.{NodeInfo, AgentResponse, accepted, refused}
use troxe_host.Effects.{Env}
use troxe_host.Effects.Keeps.{Keeps}
use troxe_host.Workers.Frame.{Stable, OnDb, step_rules}
use troxe_host.Workers.Power.{
  crash, finish_start, after_create, after_start, start_server, finish_stop, stop_server,
  kill_server, finish_restart, recreate_if_untracked, create_found, restart_server,
}

module _ {id : Text} {Q : Db → Type 0} (stable : Stable id Q) where
  finish_start-Keeps : (resp : AgentResponse) → Keeps (OnDb Q) (finish_start id resp)
  unfolding finish_start crash
  finish_start-Keeps (accepted d) = search step_rules
  finish_start-Keeps (refused status e) = search step_rules

  after_create-Keeps :
      (env : Env) (node : NodeInfo) (resp : AgentResponse)
      → Keeps (OnDb Q) (after_create env node id resp)
  unfolding after_create crash
  after_create-Keeps env node (accepted d) = search (step_rules, finish_start-Keeps)
  after_create-Keeps env node (refused status e) = search step_rules

  after_start-Keeps :
      (env : Env) (node : NodeInfo) (srv : ServerRow) (resp : AgentResponse)
      → Keeps (OnDb Q) (after_start env node id srv resp)
  unfolding after_start
  after_start-Keeps env node srv (accepted d) = finish_start-Keeps (accepted d)
  after_start-Keeps env node srv (refused status e) =
      search (step_rules, finish_start-Keeps, after_create-Keeps)

  pub start_server-Keeps : (env : Env) → Keeps (OnDb Q) (start_server env id)
  unfolding start_server
  start_server-Keeps env = search (step_rules, after_start-Keeps)

  finish_stop-Keeps :
      (what : Text) (resp : AgentResponse) → Keeps (OnDb Q) (finish_stop what id resp)
  unfolding finish_stop
  finish_stop-Keeps what (accepted d) = search step_rules
  finish_stop-Keeps what (refused status e) = search step_rules

  pub stop_server-Keeps : (env : Env) → Keeps (OnDb Q) (stop_server env id)
  unfolding stop_server
  stop_server-Keeps env = search (step_rules, finish_stop-Keeps)

  pub kill_server-Keeps : (env : Env) → Keeps (OnDb Q) (kill_server env id)
  unfolding kill_server
  kill_server-Keeps env = search (step_rules, finish_stop-Keeps)

  finish_restart-Keeps : (resp : AgentResponse) → Keeps (OnDb Q) (finish_restart id resp)
  unfolding finish_restart crash
  finish_restart-Keeps (accepted d) = search step_rules
  finish_restart-Keeps (refused status e) = search step_rules

  create_found-Keeps :
      (env : Env) (node : NodeInfo) (found : Option (ServerRow × NodeRow))
      → Keeps (OnDb Q) (create_found env node id found)
  unfolding create_found
  create_found-Keeps env node none = search step_rules
  create_found-Keeps env node (some p) = search step_rules

  recreate-Keeps :
      (env : Env) (node : NodeInfo) (resp : AgentResponse)
      → Keeps (OnDb Q) (recreate_if_untracked env node id resp)
  unfolding recreate_if_untracked
  recreate-Keeps env node (accepted d) = search step_rules
  recreate-Keeps env node (refused status e) = search (step_rules, create_found-Keeps)

  pub restart_server-Keeps : (env : Env) → Keeps (OnDb Q) (restart_server env id)
  unfolding restart_server
  restart_server-Keeps env = search (step_rules, recreate-Keeps, finish_restart-Keeps) depth 14
