-- ===== src/Workers/Install/Frame.antt =====
-- The install jobs of a server keep what `Stable` allows.
use troxe_host.Common.{
  ℕ, Bool-cases, inl, inr, any, text_eq, Text, Option, none, some, List, [], ◌∷◌,
}
use troxe_host.Db.{Db, ServerRow, UserRow}
use troxe_host.Agent.{NodeInfo, PortBinding, AgentResponse, accepted, refused}
use troxe_host.Effects.{Env, Failure}
use troxe_host.Effects.Keeps.{Keeps}
use troxe_host.Workers.Steps.{notify_owner, notify_installed}
use troxe_host.Workers.Frame.{Stable, OnDb, step_rules}
use troxe_host.Workers.Install.{
  fail_install, run_script, after_final, script_and_final, after_create, create_server, ports_of,
  after_start, after_install_create, install_server, require_columns, create_selected,
  install_selected,
}

module _ {id : Text} {Q : Db → Type 0} (stable : Stable id Q) where
  notify_owner-Keeps :
      (env : Env) (name : Text) (db : Db) (owner : Option UserRow)
      → Keeps (OnDb Q) (notify_owner env name db owner)
  unfolding notify_owner
  notify_owner-Keeps env name db none = search step_rules
  notify_owner-Keeps env name db (some owner) = search step_rules

  notify_installed-Keeps : (env : Env) (name : Text) → Keeps (OnDb Q) (notify_installed env id name)
  unfolding notify_installed
  notify_installed-Keeps env name = search (step_rules, notify_owner-Keeps)

  fail_install-Keeps : (e : Failure) → Keeps (OnDb Q) (fail_install id e)
  unfolding fail_install
  fail_install-Keeps e = search step_rules

  run_script-Keeps :
      (env : Env) (node : NodeInfo) (script : Text) → Keeps (OnDb Q) (run_script env node id script)
  unfolding run_script
  run_script-Keeps env node [] = search step_rules
  run_script-Keeps env node (c ∷ script) = search step_rules

  after_final-Keeps :
      (env : Env) (node : NodeInfo) (srv : ServerRow) (event : Text) (resp : AgentResponse)
      → Keeps (OnDb Q) (after_final env node id srv event resp)
  unfolding after_final
  after_final-Keeps env node srv event (refused status e) = fail_install-Keeps _
  after_final-Keeps env node srv event (accepted d) =
      search (step_rules, notify_installed-Keeps) depth 12

  script_and_final-Keeps :
      (env : Env) (node : NodeInfo) (srv : ServerRow) (ports : List PortBinding) (event : Text)
      → Keeps (OnDb Q) (script_and_final env node id srv ports event)
  unfolding script_and_final
  script_and_final-Keeps env node srv ports event =
      search (step_rules, run_script-Keeps, after_final-Keeps) depth 12

  after_create-Keeps :
      (env : Env) (node : NodeInfo) (srv : ServerRow) (ports : List PortBinding)
      (resp : AgentResponse)
      → Keeps (OnDb Q) (after_create env node id srv ports resp)
  unfolding after_create
  after_create-Keeps env node srv ports (refused status e) = fail_install-Keeps _
  after_create-Keeps env node srv ports (accepted d) = search (step_rules, script_and_final-Keeps)

  ports_of-Keeps : (srv : ServerRow) (inside : Option ℕ) → Keeps (OnDb Q) (ports_of srv inside)
  unfolding ports_of
  ports_of-Keeps srv inside = record { at = λ w h. h }

  require_columns-Keeps :
      (env : Env) (declared names : List Text) → Keeps (OnDb Q) (require_columns env declared names)
  unfolding require_columns
  require_columns-Keeps env declared [] = search step_rules
  require_columns-Keeps env declared (name ∷ names) =
      elim (Bool-cases (any (λ column. text_eq column name) declared)) [
        | inl there ↦ rw there (require_columns-Keeps env declared names)
        | inr missing ↦ rw missing (search step_rules)
      ]

  create_selected-Keeps :
      (env : Env) (inside : Option ℕ) → Keeps (OnDb Q) (create_selected env id inside)
  unfolding create_selected
  create_selected-Keeps env inside =
      search (step_rules, ports_of-Keeps, after_create-Keeps) depth 16

  pub create_server-Keeps : (env : Env) → Keeps (OnDb Q) (create_server env id)
  unfolding create_server
  create_server-Keeps env = search (step_rules, require_columns-Keeps, create_selected-Keeps)

  after_start-Keeps :
      (env : Env) (node : NodeInfo) (srv : ServerRow) (ports : List PortBinding)
      (resp : AgentResponse)
      → Keeps (OnDb Q) (after_start env node id srv ports resp)
  unfolding after_start
  after_start-Keeps env node srv ports (refused status e) = fail_install-Keeps _
  after_start-Keeps env node srv ports (accepted d) = script_and_final-Keeps env node srv ports _

  after_install_create-Keeps :
      (env : Env) (node : NodeInfo) (srv : ServerRow) (ports : List PortBinding)
      (resp : AgentResponse)
      → Keeps (OnDb Q) (after_install_create env node id srv ports resp)
  unfolding after_install_create
  after_install_create-Keeps env node srv ports (refused status e) = fail_install-Keeps _
  after_install_create-Keeps env node srv ports (accepted d) =
      search (step_rules, after_start-Keeps)

  install_selected-Keeps :
      (env : Env) (node : NodeInfo) (inside : Option ℕ)
      → Keeps (OnDb Q) (install_selected env id node inside)
  unfolding install_selected
  install_selected-Keeps env node inside =
      search (step_rules, ports_of-Keeps, after_install_create-Keeps) depth 16

  pub install_server-Keeps : (env : Env) → Keeps (OnDb Q) (install_server env id)
  unfolding install_server
  install_server-Keeps env =
      search (step_rules, require_columns-Keeps, install_selected-Keeps) depth 12
