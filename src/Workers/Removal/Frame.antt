-- ===== src/Workers/Removal/Frame.antt =====
-- The jobs of Removal.antt keep what `Stable` allows.
use troxe_host.Common.{Text, Option, none, some, [], ◌∷◌}
use troxe_host.Db.{Db, ServerRow, UserRow}
use troxe_host.Agent.{NodeInfo, AgentResponse, accepted, refused}
use troxe_host.Effects.{Env, modify}
use troxe_host.Effects.Keeps.{Keeps}
use troxe_host.Workers.Frame.{Stable, OnDb, step_rules}
use troxe_host.Workers.Removal.{
  drop_server, delete_server_row, remove_container, notify_removed, delete_server, finish_command,
  send_command, finish_backup, create_backup, delete_on, delete_file, delete_backup_row,
  delete_backup,
}

module _ {id : Text} {Q : Db → Type 0} (stable : Stable id Q) where
  drop_server-Keeps : Keeps (OnDb Q) (modify (λ w. record w { db = drop_server id w.db }))
  unfolding OnDb modify
  drop_server-Keeps = record { at = λ w h. stable.drop w.db h }

  delete_server_row-Keeps : (env : Env) → Keeps (OnDb Q) (delete_server_row env id)
  unfolding delete_server_row
  delete_server_row-Keeps env = search (step_rules, drop_server-Keeps)

  remove_container-Keeps :
      (env : Env) (node : Option NodeInfo) → Keeps (OnDb Q) (remove_container env id node)
  unfolding remove_container
  remove_container-Keeps env none = search step_rules
  remove_container-Keeps env (some n) = search step_rules

  notify_removed-Keeps :
      (env : Env) (found : Option (ServerRow × UserRow)) → Keeps (OnDb Q) (notify_removed env found)
  unfolding notify_removed
  notify_removed-Keeps env none = search step_rules
  notify_removed-Keeps env (some (srv, owner)) = search step_rules

  pub delete_server-Keeps : (env : Env) → Keeps (OnDb Q) (delete_server env id)
  unfolding delete_server
  delete_server-Keeps env =
      search (step_rules, remove_container-Keeps, delete_server_row-Keeps, notify_removed-Keeps)
        depth 12

  finish_command-Keeps : (resp : AgentResponse) → Keeps (OnDb Q) (finish_command id resp)
  unfolding finish_command
  finish_command-Keeps (accepted d) = search step_rules
  finish_command-Keeps (refused status e) = search step_rules

  pub send_command-Keeps : (env : Env) (text : Text) → Keeps (OnDb Q) (send_command env id text)
  unfolding send_command
  send_command-Keeps env text = search (step_rules, finish_command-Keeps)

  finish_backup-Keeps :
      (backup_id : Text) (resp : AgentResponse) → Keeps (OnDb Q) (finish_backup backup_id resp)
  unfolding finish_backup
  finish_backup-Keeps backup_id (accepted d) = search step_rules
  finish_backup-Keeps backup_id (refused status e) = search step_rules

  pub create_backup-Keeps :
      (env : Env) (backup_id : Text) → Keeps (OnDb Q) (create_backup env backup_id id)
  unfolding create_backup
  create_backup-Keeps env backup_id = search (step_rules, finish_backup-Keeps)

  delete_on-Keeps :
      (env : Env) (filename : Text) (node : Option NodeInfo)
      → Keeps (OnDb Q) (delete_on env id filename node)
  unfolding delete_on
  delete_on-Keeps env filename none = search step_rules
  delete_on-Keeps env filename (some n) = search step_rules

  delete_file-Keeps : (env : Env) (path : Option Text) → Keeps (OnDb Q) (delete_file env id path)
  unfolding delete_file
  delete_file-Keeps env none = search step_rules
  delete_file-Keeps env (some []) = search step_rules
  delete_file-Keeps env (some (c ∷ path)) = search (step_rules, delete_on-Keeps)

  delete_backup_row-Keeps : (backup_id : Text) → Keeps (OnDb Q) (delete_backup_row backup_id)
  unfolding delete_backup_row OnDb
  delete_backup_row-Keeps backup_id = record { at = λ w h. stable.backups _ w.db h }

  pub delete_backup-Keeps :
      (env : Env) (backup_id : Text) → Keeps (OnDb Q) (delete_backup env backup_id id)
  unfolding delete_backup
  delete_backup-Keeps env backup_id =
      search (step_rules, delete_file-Keeps, delete_backup_row-Keeps)
