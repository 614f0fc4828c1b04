-- ===== src/Db/Hosted.antt =====
-- Servers, and the rows that belong to one.
use troxe_host.Common.{ℕ, Bool, Option, List, Text}
use troxe_host.Db.People.{Permissions}

-- the values that the code gives to `servers.status`
pub data ServerStatus : Type 0 where
  install_pending installing install_failed starting running stopping stopped crashed : ServerStatus

pub record ServerRow : Type 0 where
  pub id : Text
  pub name : Text
  pub node_id : Text
  pub owner_id : Text
  pub egg_id : Text
  pub allocation_id : Option Text
  pub memory_mb : ℕ
  pub disk_mb : ℕ
  pub cpu_percent : ℕ
  pub pid_limit : ℕ
  pub docker_image : Text
  pub startup_command : Text
  pub environment : List (Text × Text)
  pub status : ServerStatus
  pub installed_at : Option ℕ
  pub crash_count : ℕ
  pub last_crashed_at : Option ℕ

pub data BackupStatus : Type 0 where
  building compressing completed failed : BackupStatus

pub record BackupRow : Type 0 where
  pub id : Text
  pub server_id : Text
  pub name : Text
  pub storage_path : Option Text
  pub size_bytes : Option ℕ
  pub status : BackupStatus
  pub completed_at : Option ℕ

-- a member of `schedules.tasks`; `type` and `payload` are texts as they were sent
pub record Task : Type 0 where
  pub type : Text
  pub payload : Text

pub record ScheduleRow : Type 0 where
  pub id : Text
  pub server_id : Text
  pub name : Text
  pub cron_expression : Text
  pub is_active : Bool
  pub tasks : List Task
  pub last_run_at : Option ℕ

pub record DatabaseRow : Type 0 where
  pub id : Text
  pub server_id : Text
  pub database_host_id : Text
  pub name : Text
  pub username : Text
  pub password_hash : Text

pub record SubuserRow : Type 0 where
  pub id : Text
  pub server_id : Text
  pub user_id : Text
  pub permissions : Permissions

pub data TransferStatus : Type 0 where
  pending transferring completed failed : TransferStatus

pub record TransferRow : Type 0 where
  pub id : Text
  pub server_id : Text
  pub old_node_id : Text
  pub new_node_id : Text
  pub old_allocation_id : Option Text
  pub new_allocation_id : Text
  pub status : TransferStatus
  pub error : Option Text

-- a row of `server_stats_history`; `cpu_usage` is the number's text
pub record StatsRow : Type 0 where
  pub server_id : Text
  pub memory_used : ℕ
  pub cpu_usage : Text
  pub disk_used : ℕ
  pub network_rx : ℕ
  pub network_tx : ℕ
  pub uptime : ℕ
  pub created_at : ℕ
