-- ===== src/Db/Places.antt =====
-- Nodes with their allocations, eggs in their nests, and the hosts of databases.
use troxe_host.Common.{ℕ, Bool, Option, Text}
use troxe_host.Common.Int.{ℤ}

pub record NodeRow : Type 0 where
  pub id : Text
  pub name : Text
  pub fqdn : Text
  pub public_ip : Text
  pub location_id : Text
  pub private_ip : Option Text
  pub total_memory_mb : ℕ
  pub total_disk_mb : ℕ
  pub maintenance_mode : Bool
  pub daemon_token_id : Text
  pub daemon_token_hash : Text
  pub daemon_listen_port : ℕ
  pub allocated_memory_mb : ℤ
  pub allocated_disk_mb : ℤ
  pub online : Bool
  pub last_heartbeat_at : Option ℕ

pub record LocationRow : Type 0 where
  pub id : Text
  pub name : Text
  pub description : Option Text

pub record NestRow : Type 0 where
  pub id : Text
  pub name : Text
  pub description : Option Text

pub record AllocationRow : Type 0 where
  pub id : Text
  pub node_id : Text
  pub ip : Text
  pub port : ℕ
  pub server_id : Option Text
  pub allocated_at : Option ℕ

pub record EggRow : Type 0 where
  pub id : Text
  pub name : Text
  pub nest_id : Text
  pub docker_image : Text
  pub startup_command : Text
  pub install_script : Option Text
  pub max_databases : ℕ
  pub max_allocations : ℕ
  pub max_backups : ℕ
  pub default_memory_mb : ℕ
  pub default_disk_mb : ℕ
  pub default_cpu_percent : ℕ
  pub default_pid_limit : ℕ

pub record DatabaseHostRow : Type 0 where
  pub id : Text
  pub name : Text
  pub host : Text
  pub port : ℕ
  pub username : Text
  pub password_hash : Text
  pub max_databases : ℕ
