-- ===== src/Db/Queued.antt =====
-- Jobs and events.
use troxe_host.Common.{ℕ, Option, Text}

pub data JobStatus : Type 0 where
  pending active completed failed : JobStatus

-- the names under which the code adds jobs, and any other text
pub data JobType : Type 0 where
  server_create server_install server_start server_stop server_kill server_restart : JobType
  server_delete server_command backup_create backup_delete : JobType
  unknown : Text → JobType

-- the members of a job's `data` that a handler reads
pub record Payload : Type 0 where
  pub server_id : Text
  pub backup_id : Text
  pub command : Text

pub record JobRow : Type 0 where
  pub id : Text
  pub type : JobType
  pub payload : Payload
  pub status : JobStatus
  pub attempts : ℕ
  pub error : Option Text
  pub server_id : Option Text
  pub node_id : Option Text
  pub started_at : Option ℕ
  pub completed_at : Option ℕ

pub record EventRow : Type 0 where
  pub event_type : Text
  pub subject_type : Option Text
  pub subject_id : Option Text
