-- ===== src/Db.antt =====
-- The PostgreSQL tables of panel/src/db/migrations that the modelled code reads and writes. A table
-- is the list of its rows in the order of insertion. Columns that no modelled code uses are left
-- out. Money-like counts stay exact; `cpu_percent`, a DECIMAL(5,2), is counted in hundredths.
pub mod Table
mod People
mod Places
mod Hosted
mod Queued
pub use People.*
pub use Places.*
pub use Hosted.*
pub use Queued.*
pub mod Patch
pub mod Counting
use troxe_host.Common.{ℕ, Bool, Option, List, [], Text}
use troxe_host.Common.Int.{ℤ}

pub record Db : Type 0 where
  pub users : List UserRow
  pub nodes : List NodeRow
  pub allocations : List AllocationRow
  pub eggs : List EggRow
  pub locations : List LocationRow
  pub nests : List NestRow
  pub database_hosts : List DatabaseHostRow
  pub databases : List DatabaseRow
  pub servers : List ServerRow
  pub backups : List BackupRow
  pub schedules : List ScheduleRow
  pub subusers : List SubuserRow
  pub api_keys : List ApiKeyRow
  pub preferences : List PreferenceRow
  pub jobs : List JobRow
  pub transfers : List TransferRow
  pub stats : List StatsRow
  pub events : List EventRow
  pub activity : List ActivityRow

abbrev pub empty_db : Db
empty_db = record {
  users = [];
  nodes = [];
  allocations = [];
  eggs = [];
  locations = [];
  nests = [];
  database_hosts = [];
  databases = [];
  servers = [];
  backups = [];
  schedules = [];
  subusers = [];
  api_keys = [];
  preferences = [];
  jobs = [];
  transfers = [];
  stats = [];
  events = [];
  activity = [];
}
