-- ===== src/Tests.antt =====
-- A small panel for the tests: one node, one server with its owner, and two agents.
mod Jobs
mod Routes
mod Access
mod Schedules
mod Runs
mod Rows
mod Grants
use troxe_host.Common.{
  ℕ, Option, none, some, List, [], ◌∷◌, Bool, true, false, Text, codes, refl, ◌≡◌, ◌≢◌, text_eq,
  text_eq_iff,
}
use troxe_host.Common.Int.{pos}
use troxe_host.Db.{
  Db, empty_db, UserRow, NodeRow, AllocationRow, EggRow, ServerRow, stopped, BackupRow, building,
  JobRow, pending, server_start, Payload,
}
use troxe_host.Db.Table.{find_where}
use troxe_host.Agent.{accepted, refused}
use troxe_host.Effects.{World, Env}
use troxe_host.Workers.Steps.{find_server, find_node}
use troxe_host.Workers.Tables.{IsPlaced}

abbrev pub owner : UserRow
owner = record {
  id = codes "u1";
  username = codes "alice";
  email = codes "a@x";
  password_hash = codes "hashed";
  totp_secret = some (codes "base");
  totp_enabled = true;
  recovery_codes = [];
  root_admin = false;
  suspended = false;
  last_login_at = none;
  last_login_ip = none;
}

abbrev pub site : NodeRow
site = record {
  id = codes "n1";
  name = codes "first";
  fqdn = codes "n1.x";
  public_ip = codes "1.2.3.4";
  location_id = codes "l1";
  private_ip = none;
  total_memory_mb = 8192;
  total_disk_mb = 65536;
  maintenance_mode = false;
  daemon_token_id = codes "id";
  daemon_token_hash = codes "id.secret";
  daemon_listen_port = 8080;
  allocated_memory_mb = pos 1024;
  allocated_disk_mb = pos 4096;
  online = true;
  last_heartbeat_at = none;
}

abbrev pub target_site : NodeRow
target_site = record site { id = codes "n2"; name = codes "second"; fqdn = codes "n2.x" }

abbrev pub allocation : AllocationRow
allocation = record {
  id = codes "a1";
  node_id = codes "n1";
  ip = codes "1.2.3.4";
  port = 25565;
  server_id = some (codes "s1");
  allocated_at = some 5;
}

abbrev pub egg : EggRow
egg = record {
  id = codes "e1";
  name = codes "vanilla";
  nest_id = codes "g1";
  docker_image = codes "java";
  startup_command = codes "run";
  install_script = some (codes "fetch");
  max_databases = 0;
  max_allocations = 1;
  max_backups = 3;
  default_memory_mb = 1024;
  default_disk_mb = 4096;
  default_cpu_percent = 10000;
  default_pid_limit = 512;
}

abbrev pub server : ServerRow
server = record {
  id = codes "s1";
  name = codes "survival";
  node_id = codes "n1";
  owner_id = codes "u1";
  egg_id = codes "e1";
  allocation_id = some (codes "a1");
  memory_mb = 1024;
  disk_mb = 4096;
  cpu_percent = 10000;
  pid_limit = 512;
  docker_image = codes "java";
  startup_command = codes "run";
  environment = [];
  status = stopped;
  installed_at = some 5;
  crash_count = 0;
  last_crashed_at = none;
}

abbrev pub backup : BackupRow
backup = record {
  id = codes "b1";
  server_id = codes "s1";
  name = codes "daily";
  storage_path = none;
  size_bytes = none;
  status = building;
  completed_at = none;
}

abbrev pub payload : Payload
payload = record { server_id = codes "s1"; backup_id = codes "b1"; command = codes "say" }

abbrev pub job : JobRow
job = record {
  id = codes "j1";
  type = server_start;
  payload = payload;
  status = pending;
  attempts = 0;
  error = none;
  server_id = some (codes "s1");
  node_id = none;
  started_at = none;
  completed_at = none;
}

abbrev pub db : Db
db = record empty_db {
  users = owner ∷ [];
  nodes = site ∷ target_site ∷ [];
  allocations = allocation ∷ [];
  eggs = egg ∷ [];
  servers = server ∷ [];
  backups = backup ∷ [];
  jobs = job ∷ [];
}

abbrev pub world : World
world = record { db = db; calls = []; outbox = []; queue = []; clock = 600000; next_id = 0 }

-- an agent that takes every call, and one that is down
abbrev pub up : Env
up = record {
  agent = λ calls call. accepted (record {
    filename = some (codes "f");
    size = some 7;
    body = some (codes "tar");
    logs = none;
    stats = none;
  });
  new_id = λ n. codes "new";
  foreign_key_error = codes "foreign key";
  column_error = codes "column does not exist";
  notifications_enabled = true;
}

abbrev pub down : Env
down = record up { agent = λ calls call. refused 500 (codes "down") }

pub placed : IsPlaced (codes "s1") world.db server site
unfolding find_server find_node find_where text_eq
placed = record { server = refl; node = refl }

pub texts_apart : (a b : Text) → text_eq a b ≡ false → a ≢ b
texts_apart a b apart e = cc (apart, (text_eq_iff a b).1 e)
