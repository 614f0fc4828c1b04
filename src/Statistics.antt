-- ===== src/Statistics.antt =====
-- panel/src/services/stats-collector.ts: one tick, and the purge of old rows. The timers are not
-- modelled. The clock counts milliseconds.
pub mod Laws
use troxe_host.Common.{
  ℕ, ◌+◌, ◌*◌, Bool, true, false, not, ◌&&◌, Option, none, some, List, [], ◌∷◌, ◌++◌, Text, codes,
  text_eq, if◌then◌else◌, ltb,
}
use troxe_host.Db.{
  Db, ServerRow, ServerStatus, install_pending, installing, install_failed, starting, running,
  stopping, stopped, crashed, StatsRow,
}
use troxe_host.Db.Table.{select_where, delete_where}
use troxe_host.Agent.{NodeInfo, Sample, AgentData, AgentResponse, accepted, refused, stats}
use troxe_host.Effects.{
  World, Env, Exec, db_error, pure, throw, gets, modify, try_catch, on_db, ◌>>=◌, ◌>>◌,
}
use troxe_host.Workers.Steps.{update_server, node_for_server, agent_post}

-- The column `cpu_usage`, a DECIMAL(5,2): whether it takes a number, and the database's error for one
-- that it does not take.
pub record CpuColumn : Type 0 where
  pub takes : Text → Bool
  pub overflow : Text

-- the text of a status
unfoldable pub status_text : ServerStatus → Text
status_text install_pending = codes "install_pending"
status_text installing = codes "installing"
status_text install_failed = codes "install_failed"
status_text starting = codes "starting"
status_text running = codes "running"
status_text stopping = codes "stopping"
status_text stopped = codes "stopped"
status_text crashed = codes "crashed"

-- `["running", "stopped", "crashed"].includes(state)`
unfoldable pub reported_status : Text → Option ServerStatus
reported_status state =
    if text_eq state (codes "running")
    then some running
    else if text_eq state (codes "stopped")
    then some stopped
    else if text_eq state (codes "crashed")
    then some crashed
    else none

abbrev or_zero : Option ℕ → ℕ
or_zero none = 0
or_zero (some n) = n

abbrev pub or_text : Option Text → Text → Text
or_text none t = t
or_text (some s) t = s

-- the row of `INSERT INTO server_stats_history`
abbrev pub new_row : Text → ℕ → Sample → StatsRow
new_row id now a = record {
  server_id = id;
  memory_used = or_zero a.memory_bytes;
  cpu_usage = or_text a.cpu_absolute (codes "0");
  disk_used = or_zero a.disk_bytes;
  network_rx = or_zero a.rx_bytes;
  network_tx = or_zero a.tx_bytes;
  uptime = or_zero a.uptime;
  created_at = now;
}

unfoldable pub insert_row : CpuColumn → Text → Sample → Exec (Unit {0})
unfolding modify
insert_row c id a = do
  now ← gets (λ w. w.clock)
  if not (c.takes (or_text a.cpu_absolute (codes "0")))
      then throw (db_error c.overflow)
      else on_db (λ db. record db { stats = db.stats ++ new_row id now a ∷ [] })

-- `UPDATE servers SET status = $1`, where the agent reports another status than the row had
unfoldable pub follow_status : Text → ServerStatus → ServerStatus → Exec (Unit {0})
unfolding update_server modify
follow_status id old new =
    if text_eq (status_text new) (status_text old)
    then pure tt
    else on_db (update_server id (λ r. record r { status = new }))

unfoldable pub follow : Text → ServerStatus → Option Text → Exec (Unit {0})
unfolding follow_status
follow id old none = pure tt
follow id old (some state) = elim (reported_status state) [
  | none ↦ pure tt
  | some new ↦ follow_status id old new
]

unfoldable pub note_sample : CpuColumn → ServerRow → Option Sample → Exec (Unit {0})
unfolding insert_row follow
note_sample c s none = pure tt
note_sample c s (some a) = do insert_row c s.id a; follow s.id s.status a.state

unfoldable pub note_answer : CpuColumn → ServerRow → AgentResponse → Exec (Unit {0})
unfolding note_sample
note_answer c s (refused status e) = pure tt
note_answer c s (accepted d) = note_sample c s d.stats

unfoldable pub collect_on : Env → CpuColumn → ServerRow → Option NodeInfo → Exec (Unit {0})
unfolding note_answer
collect_on env c s none = pure tt
collect_on env c s (some node) = do resp ← agent_post env node s.id stats; note_answer c s resp

-- `collectStatsForServer`
unfoldable pub collect : Env → CpuColumn → ServerRow → Exec (Unit {0})
unfolding collect_on
collect env c s = do node ← gets (λ w. node_for_server s.id w.db); collect_on env c s node

-- the loop over the rows: an error is printed, and the next server follows
unfoldable pub collect_all : Env → CpuColumn → List ServerRow → Exec (Unit {0})
unfolding collect
collect_all env c [] = pure tt
collect_all env c (s ∷ rest) = do
  try_catch (collect env c s) (λ err. pure tt)
  collect_all env c rest

abbrev pub is_running : ServerRow → Bool
is_running s = text_eq (status_text s.status) (codes "running")

-- `tick`
unfoldable pub tick : Env → CpuColumn → Exec (Unit {0})
unfolding collect_all
tick env c = do rows ← gets (λ w. select_where is_running w.db.servers); collect_all env c rows

-- `created_at < now() - interval '7 days'`
abbrev pub is_old : ℕ → StatsRow → Bool
is_old now r = ltb (r.created_at + 7 * 86400000) now

-- `purgeOldData`
unfoldable pub purge : ℕ → Db → Db
purge now db = record db { stats = delete_where (is_old now) db.stats }
