-- ===== src/Workers/Steps.antt =====
-- The steps that the job handlers of panel/src/workers/index.ts share: statements on `servers`, the
-- calls of the agent, the owner's preferences, and the event log.
use mathlib.Core.Option
use troxe_host.Common.{
  ℕ, ◌*◌, Bool, true, false, not, Option, none, some, List, [], ◌∷◌, ◌++◌, Text, codes, text_eq,
  ◌==◌, if◌then◌else◌,
}
use troxe_host.Db.{
  Db, ServerRow, ServerStatus, running, NodeRow, AllocationRow, EggRow, UserRow, PreferenceRow,
  EventRow,
}
use troxe_host.Db.Table.{find_where, update_where}
use troxe_host.Agent.{NodeInfo, PortBinding, ContainerSpec, Action, AgentCall, AgentResponse}
use troxe_host.Effects.{
  Env, MailKind, ok, Failure, error, Exec, pure, throw, gets, modify, ◌>>=◌, on_db, send_mail,
}

abbrev pub is_server : Text → ServerRow → Bool
is_server id r = text_eq r.id id

unfoldable pub find_server : Text → Db → Option ServerRow
find_server id db = find_where (is_server id) db.servers

unfoldable pub find_node : Text → Db → Option NodeRow
find_node id db = find_where (λ n. text_eq n.id id) db.nodes

-- `servers s JOIN nodes n ON s.node_id = n.id WHERE s.id = $1`
unfoldable pub find_placed : Text → Db → Option (ServerRow × NodeRow)
find_placed id db = elim (find_server id db) [
  | none ↦ none
  | some s ↦ elim (find_node s.node_id db) [ none ↦ none | some n ↦ some (s, n) ]
]

-- `UPDATE servers SET … WHERE id = $1`
unfoldable pub update_server : Text → (ServerRow → ServerRow) → Db → Db
update_server id f db = record db { servers = update_where (is_server id) f db.servers }

unfoldable pub set_status : Text → ServerStatus → Exec (Unit {0})
unfolding update_server modify
set_status id status = on_db (update_server id (λ r. record r { status = status }))

-- `SET status = 'running', installed_at = now()`
unfoldable pub mark_installed : Text → Exec (Unit {0})
mark_installed id = do
  now ← gets (λ w. w.clock)
  on_db (update_server id (λ r. record r { status = running; installed_at = some now }))

-- `getNodeForServer` of panel/src/lib/node-agent.ts
unfoldable pub node_for_server : Text → Db → Option NodeInfo
unfolding find_placed
node_for_server id db =
    Option.map (λ p. record { fqdn = p.1.fqdn; daemon_listen_port = p.1.daemon_listen_port })
      (find_placed id db)

abbrev pub port_of : Option AllocationRow → Option ℕ
port_of a = elim a [ none ↦ none | some r ↦ some r.port ]

-- `LEFT JOIN allocations a ON s.allocation_id = a.id`
unfoldable pub allocated_port : ServerRow → Db → Option ℕ
allocated_port s db = elim s.allocation_id [
  | none ↦ none
  | some a ↦ port_of (find_where (λ r. text_eq r.id a) db.allocations)
]

-- `LEFT JOIN eggs e ON s.egg_id = e.id`
unfoldable pub find_egg : Text → Db → Option EggRow
find_egg id db = find_where (λ e. text_eq e.id id) db.eggs

-- `Number(x) || fallback`
abbrev pub number_or : Option ℕ → ℕ → ℕ
number_or none fallback = fallback
number_or (some n) fallback = if n == 0 then fallback else n

-- `alloc_port ? [{ … }] : []`
unfoldable pub bindings : Option ℕ → Option ℕ → List PortBinding
bindings none inside = []
bindings (some port) inside =
    if port == 0
    then []
    else record { host_port = port; container_port = number_or inside 25565 } ∷ []

-- `{ ...environment, [key]: value }`
unfoldable pub put_key : Text → Text → List (Text × Text) → List (Text × Text)
put_key key value [] = (key, value) ∷ []
put_key key value ((k, v) ∷ rest) =
    if text_eq k key then (k, value) ∷ rest else (k, v) ∷ put_key key value rest

-- the body of a create call
unfoldable pub container_spec : ServerRow → Text → List PortBinding → ContainerSpec
unfolding put_key
container_spec s startup ports = record {
  image = s.docker_image;
  startup = startup;
  environment = put_key (codes "STARTUP") startup s.environment;
  memory_bytes = s.memory_mb * 1024 * 1024;
  cpu_percent = s.cpu_percent;
  pid_limit = number_or (some s.pid_limit) 512;
  data_path = codes "/var/lib/troxe/" ++ s.id;
  ports = ports;
}

-- `agentPost` and `agentDelete`: one call of the agent, which the panel's state does not see
unfoldable pub agent_post : Env → NodeInfo → Text → Action → Exec AgentResponse
agent_post env node id action w =
    let call : AgentCall = record { node = node; server_id = id; action = action } in
    (ok (env.agent w.calls call), record w { calls = w.calls ++ call ∷ [] })

abbrev pub node_missing : Text → Failure
node_missing id = error (codes "Node not found for server " ++ id)

abbrev pub server_missing : Text → Failure
server_missing id = error (codes "Server " ++ id ++ codes " not found")

-- `throw new Error(...)` with the agent's error behind the text
abbrev pub failed_to : Text → Text → Failure
failed_to what detail = error (what ++ detail)

abbrev pub subject_server : Text
subject_server = codes "server"

abbrev pub or_throw : {A : Type 0} → Failure → Option A → Exec A
or_throw e none = throw e
or_throw e (some a) = pure a

-- `getNodeForServer`, and the throw where there is none
unfoldable pub require_node : Text → Exec NodeInfo
unfolding node_for_server
require_node id = do found ← gets (λ w. node_for_server id w.db); or_throw (node_missing id) found

unfoldable pub require_server : Text → Exec ServerRow
require_server id = do found ← gets (λ w. find_server id w.db); or_throw (server_missing id) found

unfoldable pub require_placed : Text → Exec ServerRow
require_placed id = do
  found ← gets (λ w. Option.map (λ p. p.0) (find_placed id w.db))
  or_throw (server_missing id) found

-- the statement of `eventBus.emit`; the handlers of these events only write to the console
unfoldable pub log_event : Text → Text → Text → Exec (Unit {0})
unfolding modify
log_event event subject_type subject_id =
    let row : EventRow = record {
      event_type = event;
      subject_type = some subject_type;
      subject_id = some subject_id;
    } in
    on_db (λ db. record db { events = db.events ++ row ∷ [] })

-- the owner of a server, `getServerOwner`
unfoldable pub find_owner : Text → Db → Option UserRow
find_owner id db = elim (find_server id db) [
  | none ↦ none
  | some s ↦ find_where (λ u. text_eq u.id s.owner_id) db.users
]

-- `value !== false`
abbrev is_not_false : Option Bool → Bool
is_not_false none = true
is_not_false (some b) = b

-- `shouldNotify`; a user with no row is notified
unfoldable pub should_notify : Env → (PreferenceRow → Option Bool) → Text → Db → Bool
should_notify env pick user_id db =
    if not env.notifications_enabled
    then false
    else elim (find_where (λ p. text_eq p.user_id user_id) db.preferences) [
      | none ↦ true
      | some row ↦ is_not_false (pick row)
    ]

-- the mail after an install, once the owner is known
unfoldable pub notify_owner : Env → Text → Db → Option UserRow → Exec (Unit {0})
unfolding should_notify
notify_owner env name db none = pure tt
notify_owner env name db (some owner) =
    if should_notify env (λ p. p.email_on_install) owner.email db
    then send_mail (record { kind = MailKind.installed; to = owner.email; about = name })
    else pure tt

-- The mail after an install. The code looks the preference up by the owner's address.
unfoldable pub notify_installed : Env → Text → Text → Exec (Unit {0})
unfolding find_owner notify_owner
notify_installed env id name = do db ← gets (λ w. w.db); notify_owner env name db (find_owner id db)
