-- ===== src/Agent.antt =====
-- panel/src/lib/node-agent.ts: the calls of a node's agent, and what the panel makes of the answer.
-- `fetch` and `JSON.parse` are not modelled: an answer of `fetch` comes with its text and with the
-- member `error` of its parsed body, where it has one.
use troxe_host.Common.{
  ℕ, Bool, Option, none, some, List, [], ◌∷◌, ◌++◌, Text, codes, if◌then◌else◌, ◌||◌, leb, ◌&&◌,
}
use troxe_host.Js.{starts_with}

pub record NodeInfo : Type 0 where
  pub fqdn : Text
  pub daemon_listen_port : ℕ

pub record PortBinding : Type 0 where
  pub host_port : ℕ
  pub container_port : ℕ

-- the body of a create call
pub record ContainerSpec : Type 0 where
  pub image : Text
  pub startup : Text
  pub environment : List (Text × Text)
  pub memory_bytes : ℕ
  pub cpu_percent : ℕ
  pub pid_limit : ℕ
  pub data_path : Text
  pub ports : List PortBinding

-- what follows `/api/servers/${serverId}/`, with the body of the call
pub data Action : Type 0 where
  create : ContainerSpec → Action
  start stop kill remove : Action
  install : Text → Action
  command : Text → Action
  backup_create : Action
  backup_delete : Text → Action
  transfer_export transfer_complete transfer_cleanup : Action
  transfer_import : Text → Action
  logs stats : Action
  file_list : Text → Action
  file_read file_delete : Text → Action
  file_write : Text → Text → Action
  file_create : Text → Text → Text → Action
  file_rename : Text → Text → Action
  file_compress : Text → Text → Action
  file_decompress : Text → Action

pub record AgentCall : Type 0 where
  pub node : NodeInfo
  pub server_id : Text
  pub action : Action

-- the members of `data.stats`, or of `data` where it has none; `cpu_absolute` is the number's text
pub record Sample : Type 0 where
  pub memory_bytes : Option ℕ
  pub cpu_absolute : Option Text
  pub disk_bytes : Option ℕ
  pub rx_bytes : Option ℕ
  pub tx_bytes : Option ℕ
  pub uptime : Option ℕ
  pub state : Option Text

-- the members of an answer's `data`, and the body of a streamed one, that the code reads
pub record AgentData : Type 0 where
  pub filename : Option Text
  pub size : Option ℕ
  pub body : Option Text
  pub logs : Option Text
  pub stats : Option Sample

-- `AgentResponse`: `ok` with its data, or not, with its status and `error`
pub data AgentResponse : Type 0 where
  accepted : AgentData → AgentResponse
  refused : ℕ → Text → AgentResponse

-- what `fetch` gives
pub data Fetched : Type 0 where
  unreachable : Text → Fetched
  answer : ℕ → Text → Option Text → AgentData → Fetched

-- `resp.ok`: the status is in 200..299
abbrev is_ok_status : ℕ → Bool
is_ok_status status = leb 200 status && leb status 299

-- the end of `agentRequest`, from the answer of `fetch`
unfoldable pub agent_response : Fetched → AgentResponse
agent_response (unreachable message) = refused 0 (codes "Agent connection failed: " ++ message)
agent_response (answer status text error parsed) =
    if is_ok_status status
    then accepted parsed
    else elim error [ none ↦ refused status text | some e ↦ refused status e ]

-- `s.includes(piece)`
unfoldable pub mentions : Text → Text → Bool
mentions piece [] = starts_with piece []
mentions piece (c ∷ s) = starts_with piece (c ∷ s) || mentions piece s

-- `resp.error && resp.error.includes("container not found")`
unfoldable pub is_untracked : Text → Bool
unfolding mentions
is_untracked error = mentions (codes "container not found") error
