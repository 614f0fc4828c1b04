-- ===== src/Events.antt =====
-- The event bus of panel/src/events/index.ts. A handler is known by a number, as the code compares
-- functions by identity; the order in which the handlers of an event are called is what `emit` fixes.
pub mod Laws
use mathlib.Core.Option
use mathlib.Core.List.{reverse, filter}
use troxe_host.Common.{
  ℕ, zero, suc, ◌-◌, ◌+◌, ◌*◌, Bool, true, false, not, ◌&&◌, ◌||◌, Option, none, some, List, [],
  ◌∷◌, ◌++◌, map, Text, codes, text_eq, if◌then◌else◌, is_some, ◌==◌, leb, ltb, any, length,
}
use troxe_host.Common.Int.{ℤ, pos, negsuc, ◌+ℤ◌, ◌-ℤ◌}
use troxe_host.Js.{trim, split_spaces}
use troxe_host.Js.Decimal.{print}
use troxe_host.Db.{
  Db, UserRow, NodeRow, LocationRow, NestRow, AllocationRow, EggRow, ServerRow, ServerStatus,
  install_pending, crashed, BackupRow, BackupStatus, building, Task, ScheduleRow, DatabaseHostRow,
  DatabaseRow, Grant, flag, group, Permissions, SubuserRow, ApiKeyRow, PreferenceRow, JobRow,
  TransferRow, server_install, backup_create, backup_delete, server_command, JobType, Payload,
}
use troxe_host.Db.Table.{find_where, update_where, delete_where, count_where, select_where}
use troxe_host.Db.Patch.{change, updates, set_all}
use troxe_host.Agent.{NodeInfo}
use troxe_host.Effects.{
  World, Env, Mail, MailKind, Exec, Failure, error, db_error, pure, throw, gets, modify, try_catch,
  on_db, fresh_id, send_mail, ◌>>=◌, ◌>>◌,
}
use troxe_host.Workers.Steps.{
  is_server, find_server, find_node, find_egg, find_owner, update_server, node_for_server,
  log_event, subject_server, number_or, should_notify,
}
use troxe_host.Workers.Queue.{add_job, references_ok}
use troxe_host.Workers.Removal.{refers, is_backup}
use troxe_host.Reply.{Reply, sent, failed}
use troxe_host.Servers.{on_server, queue_job, power_job}

-- `handlers`: the registered handlers of each event, in the order of insertion
abbrev pub Handlers : Type 0
Handlers = List (Text × List ℕ)

-- `this.handlers.get(event) || []`
unfoldable pub handlers_of : Text → Handlers → List ℕ
handlers_of event [] = []
handlers_of event ((e, hs) ∷ rest) = if text_eq e event then hs else handlers_of event rest

-- `on(event, handler)`
unfoldable pub on : Text → ℕ → Handlers → Handlers
on event handler [] = (event, handler ∷ []) ∷ []
on event handler ((e, hs) ∷ rest) =
    if text_eq e event then (e, hs ++ handler ∷ []) ∷ rest else (e, hs) ∷ on event handler rest

-- the index behind the first element, where the rest has it at `i`
abbrev pub one_on : ℤ → ℤ
one_on (pos i) = pos (suc i)
one_on (negsuc i) = negsuc i

-- `list.indexOf(handler)`: -1 where the handler is not in the list
unfoldable pub index_of : ℕ → List ℕ → ℤ
index_of handler [] = negsuc 0
index_of handler (h ∷ hs) =
    let later = index_of handler hs in if h == handler then pos 0 else one_on later

-- the list without its element at `i`
unfoldable pub without_at : ℕ → List ℕ → List ℕ
without_at i [] = []
without_at zero (h ∷ hs) = hs
without_at (suc i) (h ∷ hs) = h ∷ without_at i hs

-- `list.splice(i, 1)`: a negative index counts from the end, and stops at the start
unfoldable pub splice : ℤ → List ℕ → List ℕ
unfolding without_at
splice (pos i) hs = without_at i hs
splice (negsuc i) hs = without_at (length hs - suc i) hs

-- `idx >= 0`
abbrev pub is_found : ℤ → Bool
is_found (pos i) = true
is_found (negsuc i) = false

-- `if (idx >= 0) list.splice(idx, 1)`
unfoldable pub splice_found : ℤ → List ℕ → List ℕ
unfolding splice
splice_found idx hs = if is_found idx then splice idx hs else hs

-- `off(event, handler)`
unfoldable pub off : Text → ℕ → Handlers → Handlers
unfolding index_of splice_found
off event handler [] = []
off event handler ((e, hs) ∷ rest) =
    if text_eq e event
    then (e, splice_found (index_of handler hs) hs) ∷ rest
    else (e, hs) ∷ off event handler rest

-- `allHandlers` of `emit`: those of the event, then those of every event
unfoldable pub called : Text → Handlers → List ℕ
unfolding handlers_of
called event handlers = handlers_of event handlers ++ handlers_of (codes "*") handlers

-- the default handler of `node.heartbeat`, for a `nodeId`
unfoldable pub note_heartbeat : ℕ → Text → Db → Db
note_heartbeat now node_id db = record db {
  nodes =
      update_where (λ n. text_eq n.id node_id)
        (λ n. record n { last_heartbeat_at = some now; online = true }) db.nodes;
}

-- the default handler of `node.offline`, for a `nodeId`
unfoldable pub note_offline : Text → Db → Db
note_offline node_id db = record db {
  nodes = update_where (λ n. text_eq n.id node_id) (λ n. record n { online = false }) db.nodes;
}
