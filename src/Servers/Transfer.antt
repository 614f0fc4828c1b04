-- ===== src/Servers/Transfer.antt =====
-- `POST /servers/:id/transfer` and `runTransfer` of panel/src/api/routes/servers.ts. The code does
-- not await the second; here it runs where it is called, with nothing in between.
pub mod Laws
pub mod Moves
use troxe_host.Common.{
  ℕ, Bool, true, false, not, ◌&&◌, ◌||◌, Option, none, some, List, [], ◌∷◌, ◌++◌, Text, codes,
  text_eq, if◌then◌else◌, is_some,
}
use troxe_host.Db.{
  Db, ServerRow, NodeRow, AllocationRow, TransferRow, TransferStatus, pending, transferring,
}
use troxe_host.Db.Table.{find_where, update_where}
use troxe_host.Agent.{
  NodeInfo, AgentData, AgentResponse, accepted, refused, start, stop, transfer_export,
  transfer_import, transfer_complete, transfer_cleanup,
}
use troxe_host.Effects.{
  World, Env, Exec, Failure, error, message, pure, throw, gets, modify, try_catch, on_db, fresh_id,
  ◌>>=◌, ◌>>◌,
}
use troxe_host.Workers.Steps.{
  find_placed, find_node, update_server, agent_post, log_event, subject_server, failed_to,
}
use troxe_host.Reply.{Reply, sent, failed}
use troxe_host.Servers.{claim, free, add_resources, subtract_resources}

abbrev pub is_transfer : Text → TransferRow → Bool
is_transfer id t = text_eq t.id id

-- `UPDATE server_transfers SET … WHERE id = $1`
unfoldable pub update_transfer : Text → (TransferRow → TransferRow) → Exec (Unit {0})
unfolding modify
update_transfer id f =
    on_db (λ db. record db { transfers = update_where (is_transfer id) f db.transfers })

abbrev node_info : NodeRow → NodeInfo
node_info n = record { fqdn = n.fqdn; daemon_listen_port = n.daemon_listen_port }

-- what a transfer is called with: the server's row and node as they were, and where it goes
pub record Move : Type 0 where
  pub server : ServerRow
  pub source : NodeRow
  pub target : NodeRow
  pub transfer : Text
  pub new_node_id : Text
  pub new_allocation_id : Text

-- steps 5 to 7: the statements on `allocations`, `servers` and `nodes`
unfoldable pub reassign : Move → ℕ → Db → Db
unfolding free claim update_server subtract_resources add_resources
reassign m now db =
    let s = m.server in
    let db₁ = claim s.id m.new_allocation_id now (free s.allocation_id db) in
    let db₂ =
      update_server s.id
        (λ r. record r { node_id = m.new_node_id; allocation_id = some m.new_allocation_id }) db₁ in
    add_resources s.memory_mb s.disk_mb m.new_node_id
      (subtract_resources s.memory_mb s.disk_mb s.node_id db₂)

-- `if (!resp.ok) throw new Error(...)`
require_accepted : Text → AgentResponse → Exec AgentData
require_accepted what (accepted d) = pure d
require_accepted what (refused status e) = throw (failed_to what e)

-- `!exportResp.ok || !exportResp.body`; where only the body is missing the error is undefined
require_body : AgentResponse → Exec Text
require_body (refused status e) = throw (failed_to (codes "Export failed: ") e)
require_body (accepted d) = elim d.body [
  | none ↦ throw (error (codes "Export failed: undefined"))
  | some body ↦ pure body
]

-- the steps that follow the calls of the agents
finish_transfer : Env → Move → Exec (Unit {0})
unfolding reassign update_transfer modify
finish_transfer env m = do
  now ← gets (λ w. w.clock)
  on_db (reassign m now)
  agent_post env (node_info m.source) m.server.id transfer_cleanup
  update_transfer m.transfer (λ t. record t { status = TransferStatus.completed })
  log_event (codes "server.transferred") subject_server m.server.id

-- the body of the `try`
transfer_steps : Env → Move → Exec (Unit {0})
unfolding require_accepted require_body finish_transfer
transfer_steps env m = do
  update_transfer m.transfer (λ t. record t { status = transferring })
  agent_post env (node_info m.source) m.server.id stop
  exported ← agent_post env (node_info m.source) m.server.id transfer_export
  body ← require_body exported
  imported ← agent_post env (node_info m.target) m.server.id (transfer_import body)
  require_accepted (codes "Import failed: ") imported
  completed ← agent_post env (node_info m.target) m.server.id transfer_complete
  require_accepted (codes "Finalize failed: ") completed
  finish_transfer env m

-- the `catch`: the failure is noted, and the server started where it was
fail_transfer : Env → Move → Failure → Exec (Unit {0})
unfolding update_transfer
fail_transfer env m err = do
  update_transfer m.transfer
      (λ t. record t { status = TransferStatus.failed; error = some (message err) })
  agent_post env (node_info m.source) m.server.id start
  agent_post env (node_info m.source) m.server.id transfer_cleanup
  pure tt

-- `runTransfer`
unfoldable pub run_transfer : Env → Move → Exec (Unit {0})
unfolding transfer_steps fail_transfer
run_transfer env m = try_catch (transfer_steps env m) (fail_transfer env m)

-- the row of `INSERT INTO server_transfers`
abbrev new_transfer : Text → ServerRow → Text → Text → TransferRow
new_transfer transfer s new_node_id new_allocation_id = record {
  id = transfer;
  server_id = s.id;
  old_node_id = s.node_id;
  new_node_id = new_node_id;
  old_allocation_id = s.allocation_id;
  new_allocation_id = new_allocation_id;
  status = pending;
  error = none;
}

begin_transfer : Env → ServerRow → NodeRow → NodeRow → Text → Exec (Reply Text)
unfolding run_transfer modify
begin_transfer env s source target new_allocation_id = do
  transfer ← fresh_id env
  on_db (λ db. record db {
    transfers = db.transfers ++ new_transfer transfer s target.id new_allocation_id ∷ [];
  })
  run_transfer env (record {
    server = s;
    source = source;
    target = target;
    transfer = transfer;
    new_node_id = target.id;
    new_allocation_id = new_allocation_id;
  })
  pure (sent transfer)

-- `WHERE id = $1 AND node_id = $2 AND server_id IS NULL`
abbrev pub is_available : Text → Text → AllocationRow → Bool
is_available id node_id a =
    text_eq a.id id && text_eq a.node_id node_id && not (is_some a.server_id)

-- the guards on the target, for a server that is there
transfer_to : Env → Text → Text → Db → Option (ServerRow × NodeRow) → Exec (Reply Text)
unfolding begin_transfer
transfer_to env new_node_id new_allocation_id db none = pure (failed 404 (codes "Server not found"))
transfer_to env new_node_id new_allocation_id db (some (s, source)) =
    if text_eq s.node_id new_node_id
    then pure (failed 400 (codes "Server is already on the target node"))
    else elim (find_node new_node_id db) [
      | none ↦ pure (failed 404 (codes "Target node not found"))
      | some target ↦
          if not (is_some (find_where (is_available new_allocation_id new_node_id) db.allocations))
          then pure (failed 400 (codes "Allocation not available on target node"))
          else begin_transfer env s source target new_allocation_id
    ]

abbrev missing : Text → Bool
missing [] = true
missing (c ∷ s) = false

-- `POST /servers/:id/transfer`
unfoldable pub transfer_route : Env → Text → Text → Text → Exec (Reply Text)
unfolding transfer_to
transfer_route env id new_node_id new_allocation_id =
    if missing new_node_id || missing new_allocation_id
    then pure (failed 400 (codes "newNodeId and newAllocationId required"))
    else do
      db ← gets (λ w. w.db)
      transfer_to env new_node_id new_allocation_id db (find_placed id db)
