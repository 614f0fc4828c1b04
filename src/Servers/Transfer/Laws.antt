-- ===== src/Servers/Transfer/Laws.antt =====
-- How a transfer ends.
use mathlib.Core.Option
use troxe_host.Common.{
  Option, some, List, Text, codes, ◌≡◌, refl, ◌∙◌, ap, Option-cases, inl, inr, ◌⊎◌,
}
use troxe_host.Db.{Db, TransferRow, TransferStatus}
use troxe_host.Db.Table.{find_where, update_where, find_where-update_where}
use troxe_host.Agent.{AgentResponse, accepted, refused, transfer_import, transfer_complete}
use troxe_host.Effects.{
  World, Env, Result, ok, Exec, Failure, pure, throw, gets, modify, try_catch, handle, ◌>>=◌, ◌>>◌,
}
use troxe_host.Workers.Steps.{agent_post, log_event, update_server}
use troxe_host.Servers.{free, claim, add_resources, subtract_resources}
use troxe_host.Servers.Transfer.{
  Move, is_transfer, update_transfer, reassign, require_accepted, require_body, finish_transfer,
  transfer_steps, fail_transfer, run_transfer, node_info,
}

abbrev pub status_of_transfer : Text → Db → Option TransferStatus
status_of_transfer id db =
    Option.map (λ (t : TransferRow). t.status) (find_where (is_transfer id) db.transfers)

-- A transfer that is completed has moved the server: the three tables are those of `reassign`.
pub record IsMoved (m : Move) (before after : World) : Type 0 where
  pub completed : status_of_transfer m.transfer after.db ≡ some TransferStatus.completed
  pub servers : after.db.servers ≡ (reassign m before.clock before.db).servers
  pub nodes : after.db.nodes ≡ (reassign m before.clock before.db).nodes
  pub allocations : after.db.allocations ≡ (reassign m before.clock before.db).allocations

-- A transfer that failed has left the three tables as they were.
pub record IsStayed (m : Move) (before after : World) : Type 0 where
  pub failed : status_of_transfer m.transfer after.db ≡ some TransferStatus.failed
  pub servers : after.db.servers ≡ before.db.servers
  pub nodes : after.db.nodes ≡ before.db.nodes
  pub allocations : after.db.allocations ≡ before.db.allocations

-- A transfer that is over has settled: it did not throw, and it moved the server or left it.
abbrev pub IsSettled : Move → World → Result (Unit {0}) × World → Type 0
IsSettled m before (r, after) = (r ≡ ok tt) × (IsMoved m before after ⊎ IsStayed m before after)

-- what holds while the agents are called
record IsBegun (m : Move) (before now : World) : Type 0 where
  row : TransferRow
  there : find_where (is_transfer m.transfer) now.db.transfers ≡ some row
  servers : now.db.servers ≡ before.db.servers
  nodes : now.db.nodes ≡ before.db.nodes
  allocations : now.db.allocations ≡ before.db.allocations
  clock : now.clock ≡ before.clock

find-update_transfer :
    (id : Text) (f : TransferRow → TransferRow) (rows : List TransferRow) {t : TransferRow}
    → ((r : TransferRow) → (f r).id ≡ r.id)
    → find_where (is_transfer id) rows ≡ some t
    → find_where (is_transfer id) (update_where (is_transfer id) f rows) ≡ some (f t)
find-update_transfer id f rows keep h =
    find_where-update_where (is_transfer id) f rows (λ r k. rw (keep r) k) ∙ ap (Option.map f) h

module _ (env : Env) (m : Move) (before : World) where
  fail_transfer-IsSettled :
      (err : Failure) (w : World)
      → IsBegun m before w
      → IsSettled m before (fail_transfer env m err w)
  unfolding fail_transfer update_transfer agent_post pure ◌>>=◌
  fail_transfer-IsSettled err w h = (
    refl,
    inr (record {
      failed =
          ap (Option.map _) (find-update_transfer m.transfer _ w.db.transfers (λ r. refl) h.there);
      servers = h.servers;
      nodes = h.nodes;
      allocations = h.allocations;
    }),
  )

  finish_transfer-IsSettled :
      (w : World)
      → IsBegun m before w
      → IsSettled m before (handle (fail_transfer env m) (finish_transfer env m w))
  unfolding finish_transfer update_transfer reassign agent_post gets modify log_event ◌>>=◌ free
      claim add_resources subtract_resources update_server
  finish_transfer-IsSettled w h = (
    refl,
    inl (record {
      completed =
          ap (Option.map _) (find-update_transfer m.transfer _ w.db.transfers (λ r. refl) h.there);
      servers = rw h.servers refl;
      nodes = rw h.nodes refl;
      allocations = rw (h.allocations, h.clock) refl;
    }),
  )

  completed-IsSettled :
      (resp : AgentResponse) (w : World)
      → IsBegun m before w
      → IsSettled m before (
          handle
            (fail_transfer env m)
            ((require_accepted (codes "Finalize failed: ") resp >> finish_transfer env m) w))
  unfolding require_accepted ◌>>=◌ throw pure
  completed-IsSettled (accepted d) w h = finish_transfer-IsSettled w h
  completed-IsSettled (refused status e) w h = fail_transfer-IsSettled _ w h

  abbrev complete_on_target : Exec (Unit {0})
  complete_on_target =
      agent_post env (node_info m.target) m.server.id transfer_complete >>= λ completed.
      require_accepted (codes "Finalize failed: ") completed >> finish_transfer env m

  imported-IsSettled :
      (resp : AgentResponse) (w : World)
      → IsBegun m before w
      → IsSettled m before (
          handle
            (fail_transfer env m)
            ((require_accepted (codes "Import failed: ") resp >> complete_on_target) w))
  unfolding require_accepted ◌>>=◌ throw pure agent_post
  imported-IsSettled (accepted d) w h = completed-IsSettled _ _ (record {
    row = h.row;
    there = h.there;
    servers = h.servers;
    nodes = h.nodes;
    allocations = h.allocations;
    clock = h.clock;
  })
  imported-IsSettled (refused status e) w h = fail_transfer-IsSettled _ w h

  abbrev import_on_target : Text → Exec (Unit {0})
  import_on_target body =
      agent_post env (node_info m.target) m.server.id (transfer_import body) >>= λ imported.
      require_accepted (codes "Import failed: ") imported >> complete_on_target

  exported-IsSettled :
      (resp : AgentResponse) (w : World)
      → IsBegun m before w
      → IsSettled m before
          (handle (fail_transfer env m) ((require_body resp >>= λ body. import_on_target body) w))
  unfolding require_body ◌>>=◌ throw pure agent_post
  exported-IsSettled (accepted d) w h = elim (Option-cases d.body) [
    | inl empty ↦ rw empty (fail_transfer-IsSettled _ w h)
    | inr (body, sent) ↦ rw sent (
        imported-IsSettled _ _ (record {
          row = h.row;
          there = h.there;
          servers = h.servers;
          nodes = h.nodes;
          allocations = h.allocations;
          clock = h.clock;
        }))
  ]
  exported-IsSettled (refused status e) w h = fail_transfer-IsSettled _ w h

-- A transfer with a row never throws, whatever the agents answer: it ends as completed, with the
-- tables of `reassign`, or as failed, with those as they were.
pub run_transfer-IsSettled :
    (env : Env) (m : Move) (w : World) {t : TransferRow}
    → find_where (is_transfer m.transfer) w.db.transfers ≡ some t
    → IsSettled m w (run_transfer env m w)
unfolding run_transfer transfer_steps update_transfer agent_post ◌>>=◌ try_catch
run_transfer-IsSettled env m w {t} there = exported-IsSettled env m w _ _ (record {
  row = record t { status = TransferStatus.transferring };
  there = find-update_transfer m.transfer _ w.db.transfers (λ r. refl) there;
  servers = refl;
  nodes = refl;
  allocations = refl;
  clock = refl;
})
