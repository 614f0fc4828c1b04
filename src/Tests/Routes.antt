-- ===== src/Tests/Routes.antt =====
-- The server routes, on the small panel.
use troxe_host.Common.{none, some, [], ◌∷◌, codes, refl, ◌≡◌, ◌⊎◌, text_eq, false}
use troxe_host.Db.{TransferRow, TransferStatus, AllocationRow, pending, server_delete}
use troxe_host.Db.Table.{find_where}
use troxe_host.Effects.{World, QueuedJob, ok, thrown, db_error}
use troxe_host.Workers.Steps.{find_server, find_node}
use troxe_host.Servers.{delete_route, on_server}
use troxe_host.Servers.Laws.{delete_route_twice, without}
use troxe_host.Servers.Transfer.{Move, is_transfer, run_transfer}
use troxe_host.Servers.Transfer.Laws.{IsStayed, status_of_transfer}
use troxe_host.Servers.Transfer.Moves.{IsPrepared, HasArrived, run_transfer-HasArrived}
use troxe_host.Servers.Undeleted.{delete_route-undone}
use troxe_host.Workers.Queue.{run_job}
use troxe_host.Reply.{sent}
use troxe_host.Tests.{allocation, placed, texts_apart, server, site, target_site, world, db, up}

server_there : find_server (codes "s1") world.db ≡ some server
unfolding find_server find_where text_eq
server_there = refl

site_there : find_node (codes "n1") world.db ≡ some site
unfolding find_node find_where text_eq
site_there = refl

delete_route_twice_example :
    find_node
      (codes "n1")
      (delete_route up (codes "s1") (delete_route up (codes "s1") world).1).1.db
    ≡ some (without server (without server site))
delete_route_twice_example = delete_route_twice up (codes "s1") world server_there site_there

abbrev transfer : TransferRow
transfer = record {
  id = codes "t1";
  server_id = codes "s1";
  old_node_id = codes "n1";
  new_node_id = codes "n2";
  old_allocation_id = some (codes "a1");
  new_allocation_id = codes "a2";
  status = pending;
  error = none;
}

abbrev move : Move
move = record {
  server = server;
  source = site;
  target = target_site;
  transfer = codes "t1";
  new_node_id = codes "n2";
  new_allocation_id = codes "a2";
}

abbrev free_allocation : AllocationRow
free_allocation = record allocation {
  id = codes "a2";
  node_id = codes "n2";
  server_id = none;
  allocated_at = none;
}

abbrev moving : World
moving = record world {
  db = record db { transfers = transfer ∷ []; allocations = allocation ∷ free_allocation ∷ [] };
}

transfer_there : find_where (is_transfer (codes "t1")) moving.db.transfers ≡ some transfer
unfolding find_where text_eq
transfer_there = refl

nodes_differ : text_eq (codes "n1") (codes "n2") ≡ false
unfolding text_eq
nodes_differ = refl

allocations_differ : text_eq (codes "a1") (codes "a2") ≡ false
unfolding text_eq
allocations_differ = refl

move-IsPrepared : IsPrepared move moving.db (codes "a1") site target_site allocation free_allocation
unfolding find_server find_node find_where text_eq
move-IsPrepared = record {
  server = refl;
  source_node = refl;
  target_node = refl;
  nodes_apart = texts_apart (codes "n1") (codes "n2") nodes_differ;
  old_named = refl;
  old_allocation = refl;
  new_allocation = refl;
  allocations_apart = texts_apart (codes "a1") (codes "a2") allocations_differ;
}

run_transfer-HasArrived_example :
    ((run_transfer up move moving).0 ≡ ok tt)
    × (((status_of_transfer (codes "t1") (run_transfer up move moving).1.db
            ≡ some TransferStatus.completed)
          × HasArrived move 600000
              (run_transfer up move moving).1.db
              (codes "a1")
              site
              target_site
              allocation
              free_allocation)
        ⊎ IsStayed move moving (run_transfer up move moving).1)
run_transfer-HasArrived_example =
    run_transfer-HasArrived up move moving transfer_there move-IsPrepared

abbrev removing : QueuedJob
removing = record { job_id = codes "new"; type = server_delete; payload = on_server (codes "s1") }

delete_route-undone_example :
    ((delete_route up (codes "s1") world).0 ≡ ok (sent tt))
    × ((delete_route up (codes "s1") world).1.queue ≡ removing ∷ [])
    × ((run_job up removing (delete_route up (codes "s1") world).1).0
        ≡ thrown (db_error (codes "foreign key")))
    × (find_server (codes "s1") (run_job up removing (delete_route up (codes "s1") world).1).1.db
        ≡ some server)
delete_route-undone_example = delete_route-undone up b's' (codes "1") world placed
