-- ===== src/Servers/Accounts/Routes.antt =====
-- The routes that create and move servers keep the accounts of the nodes.
use troxe_host.Common.{ℕ, Text, ◌≡◌, some, Option-cases, Bool-cases, inl, inr}
use troxe_host.Db.{Db, ServerRow, TransferRow}
use troxe_host.Db.Table.{find_where, count_where}
use troxe_host.Effects.{World, Env, gets, pure, throw, modify, fresh_id, ◌>>=◌}
use troxe_host.Effects.Keeps.{Keeps, Keeps-bind, Keeps-pure}
use troxe_host.Workers.Steps.{is_server, find_egg, log_event}
use troxe_host.Workers.Queue.Adding.{add_job-Keeps}
use troxe_host.Servers.Create.{
  CreateBody, placeable, new_server, choose_allocation, insert_server, create_chosen, create_with,
  create_route,
}
use troxe_host.Servers.Transfer.{Move, is_transfer, reassign, run_transfer}
use troxe_host.Servers.Transfer.Laws.{run_transfer-IsSettled}
use troxe_host.Servers.Accounts.{IsAccounted}
use troxe_host.Servers.Accounts.Steps.{IsDistinct, IsKept, created-IsKept, transferred-IsKept}

-- what is kept is a matter of two tables
same_tables : (a b : Db) → b.servers ≡ a.servers → b.nodes ≡ a.nodes → IsKept a → IsKept b
same_tables a b servers nodes h = rw (servers, nodes) h

log_event-Keeps : (event subject id : Text) → Keeps (λ w. IsKept w.db) (log_event event subject id)
unfolding log_event modify
log_event-Keeps event subject id = record { at = λ w h. h }

insert_server-IsKept :
    (env : Env) (s : ServerRow) (a : Text) (w : World)
    → count_where (is_server s.id) w.db.servers ≡ 0
    → IsKept w.db
    → IsKept (insert_server env s a w).1.db
unfolding insert_server gets throw modify ◌>>=◌
insert_server-IsKept env s a w new h = elim (Bool-cases (placeable s w.db)) [
  | inl possible ↦ rw possible (
      (Keeps-bind _ _ (add_job-Keeps env _ _ _ (λ w jobs queue next k. k))
          (λ _. Keeps-bind _ _ (log_event-Keeps _ _ _) (λ _. Keeps-pure _))).at
        _ (created-IsKept s a w.clock w.db new h))
  | inr refused ↦ rw refused h
]

create_route-IsKept :
    (env : Env) (draw : ℕ) (owner : Text) (body : CreateBody) (w : World)
    → count_where (is_server (env.new_id w.next_id)) w.db.servers ≡ 0
    → IsKept w.db
    → IsKept (create_route env draw owner body w).1.db
unfolding create_route create_with create_chosen gets pure fresh_id ◌>>=◌
create_route-IsKept env draw owner body w new h = elim (Option-cases (find_egg body.egg_id w.db)) [
  | inl missing ↦ rw missing h
  | inr (egg, found) ↦ elim (Option-cases (choose_allocation draw body w.db)) [
    | inl full ↦ rw (found, full) h
    | inr (a, chosen) ↦
        rw (found, chosen)
          (insert_server-IsKept env (new_server (env.new_id w.next_id) owner body egg a) a _ new h)
  ]
]

run_transfer-IsKept :
    (env : Env) (m : Move) (w : World) {t : TransferRow}
    → find_where (is_transfer m.transfer) w.db.transfers ≡ some t
    → find_where (is_server m.server.id) w.db.servers ≡ some m.server
    → IsKept w.db
    → IsKept (run_transfer env m w).1.db
run_transfer-IsKept env m w row there h =
    let (_, ended) = run_transfer-IsSettled env m w row in
    elim ended [
      | inl moved ↦
          same_tables (reassign m w.clock w.db) (run_transfer env m w).1.db moved.servers
            moved.nodes (transferred-IsKept m w.clock w.db there h)
      | inr stayed ↦ same_tables w.db (run_transfer env m w).1.db stayed.servers stayed.nodes h
    ]

-- A run of the routes: a creation draws an id that no server has, and a transfer is of a server as
-- its row is.
pub data Runs (env : Env) (start : World) : World → Type 0 where
  here : Runs env start start
  creates :
      {w : World} (draw : ℕ) (owner : Text) (body : CreateBody)
      → count_where (is_server (env.new_id w.next_id)) w.db.servers ≡ 0
      → Runs env start w
      → Runs env start (create_route env draw owner body w).1
  transfers :
      {w : World} (m : Move) {t : TransferRow}
      → find_where (is_transfer m.transfer) w.db.transfers ≡ some t
      → find_where (is_server m.server.id) w.db.servers ≡ some m.server
      → Runs env start w
      → Runs env start (run_transfer env m w).1

Runs-IsKept : {env : Env} {start w : World} → IsKept start.db → Runs env start w → IsKept w.db
Runs-IsKept h here = h
Runs-IsKept h (creates {w} draw owner body new more) =
    create_route-IsKept _ draw owner body w new (Runs-IsKept h more)
Runs-IsKept h (transfers {w} m row there more) =
    run_transfer-IsKept _ m w row there (Runs-IsKept h more)

-- Where no two servers have one id and the memory column of every node is the sum of what its servers
-- reserve, the columns are these sums after any run of creations, under ids that are new, and of
-- transfers, those that are refused or fail included.
pub Runs-IsAccounted :
    {env : Env} {start w : World}
    → IsDistinct start.db
    → IsAccounted start.db
    → Runs env start w
    → IsAccounted w.db
Runs-IsAccounted distinct accounted more = (Runs-IsKept (distinct, accounted) more).1
