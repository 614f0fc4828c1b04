-- ===== src/Workers/Tables.antt =====
-- What the statements on `servers` do to the rows that the handlers read.
use mathlib.Core.Option
use troxe_host.Common.{
  false, Option, some, List, [], ◌∷◌, ◌++◌, Text, text_eq, text_eq_iff, ◌≡◌, ◌≢◌, ◌∙◌, ap,
  Bool-cases, inl, inr,
}
use troxe_host.Db.{Db, ServerRow, ServerStatus, running, NodeRow}
use troxe_host.Db.Table.{
  find_where, update_where, find_where-update_where, find_where-update_where_ne,
}
use troxe_host.Agent.{NodeInfo, Action, AgentResponse}
use troxe_host.Effects.{World, Env, Result, ok, Exec, pure, gets, modify, ◌>>=◌}
use troxe_host.Workers.Steps.{
  is_server, find_server, find_node, find_placed, update_server, require_placed, require_node,
  require_server, agent_post, set_status, mark_installed,
}

abbrev pub status_of : Text → Db → Option ServerStatus
status_of id db = Option.map (λ s. s.status) (find_server id db)

pub find_server-update_server :
    (id : Text) (f : ServerRow → ServerRow) (db : Db)
    → ((r : ServerRow) → (f r).id ≡ r.id)
    → find_server id (update_server id f db) ≡ Option.map f (find_server id db)
unfolding find_server update_server
find_server-update_server id f db keep =
    find_where-update_where (is_server id) f db.servers (λ r h. rw (keep r) h)

-- The row of another server is not touched.
pub find_server-update_server_ne :
    (id other : Text) (f : ServerRow → ServerRow) (db : Db)
    → id ≢ other
    → ((r : ServerRow) → (f r).id ≡ r.id)
    → find_server other (update_server id f db) ≡ find_server other db
unfolding find_server update_server
find_server-update_server_ne id other f db apart keep =
    find_where-update_where_ne (is_server other) (is_server id) f db.servers λ r h.
      let not_other : text_eq r.id other ≡ false = elim (Bool-cases (text_eq r.id other)) [
        | inl same ↦
            absurd (apart (cc ((text_eq_iff r.id id).0 h, (text_eq_iff r.id other).0 same)))
        | inr no_match ↦ no_match
      ] in
      (rw (keep r) not_other, not_other)

-- Setting the status of a row that is there.
pub set_status_lem :
    (id : Text) (status : ServerStatus) (rows : List ServerRow) {s : ServerRow}
    → find_where (is_server id) rows ≡ some s
    → Option.map
        (λ (r : ServerRow). r.status)
        (find_where
          (is_server id)
          (update_where (is_server id) (λ r. record r { status = status }) rows))
      ≡ some status
set_status_lem id status rows h =
    rw (
      find_where-update_where (is_server id) (λ r. record r { status = status }) rows (λ r k. k),
      h,
    )

-- The server and its node, where both rows are there.
pub record IsPlaced (id : Text) (db : Db) (s : ServerRow) (n : NodeRow) : Type 0 where
  pub server : find_server id db ≡ some s
  pub node : find_node s.node_id db ≡ some n

pub find_placed-IsPlaced :
    {id : Text} {db : Db} {s : ServerRow} {n : NodeRow}
    → IsPlaced id db s n
    → find_placed id db ≡ some (s, n)
unfolding find_placed
find_placed-IsPlaced p = rw (p.server, find_placed, p.node)

pub update_server-IsPlaced :
    {id : Text} {db : Db} {s : ServerRow} {n : NodeRow} (f : ServerRow → ServerRow)
    → ((r : ServerRow) → (f r).id ≡ r.id)
    → ((r : ServerRow) → (f r).node_id ≡ r.node_id)
    → IsPlaced id db s n
    → IsPlaced id (update_server id f db) (f s) n
update_server-IsPlaced {id} {db} {s} {n} f keep stay p = record {
  server = find_server-update_server id f db keep ∙ ap (Option.map f) p.server;
  node = rw (stay s) (unfold update_server find_node in p.node);
}

abbrev pub info : NodeRow → NodeInfo
info n = record { fqdn = n.fqdn; daemon_listen_port = n.daemon_listen_port }

module _ (id : Text) (w : World) {s : ServerRow} {n : NodeRow} (p : IsPlaced id w.db s n) where
  pub require_placed-ok : require_placed id w ≡ (ok s, w)
  unfolding require_placed gets pure ◌>>=◌
  require_placed-ok = rw (find_placed-IsPlaced p)

  pub require_node-ok : require_node id w ≡ (ok (info n), w)
  unfolding require_node gets pure ◌>>=◌
  require_node-ok = rw (find_placed-IsPlaced p)

  pub require_server-ok : require_server id w ≡ (ok s, w)
  unfolding require_server gets pure ◌>>=◌
  require_server-ok = rw p.server

-- the state after a statement on the row of `id`
abbrev pub after_update : Text → (ServerRow → ServerRow) → World → World
after_update id f w = record w { db = update_server id f w.db }

-- the agent's answer to a call, and the state after it
abbrev pub answer : Env → NodeInfo → Text → Action → World → AgentResponse
answer env node id action w =
    env.agent w.calls (record { node = node; server_id = id; action = action })

abbrev pub asked : NodeInfo → Text → Action → World → World
asked node id action w = record w {
  calls = w.calls ++ record { node = node; server_id = id; action = action } ∷ [];
}

-- A block that begins with a call of the agent.
pub agent_post-bind :
    {B : Type 0} (Q : Result B × World → Type 0) (env : Env) (node : NodeInfo) (id : Text)
    (action : Action) (f : AgentResponse → Exec B) {w : World}
    → Q (f (answer env node id action w) (asked node id action w))
    → Q ((agent_post env node id action >>= f) w)
unfolding agent_post ◌>>=◌
agent_post-bind Q env node id action f q = q

-- A block that begins with a read of the state.
pub gets-bind :
    {A B : Type 0} (Q : Result B × World → Type 0) (g : World → A) (f : A → Exec B) {w : World}
    → Q (f (g w) w)
    → Q ((gets g >>= f) w)
unfolding gets ◌>>=◌
gets-bind Q g f q = q

-- A block that begins with a change of the status.
pub set_status-bind :
    {B : Type 0} (Q : Result B × World → Type 0) (id : Text) (status : ServerStatus)
    (f : Unit {0} → Exec B) (w : World)
    → Q (f tt (after_update id (λ r. record r { status = status }) w))
    → Q ((set_status id status >>= f) w)
unfolding set_status ◌>>=◌
set_status-bind Q id status f w q = q

pub mark_installed-bind :
    {B : Type 0} (Q : Result B × World → Type 0) (id : Text) (f : Unit {0} → Exec B) (w : World)
    → Q (f tt (after_update id (λ r. record r { status = running; installed_at = some w.clock }) w))
    → Q ((mark_installed id >>= f) w)
unfolding mark_installed gets modify ◌>>=◌
mark_installed-bind Q id f w q = q
