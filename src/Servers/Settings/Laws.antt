-- ===== src/Servers/Settings/Laws.antt =====
-- The settings of a server against the totals of its node.
use mathlib.Core.Option
use mathlib.Core.Path.{subst}
use troxe_host.Common.{
  ℕ, some, List, [], ◌∷◌, Text, text_eq, text_eq_iff, text_eq_refl, ◌≡◌, ◌≢◌, refl, sym, ◌∙◌, ap,
  arith, All,
}
use troxe_host.Common.Int.{ℤ, pos, pos_part}
use troxe_host.Db.{Db, ServerRow, NodeRow}
use troxe_host.Db.Patch.{updates, set_all}
use troxe_host.Db.Table.{find_where, find_where_sound, update_where, find_where-update_where}
use troxe_host.Db.Counting.{All-find_where}
use troxe_host.Effects.{World, modify, pure, ◌>>=◌}
use troxe_host.Workers.Steps.{is_server, find_server, find_node, update_server}
use troxe_host.Servers.Accounts.{charge, share, IsAccounted, IsOnly, charge-update_where}
use troxe_host.Servers.Settings.{SettingsBody, settings_changes, apply_changes, update_route}

node-charge :
    (servers : List ServerRow) (nodes : List NodeRow) (id : Text) {n : NodeRow}
    → find_where (λ n. text_eq n.id id) nodes ≡ some n
    → All (λ (n : NodeRow). n.allocated_memory_mb ≡ pos (charge n.id servers)) nodes
    → n.allocated_memory_mb ≡ pos (charge id servers)
node-charge servers nodes id {n} found h =
    All-find_where (λ (n : NodeRow). n.allocated_memory_mb ≡ pos (charge n.id servers)) _ nodes
      found h
    ∙ ap (λ x. pos (charge x servers)) ((text_eq_iff n.id id).0 (find_where_sound _ nodes found))

set_all-node :
    (body : SettingsBody) (s : ServerRow) → (set_all (settings_changes body) s).node_id ≡ s.node_id
unfolding set_all settings_changes updates
set_all-node body s = ground arith

set_all-id : (body : SettingsBody) (s : ServerRow) → (set_all (settings_changes body) s).id ≡ s.id
unfolding set_all settings_changes updates
set_all-id body s = ground arith

none_set : (s : ServerRow) → (set_all [] s).memory_mb ≡ s.memory_mb
unfolding set_all
none_set s = refl

set_all-memory :
    (body : SettingsBody) (s : ServerRow) {m : ℕ}
    → body.memory_mb ≡ some m
    → (set_all (settings_changes body) s).memory_mb ≡ m
unfolding set_all settings_changes updates
set_all-memory body s named = ground (arith, named)

-- the totals do not fit the table in which one row reserves more or less than before
charge-differs :
    (id : Text) (f : ServerRow → ServerRow) (s : ServerRow) (rows : List ServerRow) (total : ℤ)
    → IsOnly id s rows
    → (f s).node_id ≡ s.node_id
    → (f s).memory_mb ≢ s.memory_mb
    → total ≡ pos (charge s.node_id rows)
    → total ≢ pos (charge s.node_id (update_where (is_server id) f rows))
charge-differs id f s rows total only node memory before after =
    let step = charge-update_where s.node_id id f s rows only in
    let same : pos (charge s.node_id rows)
        ≡ pos (charge s.node_id (update_where (is_server id) f rows)) =
      sym before ∙ after in
    let totals : charge s.node_id rows ≡ charge s.node_id (update_where (is_server id) f rows) =
      ap pos_part same in
    let old : share s.node_id s ≡ s.memory_mb = rw (text_eq_refl s.node_id) refl in
    let new : share s.node_id (f s) ≡ (f s).memory_mb = rw (node, text_eq_refl s.node_id) refl in
    memory (omega (arith, step, totals, old, new))

-- What a change of a server's memory leaves: the nodes as they were, the server with its new memory,
-- and totals that are no longer the sums of the servers.
abbrev pub IsAstray : Text → ℕ → Db → Db → Type 0
IsAstray id memory before after =
    (after.nodes ≡ before.nodes)
    × (Option.map (λ (s : ServerRow). s.memory_mb) (find_server id after) ≡ some memory)
    × (¬ (IsAccounted after))

apply_changes-unaccounted :
    (id : Text) (fs : List (ServerRow → ServerRow)) (w : World) {s : ServerRow} {n : NodeRow}
    → IsOnly id s w.db.servers
    → find_node s.node_id w.db ≡ some n
    → ((r : ServerRow) → (set_all fs r).id ≡ r.id)
    → (set_all fs s).node_id ≡ s.node_id
    → (set_all fs s).memory_mb ≢ s.memory_mb
    → IsAccounted w.db
    → IsAstray id (set_all fs s).memory_mb w.db (apply_changes id fs w).1.db
unfolding apply_changes update_server modify pure ◌>>=◌ find_node find_server
apply_changes-unaccounted id [] w {s} only there keep node memory before =
    absurd (memory (none_set s))
apply_changes-unaccounted id (f ∷ fs) w {s} only there keep node memory before = (
  refl,
  ap (Option.map (λ (r : ServerRow). r.memory_mb)) (
      find_where-update_where (is_server id) (set_all (f ∷ fs)) w.db.servers
        (λ r k. ap (λ x. text_eq x id) (keep r) ∙ k)
      ∙ ap (Option.map (set_all (f ∷ fs))) only.0),
  λ after.
      charge-differs id (set_all (f ∷ fs)) s w.db.servers _ only node memory
        (node-charge w.db.servers w.db.nodes s.node_id there before)
        (node-charge _ w.db.nodes s.node_id there after),
)

-- Where the column of every node is the sum of its servers, and the settings route gives a server
-- another memory, the server has the new memory, the nodes are as they were, and the columns are no
-- longer the sums.
pub update_route-unaccounted :
    (id : Text) (body : SettingsBody) (w : World) (m : ℕ) {s : ServerRow} {n : NodeRow}
    → IsOnly id s w.db.servers
    → find_node s.node_id w.db ≡ some n
    → body.memory_mb ≡ some m
    → m ≢ s.memory_mb
    → IsAccounted w.db
    → IsAstray id m w.db (update_route id body w).1.db
unfolding update_route
update_route-unaccounted id body w m {s} only there named other before =
    subst (λ x. IsAstray id x w.db (update_route id body w).1.db) (set_all-memory body s named)
      (apply_changes-unaccounted id (settings_changes body) w only there (set_all-id body)
        (set_all-node body s) (λ same. other (sym (set_all-memory body s named) ∙ same)) before)
