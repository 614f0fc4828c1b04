-- ===== src/Servers/Backups/Limit.antt =====
-- The number of backups of a server stays within the limit of its egg.
use mathlib.Core.Option
use mathlib.Core.Option.{some-injective}
use mathlib.Core.Path.{subst}
use troxe_host.Common.{
  ℕ, ◌+◌, ◌≤◌, true, false, Option, none, some, [], ◌∷◌, ◌++◌, Text, text_eq, text_eq_iff, ◌≡◌, sym,
  ◌∙◌, ap, arith, Bool-cases, Option-cases, inl, inr, leb,
}
use troxe_host.Db.{Db, ServerRow, EggRow, BackupRow}
use troxe_host.Db.Table.{count_where}
use troxe_host.Db.Counting.{count_where-append, count_where-update_where, count_where-delete_where}
use troxe_host.Agent.{NodeInfo, Action, AgentResponse, accepted, refused}
use troxe_host.Effects.{World, Env, pure, gets, modify, fresh_id, ◌>>=◌}
use troxe_host.Effects.Keeps.{Keeps, Keeps-bind, Keeps-pure, keeps_rules}
use troxe_host.Workers.Frame.{require_node-Keeps}
use troxe_host.Workers.Steps.{agent_post, log_event, find_server, find_egg}
use troxe_host.Workers.Queue.Adding.{IsQuiet, add_job-Keeps}
use troxe_host.Workers.Removal.{
  is_backup, update_backup, finish_backup, create_backup, delete_on, delete_file, delete_backup_row,
  delete_backup,
}
use troxe_host.Servers.Backups.{
  server_and_egg, of_server, new_backup, insert_backup, store_backup, create_within, create_route,
  queue_delete, delete_route,
}

-- the limit that the egg of a server sets
abbrev pub limit : Text → Db → Option ℕ
limit id db = Option.map (λ (p : ServerRow × EggRow). p.1.max_backups) (server_and_egg id db)

-- The limit of the server is `m`, and it has no more backups.
pub record IsWithin (id : Text) (m : ℕ) (w : World) : Type 0 where
  pub same : limit id w.db ≡ some m
  pub few : count_where (of_server id) w.db.backups ≤ m

module _ {id : Text} {m : ℕ} where
  IsWithin-IsQuiet : IsQuiet (IsWithin id m)
  unfolding server_and_egg find_server find_egg
  IsWithin-IsQuiet w jobs queue next h = record { same = h.same; few = h.few }

  fresh_id-Keeps : (env : Env) → Keeps (IsWithin id m) (fresh_id env)
  unfolding fresh_id server_and_egg find_server find_egg
  fresh_id-Keeps env = record { at = λ w h. record { same = h.same; few = h.few } }

  agent_post-Keeps :
      (env : Env) (at_node : NodeInfo) (to : Text) (action : Action)
      → Keeps (IsWithin id m) (agent_post env at_node to action)
  unfolding agent_post server_and_egg find_server find_egg
  agent_post-Keeps env at_node to action = record {
    at = λ w h. record { same = h.same; few = h.few };
  }

  log_event-Keeps :
      (event subject what : Text) → Keeps (IsWithin id m) (log_event event subject what)
  unfolding log_event modify server_and_egg find_server find_egg
  log_event-Keeps event subject what = record { at = λ w h. record { same = h.same; few = h.few } }

  update_backup-Keeps :
      (what : Text) (f : BackupRow → BackupRow)
      → ((b : BackupRow) → of_server id (f b) ≡ of_server id b)
      → Keeps (IsWithin id m) (update_backup what f)
  unfolding update_backup modify server_and_egg find_server find_egg
  update_backup-Keeps what f keep = record {
    at = λ w h. record {
      same = h.same;
      few = omega (
        arith,
        h.few,
        count_where-update_where (of_server id) (is_backup what) f w.db.backups (λ b hit. keep b),
      );
    };
  }

  delete_backup_row-Keeps : (what : Text) → Keeps (IsWithin id m) (delete_backup_row what)
  unfolding delete_backup_row modify server_and_egg find_server find_egg
  delete_backup_row-Keeps what = record {
    at = λ w h. record {
      same = h.same;
      few =
          omega
            (arith, h.few, count_where-delete_where (of_server id) (is_backup what) w.db.backups);
    };
  }

  finish_backup-Keeps :
      (what : Text) (resp : AgentResponse) → Keeps (IsWithin id m) (finish_backup what resp)
  unfolding finish_backup
  finish_backup-Keeps what (accepted d) = search (keeps_rules, update_backup-Keeps, log_event-Keeps)
  finish_backup-Keeps what (refused status e) = search (keeps_rules, update_backup-Keeps)

  create_backup-Keeps :
      (env : Env) (what to : Text) → Keeps (IsWithin id m) (create_backup env what to)
  unfolding create_backup
  create_backup-Keeps env what to =
      search (
        keeps_rules, update_backup-Keeps, require_node-Keeps, agent_post-Keeps, finish_backup-Keeps,
      )

  delete_on-Keeps :
      (env : Env) (to file : Text) (at_node : Option NodeInfo)
      → Keeps (IsWithin id m) (delete_on env to file at_node)
  unfolding delete_on
  delete_on-Keeps env to file none = search keeps_rules
  delete_on-Keeps env to file (some n) = search (keeps_rules, agent_post-Keeps)

  delete_file-Keeps :
      (env : Env) (to : Text) (path : Option Text) → Keeps (IsWithin id m) (delete_file env to path)
  unfolding delete_file
  delete_file-Keeps env to none = search keeps_rules
  delete_file-Keeps env to (some []) = search keeps_rules
  delete_file-Keeps env to (some (c ∷ path)) = search (keeps_rules, delete_on-Keeps)

  delete_backup-Keeps :
      (env : Env) (what to : Text) → Keeps (IsWithin id m) (delete_backup env what to)
  unfolding delete_backup
  delete_backup-Keeps env what to = search (keeps_rules, delete_file-Keeps, delete_backup_row-Keeps)

  queue_delete-Keeps :
      (env : Env) (to what : Text) (found : Option BackupRow)
      → Keeps (IsWithin id m) (queue_delete env to what found)
  unfolding queue_delete
  queue_delete-Keeps env to what none = search keeps_rules
  queue_delete-Keeps env to what (some b) =
      search (keeps_rules, add_job-Keeps env, IsWithin-IsQuiet)

  delete_route-Keeps :
      (env : Env) (to what : Text) → Keeps (IsWithin id m) (delete_route env to what)
  unfolding delete_route
  delete_route-Keeps env to what = search (keeps_rules, queue_delete-Keeps)

  -- the insertion, where the server still has room
  insert-IsWithin :
      (b : BackupRow) (next : ℕ) (w : World)
      → (text_eq b.server_id id ≡ true → count_where (of_server id) w.db.backups + 1 ≤ m)
      → IsWithin id m w
      → IsWithin id m
          (record w { db = record w.db { backups = w.db.backups ++ b ∷ [] }; next_id = next })
  unfolding server_and_egg find_server find_egg
  insert-IsWithin b next w room h = record {
    same = h.same;
    few = elim (Bool-cases (text_eq b.server_id id)) [
      | inl hit ↦ rw (count_where-append (of_server id) w.db.backups b, hit) (room hit)
      | inr miss ↦
          rw (count_where-append (of_server id) w.db.backups b, miss) (omega (arith, h.few))
    ];
  }

  store_backup-IsWithin :
      (env : Env) (to name at_node : Text) (w : World)
      → (text_eq to id ≡ true → count_where (of_server id) w.db.backups + 1 ≤ m)
      → IsWithin id m w
      → IsWithin id m (store_backup env to name at_node w).1
  unfolding store_backup insert_backup fresh_id modify ◌>>=◌
  store_backup-IsWithin env to name at_node w room h =
      (Keeps-bind _ _ (add_job-Keeps env _ _ _ IsWithin-IsQuiet) (λ _. Keeps-pure _)).at _
        (insert-IsWithin (new_backup (env.new_id w.next_id) to name) _ w room h)

  has_room :
      (to : Text) (s : ServerRow) (e : EggRow) (w : World)
      → server_and_egg to w.db ≡ some (s, e)
      → leb e.max_backups (count_where (of_server to) w.db.backups) ≡ false
      → to ≡ id
      → IsWithin id m w
      → count_where (of_server id) w.db.backups + 1 ≤ m
  has_room to s e w found room mine h =
      let found_here : server_and_egg id w.db ≡ some (s, e) =
        subst (λ x. server_and_egg x w.db ≡ some (s, e)) mine found in
      let room_here : leb e.max_backups (count_where (of_server id) w.db.backups) ≡ false =
        subst (λ x. leb e.max_backups (count_where (of_server x) w.db.backups) ≡ false) mine room in
      let limited : some e.max_backups ≡ some m =
        sym (ap (Option.map (λ (p : ServerRow × EggRow). p.1.max_backups)) found_here) ∙ h.same in
      let is_m : e.max_backups ≡ m = some-injective _ _ limited in ground (arith, room_here, is_m)

  create_route-Keeps :
      (env : Env) (to : Text) (name : Option Text) (stamp : Text)
      → Keeps (IsWithin id m) (create_route env to name stamp)
  unfolding create_route create_within gets pure ◌>>=◌
  create_route-Keeps env to name stamp = record {
    at = λ w h. elim (Option-cases (server_and_egg to w.db)) [
      | inl missing ↦ rw missing h
      | inr ((s, e), found) ↦
          elim (Bool-cases (leb e.max_backups (count_where (of_server to) w.db.backups))) [
            | inl full ↦ rw (found, full) h
            | inr room ↦
                rw (found, room)
                  (store_backup-IsWithin env to _ s.node_id w
                    (λ mine. has_room to s e w found room ((text_eq_iff to id).0 mine) h) h)
          ]
    ];
  }

-- What users and the worker do to the backups of all servers, in any order.
pub data Use (env : Env) : World → World → Type 0 where
  asks_create :
      (to : Text) (name : Option Text) (stamp : Text) (w : World)
      → Use env w (create_route env to name stamp w).1
  asks_delete : (to what : Text) (w : World) → Use env w (delete_route env to what w).1
  works_create : (what to : Text) (w : World) → Use env w (create_backup env what to w).1
  works_delete : (what to : Text) (w : World) → Use env w (delete_backup env what to w).1

pub data Uses (env : Env) (start : World) : World → Type 0 where
  here : Uses env start start
  next : {w after : World} → Uses env start w → Use env w after → Uses env start after

Use-IsWithin :
    {id : Text} {m : ℕ} {env : Env} {w after : World}
    → Use env w after
    → IsWithin id m w
    → IsWithin id m after
Use-IsWithin (asks_create to name stamp w) h = (create_route-Keeps _ to name stamp).at w h
Use-IsWithin (asks_delete to what w) h = (delete_route-Keeps _ to what).at w h
Use-IsWithin (works_create what to w) h = (create_backup-Keeps _ what to).at w h
Use-IsWithin (works_delete what to w) h = (delete_backup-Keeps _ what to).at w h

-- Where a server has at most as many backups as its egg allows, it has so after any run of the
-- create and delete routes, of this and of other servers, and of the jobs that they queue, those
-- that are refused or fail included.
pub Uses-IsWithin :
    {id : Text} {m : ℕ} {env : Env} {start w : World}
    → IsWithin id m start
    → Uses env start w
    → IsWithin id m w
Uses-IsWithin h here = h
Uses-IsWithin h (next more use_) = Use-IsWithin use_ (Uses-IsWithin h more)
