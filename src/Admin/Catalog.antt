-- ===== src/Admin/Catalog.antt =====
-- Locations, nests and eggs: panel/src/api/routes/admin.ts, behind `requireAdmin`.

use troxe_host.Common.{
  ℕ, Bool, true, not, ◌&&◌, Option, none, some, List, [], ◌∷◌, ◌++◌, Text, codes, text_eq,
  if◌then◌else◌, is_some, ltb,
}
use troxe_host.Db.{Db, NodeRow, LocationRow, NestRow, EggRow, ServerRow}
use troxe_host.Db.Table.{find_where, update_where, delete_where, count_where}
use troxe_host.Db.Patch.{change, updates, set_all}
use troxe_host.Effects.{
  Env, Exec, db_error, pure, throw, gets, modify, on_db, fresh_id, ◌>>=◌, ◌>>◌,
}
use troxe_host.Reply.{Reply, sent, failed}

-- `name` and `description` of a body
pub record Named : Type 0 where
  pub name : Text
  pub description : Option Text

pub record NamedChanges : Type 0 where
  pub name : Option Text
  pub description : Option Text

-- `description || null`
abbrev or_null : Option Text → Option Text
or_null none = none
or_null (some []) = none
or_null (some (c ∷ s)) = some (c ∷ s)

abbrev pub is_location : Text → LocationRow → Bool
is_location id l = text_eq l.id id

abbrev pub is_nest : Text → NestRow → Bool
is_nest id n = text_eq n.id id

abbrev pub is_egg : Text → EggRow → Bool
is_egg id e = text_eq e.id id

-- `POST /locations`
unfoldable pub create_location : Env → Named → Exec (Reply LocationRow)
unfolding modify
create_location env body = do
  id ← fresh_id env
  let row : LocationRow = record {
    id = id;
    name = body.name;
    description = or_null body.description;
  }
  on_db (λ db. record db { locations = db.locations ++ row ∷ [] })
  pure (sent row)

change_location : Text → List (LocationRow → LocationRow) → Exec (Reply (Unit {0}))
unfolding modify set_all
change_location id [] = pure (failed 400 (codes "No fields to update"))
change_location id (f ∷ fs) = do
  on_db (λ db. record db {
    locations = update_where (is_location id) (set_all (f ∷ fs)) db.locations;
  })
  pure (sent tt)

-- `PUT /locations/:id`
unfoldable pub update_location : Text → NamedChanges → Exec (Reply (Unit {0}))
unfolding change_location updates
update_location id body = change_location id (
    updates (
      change body.name (λ v r. record r { name = v })
      ∷ change body.description (λ v r. record r { description = some v })
      ∷ []))

-- `DELETE /locations/:id`
unfoldable pub delete_location : Text → Exec (Reply (Unit {0}))
unfolding modify
delete_location id = do
  nodes ← gets (λ w. count_where (λ (n : NodeRow). text_eq n.location_id id) w.db.nodes)
  if ltb 0 nodes then pure (failed 400 (codes "Cannot delete location with nodes in it")) else do
    on_db (λ db. record db { locations = delete_where (is_location id) db.locations })
    pure (sent tt)

-- `POST /nests`
unfoldable pub create_nest : Env → Named → Exec (Reply NestRow)
unfolding modify
create_nest env body = do
  id ← fresh_id env
  let row : NestRow = record { id = id; name = body.name; description = or_null body.description }
  on_db (λ db. record db { nests = db.nests ++ row ∷ [] })
  pure (sent row)

change_nest : Text → List (NestRow → NestRow) → Exec (Reply (Unit {0}))
unfolding modify set_all
change_nest id [] = pure (failed 400 (codes "No fields to update"))
change_nest id (f ∷ fs) = do
  on_db (λ db. record db { nests = update_where (is_nest id) (set_all (f ∷ fs)) db.nests })
  pure (sent tt)

-- `PUT /nests/:id`
unfoldable pub update_nest : Text → NamedChanges → Exec (Reply (Unit {0}))
unfolding change_nest updates
update_nest id body = change_nest id (
    updates (
      change body.name (λ v r. record r { name = v })
      ∷ change body.description (λ v r. record r { description = some v })
      ∷ []))

-- `DELETE /nests/:id`
unfoldable pub delete_nest : Text → Exec (Reply (Unit {0}))
unfolding modify
delete_nest id = do
  eggs ← gets (λ w. count_where (λ (e : EggRow). text_eq e.nest_id id) w.db.eggs)
  if ltb 0 eggs
      then pure (failed 400 (codes "Cannot delete nest with eggs in it"))
      else do on_db (λ db. record db { nests = delete_where (is_nest id) db.nests }); pure (sent tt)

-- the members of an egg's body; the JSON columns `variables` and `config_files` are left out
pub record EggBody : Type 0 where
  pub name : Text
  pub nest_id : Text
  pub docker_image : Text
  pub startup_command : Text
  pub install_script : Option Text
  pub max_databases : Option ℕ
  pub max_allocations : Option ℕ
  pub max_backups : Option ℕ
  pub default_memory_mb : Option ℕ
  pub default_disk_mb : Option ℕ
  pub default_cpu_percent : Option ℕ
  pub default_pid_limit : Option ℕ

-- `value ?? fallback`
abbrev or_else : Option ℕ → ℕ → ℕ
or_else none fallback = fallback
or_else (some n) fallback = n

-- the row of `INSERT INTO eggs`; `cpu_percent` is counted in hundredths
abbrev pub new_egg : Text → EggBody → EggRow
new_egg id body = record {
  id = id;
  name = body.name;
  nest_id = body.nest_id;
  docker_image = body.docker_image;
  startup_command = body.startup_command;
  install_script = or_null body.install_script;
  max_databases = or_else body.max_databases 0;
  max_allocations = or_else body.max_allocations 1;
  max_backups = or_else body.max_backups 5;
  default_memory_mb = or_else body.default_memory_mb 1024;
  default_disk_mb = or_else body.default_disk_mb 10240;
  default_cpu_percent = or_else body.default_cpu_percent 10000;
  default_pid_limit = or_else body.default_pid_limit 1024;
}

-- `POST /eggs`
unfoldable pub create_egg : Env → EggBody → Exec (Reply EggRow)
unfolding modify
create_egg env body = do
  there ← gets (λ w. is_some (find_where (is_nest body.nest_id) w.db.nests))
  if not there then throw (db_error env.foreign_key_error) else do
    id ← fresh_id env
    on_db (λ db. record db { eggs = db.eggs ++ new_egg id body ∷ [] })
    pure (sent (new_egg id body))

pub record EggChanges : Type 0 where
  pub name : Option Text
  pub nest_id : Option Text
  pub docker_image : Option Text
  pub startup_command : Option Text
  pub install_script : Option Text
  pub max_databases : Option ℕ
  pub max_allocations : Option ℕ
  pub max_backups : Option ℕ
  pub default_memory_mb : Option ℕ
  pub default_disk_mb : Option ℕ
  pub default_cpu_percent : Option ℕ
  pub default_pid_limit : Option ℕ

-- the changes of a body, in the order of `fieldMap`
unfoldable pub egg_changes : EggChanges → List (EggRow → EggRow)
unfolding updates
egg_changes body = updates (
    change body.name (λ v r. record r { name = v })
    ∷ change body.nest_id (λ v r. record r { nest_id = v })
    ∷ change body.docker_image (λ v r. record r { docker_image = v })
    ∷ change body.startup_command (λ v r. record r { startup_command = v })
    ∷ change body.install_script (λ v r. record r { install_script = some v })
    ∷ change body.max_databases (λ v r. record r { max_databases = v })
    ∷ change body.max_allocations (λ v r. record r { max_allocations = v })
    ∷ change body.max_backups (λ v r. record r { max_backups = v })
    ∷ change body.default_memory_mb (λ v r. record r { default_memory_mb = v })
    ∷ change body.default_disk_mb (λ v r. record r { default_disk_mb = v })
    ∷ change body.default_cpu_percent (λ v r. record r { default_cpu_percent = v })
    ∷ change body.default_pid_limit (λ v r. record r { default_pid_limit = v })
    ∷ [])

-- whether the nest that a change names is there
abbrev nest_known : Option Text → Db → Bool
nest_known none db = true
nest_known (some id) db = is_some (find_where (is_nest id) db.nests)

change_egg : Env → Text → EggChanges → List (EggRow → EggRow) → Exec (Reply (Unit {0}))
unfolding modify set_all
change_egg env id body [] = pure (failed 400 (codes "No fields to update"))
change_egg env id body (f ∷ fs) = do
  db ← gets (λ w. w.db)
  if is_some (find_where (is_egg id) db.eggs) && not (nest_known body.nest_id db)
      then throw (db_error env.foreign_key_error)
      else do
        on_db (λ db. record db { eggs = update_where (is_egg id) (set_all (f ∷ fs)) db.eggs })
        pure (sent tt)

-- `PUT /eggs/:id`
unfoldable pub update_egg : Env → Text → EggChanges → Exec (Reply (Unit {0}))
unfolding change_egg egg_changes
update_egg env id body = change_egg env id body (egg_changes body)

-- `DELETE /eggs/:id`
unfoldable pub delete_egg : Text → Exec (Reply (Unit {0}))
unfolding modify
delete_egg id = do
  servers ← gets (λ w. count_where (λ (s : ServerRow). text_eq s.egg_id id) w.db.servers)
  if ltb 0 servers
      then pure (failed 400 (codes "Cannot delete egg that is in use by servers"))
      else do on_db (λ db. record db { eggs = delete_where (is_egg id) db.eggs }); pure (sent tt)
