-- ===== src/Servers/Databases/Hosts.antt =====
-- The routes of panel/src/api/routes/database-hosts.ts that make and change a host, behind the guards
-- of its routes.
use troxe_host.Common.{ℕ, List, map, [], ◌∷◌, ◌++◌, Option, none, some, Text, codes}
use troxe_host.Db.{Db, DatabaseHostRow}
use troxe_host.Db.Table.{update_where}
use troxe_host.Db.Patch.{change, updates, set_all}
use troxe_host.Effects.{Env, Exec, pure, modify, on_db, fresh_id, ◌>>=◌, ◌>>◌}
use troxe_host.Reply.{Reply, sent, failed}
use troxe_host.Servers.Databases.{is_host, load}

-- `GET /database-hosts`, whose order by name is left out: each host with its count
unfoldable pub list_hosts : Db → List (DatabaseHostRow × ℕ)
list_hosts db = map (λ (h : DatabaseHostRow). (h, load db h)) db.database_hosts

-- a body that the schema passed, with the schema's defaults
pub record HostBody : Type 0 where
  pub name : Text
  pub host : Text
  pub port : Option ℕ
  pub username : Text
  pub password : Text
  pub max_databases : Option ℕ

abbrev or_default : Option ℕ → ℕ → ℕ
or_default none n = n
or_default (some m) n = m

-- the row of `INSERT INTO database_hosts`
abbrev pub new_host : Text → HostBody → DatabaseHostRow
new_host id body = record {
  id = id;
  name = body.name;
  host = body.host;
  port = or_default body.port 3306;
  username = body.username;
  password_hash = body.password;
  max_databases = or_default body.max_databases 50;
}

-- `POST /database-hosts`
unfoldable pub create_host : Env → HostBody → Exec (Reply DatabaseHostRow)
unfolding modify
create_host env body = do
  id ← fresh_id env
  on_db (λ db. record db { database_hosts = db.database_hosts ++ new_host id body ∷ [] })
  pure (sent (new_host id body))

pub record HostChanges : Type 0 where
  pub name : Option Text
  pub host : Option Text
  pub port : Option ℕ
  pub username : Option Text
  pub password : Option Text
  pub max_databases : Option ℕ

-- the changes of a body, in the order of the code
unfoldable pub host_changes : HostChanges → List (DatabaseHostRow → DatabaseHostRow)
unfolding updates
host_changes body = updates (
    change body.name (λ v r. record r { name = v })
    ∷ change body.host (λ v r. record r { host = v })
    ∷ change body.port (λ v r. record r { port = v })
    ∷ change body.username (λ v r. record r { username = v })
    ∷ change body.password (λ v r. record r { password_hash = v })
    ∷ change body.max_databases (λ v r. record r { max_databases = v })
    ∷ [])

change_host : Text → List (DatabaseHostRow → DatabaseHostRow) → Exec (Reply (Unit {0}))
unfolding modify set_all
change_host id [] = pure (failed 400 (codes "No fields to update"))
change_host id (f ∷ fs) = do
  on_db (λ db. record db {
    database_hosts = update_where (is_host id) (set_all (f ∷ fs)) db.database_hosts;
  })
  pure (sent tt)

-- `PUT /database-hosts/:id`
unfoldable pub update_host : Text → HostChanges → Exec (Reply (Unit {0}))
unfolding change_host host_changes
update_host id body = change_host id (host_changes body)
