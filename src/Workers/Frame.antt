-- ===== src/Workers/Frame.antt =====
-- What a job leaves alone. A predicate on the database that does not see the statements of one
-- server's jobs is kept by every one of them, whether it returns or throws.

use troxe_host.Common.{ℕ, Option, none, some, List, Text}
use troxe_host.Db.{Db, ServerStatus, running, BackupRow, EventRow}
use troxe_host.Agent.{NodeInfo, Action}
use troxe_host.Effects.{World, Env, Mail, Failure, gets, modify, ◌>>=◌, send_mail}
use troxe_host.Effects.Keeps.{Keeps, keeps_rules}
use troxe_host.Workers.Steps.{
  update_server, set_status, mark_installed, require_node, require_server, require_placed,
  agent_post, log_event, or_throw,
}
use troxe_host.Workers.Removal.{drop_server, update_backup}

-- The changes that the jobs of the server `id` make to the database.
pub record Stable (id : Text) (Q : Db → Type 0) : Type 0 where
  pub status :
      (s : ServerStatus) (db : Db) → Q db → Q (update_server id (λ r. record r { status = s }) db)
  pub installed :
      (now : Option ℕ) (db : Db)
      → Q db
      → Q (update_server id (λ r. record r { status = running; installed_at = now }) db)
  pub events : (es : List EventRow) (db : Db) → Q db → Q (record db { events = es })
  pub backups : (bs : List BackupRow) (db : Db) → Q db → Q (record db { backups = bs })
  pub drop : (db : Db) → Q db → Q (drop_server id db)

-- a predicate on the database, of a state
unfoldable pub OnDb : (Db → Type 0) → World → Type 0
OnDb Q w = Q w.db

pub set_status-Keeps :
    {id : Text} {Q : Db → Type 0} (s : ServerStatus)
    → Stable id Q
    → Keeps (OnDb Q) (set_status id s)
unfolding OnDb set_status
set_status-Keeps s stable = record { at = λ w h. stable.status s w.db h }

pub mark_installed-Keeps :
    {id : Text} {Q : Db → Type 0} → Stable id Q → Keeps (OnDb Q) (mark_installed id)
unfolding OnDb mark_installed gets modify ◌>>=◌
mark_installed-Keeps stable = record { at = λ w h. stable.installed (some w.clock) w.db h }

pub log_event-Keeps :
    {id : Text} {Q : Db → Type 0} (event subject what : Text)
    → Stable id Q
    → Keeps (OnDb Q) (log_event event subject what)
unfolding OnDb log_event
log_event-Keeps event subject what stable = record { at = λ w h. stable.events _ w.db h }

pub update_backup-Keeps :
    {id : Text} {Q : Db → Type 0} (what : Text) (f : BackupRow → BackupRow)
    → Stable id Q
    → Keeps (OnDb Q) (update_backup what f)
unfolding OnDb update_backup
update_backup-Keeps what f stable = record { at = λ w h. stable.backups _ w.db h }

pub agent_post-Keeps :
    {id : Text} {Q : Db → Type 0} (env : Env) (node : NodeInfo) (to : Text) (action : Action)
    → Stable id Q
    → Keeps (OnDb Q) (agent_post env node to action)
unfolding OnDb agent_post
agent_post-Keeps env node to action stable = record { at = λ w h. h }

pub send_mail-Keeps :
    {id : Text} {Q : Db → Type 0} (m : Mail) → Stable id Q → Keeps (OnDb Q) (send_mail m)
unfolding OnDb send_mail
send_mail-Keeps m stable = record { at = λ w h. h }

or_throw-Keeps :
    {P : World → Type 0} {A : Type 0} (e : Failure) (o : Option A) → Keeps P (or_throw e o)
or_throw-Keeps e none = search keeps_rules
or_throw-Keeps e (some a) = search keeps_rules

pub require_node-Keeps : {P : World → Type 0} (what : Text) → Keeps P (require_node what)
unfolding require_node
require_node-Keeps what = search (keeps_rules, or_throw-Keeps)

pub require_server-Keeps : {P : World → Type 0} (what : Text) → Keeps P (require_server what)
unfolding require_server
require_server-Keeps what = search (keeps_rules, or_throw-Keeps)

pub require_placed-Keeps : {P : World → Type 0} (what : Text) → Keeps P (require_placed what)
unfolding require_placed
require_placed-Keeps what = search (keeps_rules, or_throw-Keeps)

pub ruleset step_rules = (
  keeps_rules, set_status-Keeps, mark_installed-Keeps, log_event-Keeps, update_backup-Keeps,
  agent_post-Keeps, send_mail-Keeps, require_node-Keeps, require_server-Keeps, require_placed-Keeps,
)
