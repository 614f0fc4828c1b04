-- ===== src/Account/ApiKeys.antt =====
-- The routes of API keys of panel/src/api/routes/auth.ts, for the user of the session. A day of the
-- expiry is 86400000 milliseconds of the clock.
pub mod Laws
use mathlib.Core.Option
use mathlib.Core.List.{reverse, filter}
use troxe_host.Common.{
  ℕ, zero, suc, ◌+◌, ◌*◌, Bool, true, false, not, ◌&&◌, ◌||◌, Option, none, some, List, [], ◌∷◌,
  ◌++◌, map, Text, codes, text_eq, if◌then◌else◌, is_some, ◌==◌, leb, ltb, any, length,
}
use troxe_host.Common.Int.{ℤ, pos, ◌+ℤ◌, ◌-ℤ◌}
use troxe_host.Js.{trim, split_spaces}
use troxe_host.Js.Decimal.{print}
use troxe_host.Db.{
  Db, UserRow, NodeRow, LocationRow, NestRow, AllocationRow, EggRow, ServerRow, ServerStatus,
  install_pending, crashed, BackupRow, BackupStatus, building, Task, ScheduleRow, DatabaseHostRow,
  DatabaseRow, Grant, flag, group, Permissions, SubuserRow, ApiKeyRow, PreferenceRow, JobRow,
  TransferRow, server_install, backup_create, backup_delete, server_command, JobType, Payload,
}
use troxe_host.Db.Table.{find_where, update_where, delete_where, count_where, select_where}
use troxe_host.Db.Patch.{change, updates, set_all}
use troxe_host.Agent.{NodeInfo}
use troxe_host.Effects.{
  World, Env, Mail, MailKind, Exec, Failure, error, db_error, pure, throw, gets, modify, try_catch,
  on_db, fresh_id, send_mail, ◌>>=◌, ◌>>◌,
}
use troxe_host.Workers.Steps.{
  is_server, find_server, find_node, find_egg, find_owner, update_server, node_for_server,
  log_event, subject_server, number_or, should_notify,
}
use troxe_host.Workers.Queue.{add_job, references_ok}
use troxe_host.Workers.Removal.{refers, is_backup}
use troxe_host.Reply.{Reply, sent, failed}
use troxe_host.Servers.{on_server, queue_job, power_job}
use troxe_host.Auth.Keys.{Hashing, KeyPrefix, client, admin, generate_api_key}
use troxe_host.Auth.Rbac.{TroxeUser}

-- `request.user!.rootAdmin ? "txa_" : "txc_"`
abbrev pub prefix_for : TroxeUser → KeyPrefix
prefix_for u = if u.root_admin then admin else client

-- the time of `setDate(getDate() + days)`, where there are days
abbrev pub expiry : ℕ → Option ℕ → Option ℕ
expiry now none = none
expiry now (some days) = if days == 0 then none else some (now + days * 86400000)

-- the row of `INSERT INTO api_keys`
unfoldable pub new_key : Hashing → ℕ → TroxeUser → Text → Text → Text → Option ℕ → ApiKeyRow
unfolding generate_api_key
new_key h now u id name raw days =
    let k = generate_api_key h (prefix_for u) raw in
    record {
      id = id;
      user_id = u.user_id;
      name = trim name;
      key_prefix = k.key_prefix;
      key_hash = k.key_hash;
      permissions = [];
      expires_at = expiry now days;
      last_used_at = none;
    }

-- the mail about a new key
unfoldable pub notify_created : Env → TroxeUser → Text → Exec (Unit {0})
notify_created env u name = do
  db ← gets (λ w. w.db)
  if should_notify env (λ p. p.email_on_api_key) u.user_id db
      then send_mail (record { kind = MailKind.api_key_created; to = u.email; about = trim name })
      else pure tt

abbrev pub is_blank : Text → Bool
is_blank name = text_eq (trim name) []

-- the row, the mail and the answer of a key with a name
unfoldable pub store_key :
    Env → Hashing → TroxeUser → Text → Text → Option ℕ → Exec (Reply (ApiKeyRow × Text))
unfolding notify_created modify
store_key env h u name raw days = do
  now ← gets (λ w. w.clock)
  id ← fresh_id env
  on_db (λ db. record db { api_keys = db.api_keys ++ new_key h now u id name raw days ∷ [] })
  try_catch (notify_created env u name) (λ err. pure tt)
  pure (sent (new_key h now u id name raw days, (generate_api_key h (prefix_for u) raw).key))

-- `POST /auth/api-keys`, from the text of 32 random bytes: the row, and the key
unfoldable pub create_key :
    Env → Hashing → TroxeUser → Text → Text → Option ℕ → Exec (Reply (ApiKeyRow × Text))
unfolding store_key
create_key env h u name raw days =
    if is_blank name
    then pure (failed 400 (codes "Name is required"))
    else store_key env h u name raw days

-- `GET /auth/api-keys`, the latest first
unfoldable pub list_keys : Text → Db → List ApiKeyRow
list_keys user_id db = reverse (select_where (λ k. text_eq k.user_id user_id) db.api_keys)

abbrev pub is_own : Text → Text → ApiKeyRow → Bool
is_own id user_id k = text_eq k.id id && text_eq k.user_id user_id

-- `DELETE /auth/api-keys/:id`
unfoldable pub delete_key : Text → Text → Db → Db
delete_key id user_id db = record db { api_keys = delete_where (is_own id user_id) db.api_keys }
