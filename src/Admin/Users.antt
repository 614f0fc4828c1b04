-- ===== src/Admin/Users.antt =====
-- The users' routes of panel/src/api/routes/admin.ts, behind `requireAdmin`.

use troxe_host.Common.{Bool, Text, codes, text_eq, if◌then◌else◌, any}
use troxe_host.Db.{Db, ServerRow}
use troxe_host.Db.Table.{delete_where}
use troxe_host.Effects.{Env, Exec, db_error, pure, throw, gets, modify, on_db, ◌>>=◌, ◌>>◌}
use troxe_host.Reply.{Reply, sent, failed}
use troxe_host.Account.{is_user, update_user}

-- what `DELETE FROM users` takes with it, by migrations 010, 011 and 016
unfoldable pub drop_user : Text → Db → Db
drop_user id db = record db {
  users = delete_where (is_user id) db.users;
  subusers = delete_where (λ s. text_eq s.user_id id) db.subusers;
  api_keys = delete_where (λ k. text_eq k.user_id id) db.api_keys;
  preferences = delete_where (λ p. text_eq p.user_id id) db.preferences;
}

-- `DELETE FROM users WHERE id = $1`; a server of the user refuses it, by migration 007
unfoldable pub delete_user_row : Env → Text → Exec (Reply (Unit {0}))
unfolding modify drop_user
delete_user_row env id = do
  owns ← gets (λ w. any (λ (s : ServerRow). text_eq s.owner_id id) w.db.servers)
  if owns then throw (db_error env.foreign_key_error) else do on_db (drop_user id); pure (sent tt)

-- `DELETE /users/:id`, called by the user `caller`
unfoldable pub delete_user : Env → Text → Text → Exec (Reply (Unit {0}))
unfolding delete_user_row
delete_user env caller id =
    if text_eq id caller
    then pure (failed 400 (codes "Cannot delete your own account"))
    else delete_user_row env id

-- `PATCH /users/:id/suspend`, called by the user `caller`
unfoldable pub suspend_user : Text → Text → Bool → Exec (Reply (Unit {0}))
unfolding modify update_user
suspend_user caller id suspended =
    if text_eq id caller
    then pure (failed 400 (codes "Cannot suspend your own account"))
    else on_db (update_user id (λ r. record r { suspended = suspended })) >>= λ _. pure (sent tt)
