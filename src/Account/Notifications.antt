-- ===== src/Account/Notifications.antt =====
-- panel/src/api/routes/notifications.ts, for the user of the session.
pub mod Laws
use mathlib.Core.Option
use mathlib.Core.List.{reverse, filter}
use troxe_host.Common.{
  ℕ, zero, suc, ◌+◌, ◌*◌, Bool, true, false, not, ◌&&◌, ◌||◌, Option, none, some, List, [], ◌∷◌,
  ◌++◌, map, Text, codes, text_eq, if◌then◌else◌, is_some, ◌==◌, leb, ltb, any, length,
}
use troxe_host.Common.Int.{ℤ, pos, ◌+ℤ◌, ◌-ℤ◌}
use troxe_host.Js.{trim, split_spaces}
use troxe_host.Js.Decimal.{print}
use troxe_host.Db.{
  Db, UserRow, NodeRow, LocationRow, NestRow, AllocationRow, EggRow, ServerRow, ServerStatus,
  install_pending, crashed, BackupRow, BackupStatus, building, Task, ScheduleRow, DatabaseHostRow,
  DatabaseRow, Grant, flag, group, Permissions, SubuserRow, ApiKeyRow, PreferenceRow, JobRow,
  TransferRow, server_install, backup_create, backup_delete, server_command, JobType, Payload,
}
use troxe_host.Db.Table.{find_where, update_where, delete_where, count_where, select_where}
use troxe_host.Db.Patch.{change, updates, set_all}
use troxe_host.Agent.{NodeInfo}
use troxe_host.Effects.{
  World, Env, Mail, MailKind, Exec, Failure, error, db_error, pure, throw, gets, modify, try_catch,
  on_db, fresh_id, send_mail, ◌>>=◌, ◌>>◌,
}
use troxe_host.Workers.Steps.{
  is_server, find_server, find_node, find_egg, find_owner, update_server, node_for_server,
  log_event, subject_server, number_or, should_notify,
}
use troxe_host.Workers.Queue.{add_job, references_ok}
use troxe_host.Workers.Removal.{refers, is_backup}
use troxe_host.Reply.{Reply, sent, failed}
use troxe_host.Servers.{on_server, queue_job, power_job}

-- The body, whose members are absent or Booleans, as its declared type says; null is left out.
pub record Preferences : Type 0 where
  pub on_install : Option Bool
  pub on_crash : Option Bool
  pub on_remove : Option Bool
  pub on_api_key : Option Bool

abbrev pub is_of : Text → PreferenceRow → Bool
is_of user_id p = text_eq p.user_id user_id

-- the answer for a user without a row, and with one
unfoldable pub shown : Option PreferenceRow → Preferences
shown none = record {
  on_install = some true;
  on_crash = some true;
  on_remove = some true;
  on_api_key = some true;
}
shown (some p) = record {
  on_install = p.email_on_install;
  on_crash = p.email_on_crash;
  on_remove = p.email_on_remove;
  on_api_key = p.email_on_api_key;
}

-- `GET /notifications/preferences`
unfoldable pub get_preferences : Text → Db → Preferences
unfolding shown
get_preferences user_id db = shown (find_where (is_of user_id) db.preferences)

-- `value ?? true`
abbrev pub or_true : Option Bool → Option Bool
or_true none = some true
or_true (some b) = some b

abbrev pub new_preferences : Text → Preferences → PreferenceRow
new_preferences user_id body = record {
  user_id = user_id;
  email_on_install = or_true body.on_install;
  email_on_crash = or_true body.on_crash;
  email_on_remove = or_true body.on_remove;
  email_on_api_key = or_true body.on_api_key;
}

unfoldable pub preference_changes : Preferences → List (PreferenceRow → PreferenceRow)
unfolding updates
preference_changes body = updates (
    change body.on_install (λ v r. record r { email_on_install = some v })
    ∷ change body.on_crash (λ v r. record r { email_on_crash = some v })
    ∷ change body.on_remove (λ v r. record r { email_on_remove = some v })
    ∷ change body.on_api_key (λ v r. record r { email_on_api_key = some v })
    ∷ [])

-- the row of a user is made where it is missing, and changed where it is there; with no change the
-- statement is not run
unfoldable pub save : Text → Preferences → Option PreferenceRow → Db → Db
unfolding preference_changes set_all
save user_id body none db = record db {
  preferences = db.preferences ++ new_preferences user_id body ∷ [];
}
save user_id body (some row) db = record db {
  preferences = update_where (is_of user_id) (set_all (preference_changes body)) db.preferences;
}

-- `PUT /notifications/preferences`
unfoldable pub put_preferences : Text → Preferences → Db → Db
unfolding save
put_preferences user_id body db = save user_id body (find_where (is_of user_id) db.preferences) db
