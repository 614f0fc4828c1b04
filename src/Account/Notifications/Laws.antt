-- ===== src/Account/Notifications/Laws.antt =====
-- What is read back after preferences are written.
use mathlib.Core.Option
use troxe_host.Common.{Bool, Option, none, some, Text, text_eq_refl, ◌≡◌, refl, ◌∙◌, ap, arith}
use troxe_host.Db.{Db, PreferenceRow}
use troxe_host.Db.Patch.{updates, set_all}
use troxe_host.Db.Table.{find_where, find_where-update_where}
use troxe_host.Db.Counting.{find_where-append}
use troxe_host.Account.Notifications.{
  Preferences, is_of, shown, get_preferences, new_preferences, preference_changes, save,
  put_preferences,
}

-- a field of a body over the one from before
abbrev over : Option Bool → Option Bool → Option Bool
over none before = before
over (some b) before = some b

-- The fields that a body names, over those from before.
abbrev pub merged : Preferences → Preferences → Preferences
merged body before = record {
  on_install = over body.on_install before.on_install;
  on_crash = over body.on_crash before.on_crash;
  on_remove = over body.on_remove before.on_remove;
  on_api_key = over body.on_api_key before.on_api_key;
}

-- the four columns, one after the other
set_all-merged :
    (install crash remove api_key : Option Bool) (row : PreferenceRow)
    → (let body : Preferences = record {
      on_install = install;
      on_crash = crash;
      on_remove = remove;
      on_api_key = api_key;
    } in
        shown (some (set_all (preference_changes body) row)) ≡ merged body (shown (some row)))
unfolding shown set_all preference_changes updates
set_all-merged install crash remove api_key row = ground arith

set_all-user :
    (body : Preferences) (row : PreferenceRow)
    → (set_all (preference_changes body) row).user_id ≡ row.user_id
unfolding set_all preference_changes updates
set_all-user body row = ground arith

save-merged :
    (user_id : Text) (body : Preferences) (db : Db) (found : Option PreferenceRow)
    → find_where (is_of user_id) db.preferences ≡ found
    → shown (find_where (is_of user_id) (save user_id body found db).preferences)
      ≡ merged body (shown found)
unfolding save shown
save-merged user_id body db none new =
    rw
      (find_where-append (is_of user_id) db.preferences (new_preferences user_id body) new
        (text_eq_refl user_id))
      (ground arith)
save-merged user_id body db (some row) there =
    ap shown (
      find_where-update_where (is_of user_id) _ db.preferences
        (λ r hit. rw (set_all-user body r) hit)
      ∙ ap (Option.map _) there)
    ∙ set_all-merged body.on_install body.on_crash body.on_remove body.on_api_key row

-- After a user's preferences are written, reading them gives the fields of the body over those that
-- were read before, with or without a row.
pub get-put_preferences :
    (user_id : Text) (body : Preferences) (db : Db)
    → get_preferences user_id (put_preferences user_id body db)
      ≡ merged body (get_preferences user_id db)
unfolding get_preferences put_preferences
get-put_preferences user_id body db = save-merged user_id body db _ refl
