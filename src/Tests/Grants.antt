-- ===== src/Tests/Grants.antt =====
-- Subusers, keys and preferences, on the small panel.
use troxe_host.Common.{arith, true, false, none, some, [], ◌∷◌, codes, refl, ◌≡◌, text_eq}
use troxe_host.Js.{includes}
use troxe_host.Db.{SubuserRow, Permissions, flag}
use troxe_host.Db.Table.{count_where, find_where}
use troxe_host.Effects.{World}
use troxe_host.Servers.Subusers.{GrantBody, add_route, update_route}
use troxe_host.Servers.Subusers.Laws.{IsSingle, here, added, Grants-IsSingle}
use troxe_host.Servers.Subusers.Granting.{IsWithheld, Grants-refused, update_route-passed}
use troxe_host.Auth.Rbac.{server_guards, owns, granted, subuser_row}
use troxe_host.Auth.Rbac.Laws.{is_passed}
use troxe_host.Auth.Keys.{validate_api_key}
use troxe_host.Account.ApiKeys.{create_key}
use troxe_host.Account.ApiKeys.Laws as Keys
use troxe_host.Account.Notifications.{Preferences, get_preferences, put_preferences}
use troxe_host.Account.Notifications.Laws.{merged, get-put_preferences}
use troxe_host.Tests.{owner, db, world, up}
use troxe_host.Tests.Access.{alice, helper, hashing}

-- a second user, whom the owner makes a subuser
abbrev inviting : World
inviting = record world {
  db = record db {
    users =
        owner ∷ record owner { id = codes "u2"; username = codes "bob"; email = codes "b@x" } ∷ [];
  };
}

abbrev body : GrantBody
body = record {
  control = some ((codes "start", true) ∷ []);
  file = some ((codes "read", true) ∷ []);
  backup = none;
  database = none;
  schedule = none;
  websocket = none;
}

inviting-IsSingle : IsSingle inviting
unfolding count_where
inviting-IsSingle = record { rows = λ server_id user_id. omega arith }

Grants-IsSingle_example :
    IsSingle (add_route up (codes "s1") (codes "u1") (codes "b@x") body inviting).1
Grants-IsSingle_example =
    Grants-IsSingle inviting-IsSingle (added (codes "s1") (codes "u1") (codes "b@x") body here)

inviting-IsWithheld : IsWithheld (codes "backup.read") inviting
inviting-IsWithheld = record { rows = tt }

dotted : includes b'.' (codes "backup.read") ≡ true
unfolding includes
dotted = refl

Grants-refused_example :
    is_passed (
      server_guards
        (codes "backup.read")
        (codes "s1")
        helper
        (add_route up (codes "s1") (codes "u1") (codes "b@x") body inviting).1.db)
    ≡ false
Grants-refused_example =
    Grants-refused (codes "backup.read") b's' (codes "1") helper inviting-IsWithheld
      (added (codes "s1") (codes "u1") (codes "b@x") body here) refl refl dotted

-- the small panel with the second user as a subuser
abbrev member : SubuserRow
member = record { id = codes "m1"; server_id = codes "s1"; user_id = codes "u2"; permissions = [] }

abbrev joined : World
joined = record world { db = record db { subusers = member ∷ [] } }

member_there : subuser_row (codes "u2") (codes "s1") joined.db ≡ some member
unfolding subuser_row find_where text_eq
member_there = refl

member_no_owner : owns (codes "u2") (codes "s1") joined.db ≡ false
unfolding owns find_where text_eq
member_no_owner = refl

abbrev keyed : Permissions
keyed = (codes "backup.read", flag true) ∷ []

update_route-passed_example :
    is_passed (
      server_guards
        (codes "backup.read")
        (codes "s1")
        helper
        (update_route (codes "m1") keyed joined).1.db)
    ≡ granted (codes "backup.read") keyed
update_route-passed_example =
    update_route-passed (codes "backup.read") b's' (codes "1") helper keyed joined member_there
      member_no_owner refl refl

Use-refused_example :
    validate_api_key hashing 9
      (codes "txc_00ff")
      (create_key up hashing alice (codes "ci") (codes "00ff") (some 30) world).1.db
    ≡ (none, (create_key up hashing alice (codes "ci") (codes "00ff") (some 30) world).1.db)
Use-refused_example =
    Keys.Use-refused 9 (codes "txc_00ff") tt
      (Keys.made alice (codes "ci") b'0' (codes "0ff") (some 30) Keys.here)

abbrev wishes : Preferences
wishes = record { on_install = none; on_crash = some false; on_remove = none; on_api_key = none }

get-put_preferences_example :
    get_preferences (codes "u1") (put_preferences (codes "u1") wishes db)
    ≡ merged wishes (get_preferences (codes "u1") db)
get-put_preferences_example = get-put_preferences (codes "u1") wishes db
