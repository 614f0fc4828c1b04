-- ===== src/Account.antt =====
-- The account routes of panel/src/api/routes/auth.ts. The bodies are those that `zod` has let
-- through; random ids, secrets and texts are arguments.
pub mod Laws
pub mod Distinct
pub mod ApiKeys
pub mod Notifications
pub mod Cookies
use troxe_host.Common.{
  ℕ, ◌+◌, ◌*◌, Bool, true, false, not, ◌&&◌, ◌||◌, Option, none, some, List, [], ◌∷◌, ◌++◌, Text,
  codes, text_eq, if◌then◌else◌, is_some, ltb, ◌==◌, length,
}
use troxe_host.Js.{trim}
use troxe_host.Reply.{Reply, sent, failed}
use troxe_host.Db.{Db, UserRow, ActivityRow, ApiKeyRow, PreferenceRow}
use troxe_host.Db.Table.{find_where, update_where, delete_where}
use troxe_host.Effects.{Mail, MailKind}
use troxe_host.Auth.Keys.{Hashing, KeyPrefix, client, admin, generate_api_key}
use troxe_host.Auth.Rbac.{TroxeUser, non_empty}

-- `argon2` and `otplib`: `hash password` for a salt, `verify password hash`, `totp code secret`.
pub record Credentials : Type 0 where
  pub hash : Text → Text
  pub verify : Text → Text → Bool
  pub totp : Text → Text → Bool

abbrev pub is_user : Text → UserRow → Bool
is_user id u = text_eq u.id id

unfoldable pub find_user : Text → Db → Option UserRow
find_user id db = find_where (is_user id) db.users

-- `UPDATE users SET … WHERE id = $1`
unfoldable pub update_user : Text → (UserRow → UserRow) → Db → Db
update_user id f db = record db { users = update_where (is_user id) f db.users }

abbrev log_activity : Text → Text → Text → Db → Db
log_activity id event ip db = record db {
  activity = db.activity ++ record { actor_id = id; event = event; ip_address = ip } ∷ [];
}

pub record RegisterBody : Type 0 where
  pub username : Text
  pub email : Text
  pub password : Text

-- the row of `INSERT INTO users`, with the columns' defaults
abbrev pub new_user : Credentials → Text → RegisterBody → Bool → UserRow
new_user c id body is_first = record {
  id = id;
  username = body.username;
  email = body.email;
  password_hash = c.hash body.password;
  totp_secret = none;
  totp_enabled = false;
  recovery_codes = [];
  root_admin = is_first;
  suspended = false;
  last_login_at = none;
  last_login_ip = none;
}

abbrev pub taken : RegisterBody → UserRow → Bool
taken body u = text_eq u.email body.email || text_eq u.username body.username

-- `POST /auth/register`
unfoldable pub register : Credentials → Text → Text → RegisterBody → Db → Reply UserRow × Db
register c id ip body db =
    let is_first = length db.users == 0 in
    if is_some (find_where (taken body) db.users)
    then (failed 409 (codes "Username or email already taken"), db)
    else (
      sent (new_user c id body is_first),
      log_activity id (codes "user.registered") ip
          (record db { users = db.users ++ new_user c id body is_first ∷ [] }),
    )

pub record LoginBody : Type 0 where
  pub email : Text
  pub password : Text
  pub totp_code : Option Text

-- the user who is logged in, or `requires2fa`
pub data Login : Type 0 where
  logged_in : UserRow → Login
  requires_2fa : Login

-- The second factor of a user who has it enabled. `otplib` is not asked about a row without a secret,
-- which no route leaves enabled: it is refused as a wrong code is.
check_code : Credentials → UserRow → Option Text → Reply Login
check_code c u none = sent requires_2fa
check_code c u (some code) = elim u.totp_secret [
  | none ↦ failed 401 (codes "Invalid 2FA code")
  | some secret ↦
      if not (c.totp code secret) then failed 401 (codes "Invalid 2FA code") else sent (logged_in u)
]

-- the guards of a login, in their order
check_login : Credentials → LoginBody → Option UserRow → Reply Login
unfolding check_code
check_login c body none = failed 401 (codes "Invalid credentials")
check_login c body (some u) =
    if u.suspended
    then failed 403 (codes "Account suspended")
    else if not (c.verify body.password u.password_hash)
    then failed 401 (codes "Invalid credentials")
    else if u.totp_enabled
    then check_code c u (non_empty body.totp_code)
    else sent (logged_in u)

-- the statements after the guards
note_login : ℕ → Text → Reply Login → Db → Reply Login × Db
unfolding update_user
note_login now ip (sent (logged_in u)) db = (
  sent (logged_in u),
  log_activity u.id (codes "user.logged_in") ip
      (update_user u.id (λ r. record r { last_login_at = some now; last_login_ip = some ip }) db),
)
note_login now ip r db = (r, db)

-- `POST /auth/login`
unfoldable pub login : Credentials → ℕ → Text → LoginBody → Db → Reply Login × Db
unfolding check_login note_login
login c now ip body db =
    note_login now ip (check_login c body (find_where (λ u. text_eq u.email body.email) db.users))
      db

pub record ProfileBody : Type 0 where
  pub username : Option Text
  pub email : Option Text
  pub current_password : Text

-- `body.x !== undefined && body.x !== user.x`: the new value
abbrev pub changed : Option Text → Text → Option Text
changed none old = none
changed (some new) old = if text_eq new old then none else some new

-- whether another user has the value
abbrev clashes : (UserRow → Text) → Text → Option Text → Db → Bool
clashes field id none db = false
clashes field id (some new) db =
    is_some (find_where (λ u. text_eq (field u) new && not (is_user id u)) db.users)

abbrev or_old : Option Text → Text → Text
or_old none old = old
or_old (some new) old = new

abbrev set_names : Option Text → Option Text → UserRow → UserRow
set_names name email r = record r {
  username = or_old name r.username;
  email = or_old email r.email;
}

-- the part of `PUT /auth/profile` that follows the test of the password
change_profile : Text → Option Text → Option Text → Db → Reply (Unit {0}) × Db
unfolding update_user
change_profile id name email db =
    if clashes (λ u. u.username) id name db
    then (failed 409 (codes "Username already taken"), db)
    else if clashes (λ u. u.email) id email db
    then (failed 409 (codes "Email already taken"), db)
    else if not (is_some name) && not (is_some email)
    then (failed 400 (codes "No changes to update"), db)
    else (sent tt, update_user id (set_names name email) db)

-- `PUT /auth/profile`
unfoldable pub update_profile : Credentials → Text → ProfileBody → Db → Reply (Unit {0}) × Db
unfolding change_profile find_user
update_profile c id body db = elim (find_user id db) [
  | none ↦ (failed 404 (codes "User not found"), db)
  | some u ↦
      if not (c.verify body.current_password u.password_hash)
      then (failed 401 (codes "Current password is incorrect"), db)
      else change_profile id (changed body.username u.username) (changed body.email u.email) db
]

-- `PUT /auth/password`
unfoldable pub change_password : Credentials → Text → Text → Text → Db → Reply (Unit {0}) × Db
unfolding find_user update_user
change_password c id current new db = elim (find_user id db) [
  | none ↦ (failed 404 (codes "User not found"), db)
  | some u ↦
      if not (c.verify current u.password_hash)
      then (failed 401 (codes "Current password is incorrect"), db)
      else (sent tt, update_user id (λ r. record r { password_hash = c.hash new }) db)
]

-- `POST /auth/2fa/enable`, for the secret that `otplib` generates
unfoldable pub enable_2fa : Text → Text → Db → Reply Text × Db
unfolding update_user
enable_2fa id secret db =
    (sent secret, update_user id (λ r. record r { totp_secret = some secret }) db)

-- `result.rows[0]?.totp_secret`, where it is a text that is not empty
unfoldable pub secret_of : Option UserRow → Option Text
secret_of none = none
secret_of (some u) = non_empty u.totp_secret

-- `POST /auth/2fa/confirm`, for the recovery codes that are drawn
unfoldable pub confirm_2fa : Credentials → Text → Text → List Text → Db → Reply (List Text) × Db
unfolding find_user update_user secret_of
confirm_2fa c id code recovery db = elim (secret_of (find_user id db)) [
  | none ↦ (failed 400 (codes "2FA not initiated"), db)
  | some secret ↦ if not (c.totp code secret) then (failed 400 (codes "Invalid code"), db) else (
    sent recovery,
    update_user id (λ r. record r { totp_enabled = true; recovery_codes = recovery }) db,
  )
]

abbrev valid_code : Credentials → Text → Option Text → Bool
valid_code c code none = false
valid_code c code (some secret) = c.totp code secret

-- `POST /auth/2fa/disable`
unfoldable pub disable_2fa : Credentials → Text → Text → Db → Reply (Unit {0}) × Db
unfolding find_user update_user
disable_2fa c id code db = elim (find_user id db) [
  | none ↦ (failed 400 (codes "2FA not enabled"), db)
  | some u ↦
      if not u.totp_enabled
      then (failed 400 (codes "2FA not enabled"), db)
      else if not (valid_code c code u.totp_secret)
      then (failed 400 (codes "Invalid code"), db)
      else (
        sent tt,
        update_user id
            (λ r. record r { totp_enabled = false; totp_secret = none; recovery_codes = [] }) db,
      )
]
