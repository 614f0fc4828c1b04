-- ===== src/Auth/Rbac.antt =====
-- The guards of panel/src/api/middleware/rbac.ts.
pub mod Laws
use troxe_host.Common.{
  ℕ, Bool, true, false, not, ◌&&◌, Option, none, some, List, [], ◌∷◌, Text, codes, text_eq,
  if◌then◌else◌, is_some, ◌++◌,
}
use troxe_host.Db.{Db, ServerRow, SubuserRow, Permissions, Grant, flag, group}
use troxe_host.Db.Table.{find_where}
use troxe_host.Auth.Keys.{Hashing, KeyUser, bearer, validate_api_key}

-- `request.user`
pub record TroxeUser : Type 0 where
  pub id : Text
  pub user_id : Text
  pub username : Text
  pub email : Text
  pub root_admin : Bool
  pub permissions : Permissions
  pub is_client : Bool
  pub is_admin : Bool

-- A guard lets the request through with its user, or answers with a status and an error.
pub data Guarded {ℓ} (A : Type ℓ) : Type ℓ where
  pass : A → Guarded A
  deny : ℕ → Text → Guarded A

infixl 10 ◌>>=◌ ◌>>◌
abbrev pub ◌>>=◌ {ℓ κ} : {A : Type ℓ} {B : Type κ} → Guarded A → (A → Guarded B) → Guarded B
pass a >>= f = f a
deny status message >>= f = deny status message

abbrev pub ◌>>◌ {ℓ κ} : {A : Type ℓ} {B : Type κ} → Guarded A → Guarded B → Guarded B
m >> n = m >>= λ _. n

abbrev key_user : KeyUser → TroxeUser
key_user u = record {
  id = u.id;
  user_id = u.user_id;
  username = u.username;
  email = u.email;
  root_admin = u.root_admin;
  permissions = u.permissions;
  is_client = u.is_client;
  is_admin = u.is_admin;
}

-- `authenticateApiKey`
unfoldable pub authenticate_api_key : Hashing → ℕ → Option Text → Db → Guarded TroxeUser × Db
authenticate_api_key h now header db = elim (bearer header) [
  | none ↦ (deny 401 (codes "Bearer token required"), db)
  | some key ↦
      let (found, db') = validate_api_key h now key db in
      elim found [
        | none ↦ (deny 401 (codes "Invalid API key"), db')
        | some u ↦ (pass (key_user u), db')
      ]
]

-- `requireAdmin`
unfoldable pub require_admin : Option TroxeUser → Guarded TroxeUser
require_admin none = deny 403 (codes "Admin access required")
require_admin (some u) =
    if not u.root_admin then deny 403 (codes "Admin access required") else pass u

-- `a || b` on texts, where the empty text is false
abbrev or_text : Option Text → Option Text → Option Text
or_text none b = b
or_text (some []) b = b
or_text (some (c ∷ s)) b = some (c ∷ s)

abbrev pub non_empty : Option Text → Option Text
non_empty none = none
non_empty (some []) = none
non_empty (some (c ∷ s)) = some (c ∷ s)

abbrev denied {ℓ} : {A : Type ℓ} → Guarded A
denied = deny 403 (codes "Access denied")

-- `SELECT id FROM servers WHERE id = $1 AND owner_id = $2`
unfoldable pub owns : Text → Text → Db → Bool
owns user_id server_id db = is_some (
    find_where (λ (s : ServerRow). text_eq s.id server_id && text_eq s.owner_id user_id) db.servers)

-- `SELECT permissions FROM subusers WHERE server_id = $1 AND user_id = $2`
unfoldable pub subuser_row : Text → Text → Db → Option SubuserRow
subuser_row user_id server_id db =
    find_where (λ s. text_eq s.server_id server_id && text_eq s.user_id user_id) db.subusers

-- the part of `requireServerAccess` that follows the test of root admin
member_access : Text → TroxeUser → Db → Guarded TroxeUser
member_access server_id u db =
    if owns u.user_id server_id db then pass u else elim (subuser_row u.user_id server_id db) [
      | none ↦ denied
      | some row ↦ pass (record u { permissions = row.permissions })
    ]

-- `requireServerAccess`, from the parameters `id` and `serverId` of the path
unfoldable pub require_server_access :
    Option Text → Option Text → Option TroxeUser → Db → Guarded TroxeUser
unfolding member_access
require_server_access id server_id none db = denied
require_server_access id server_id (some u) db = elim (non_empty (or_text id server_id)) [
  | none ↦ denied
  | some server ↦ if u.root_admin then pass u else member_access server u db
]

-- a value of the permissions document, as a condition: an object is true
abbrev pub truthy : Grant → Bool
truthy (flag b) = b
truthy (group fields) = true

-- `permissions?.[permission]`
unfoldable pub granted : Text → Permissions → Bool
granted permission [] = false
granted permission ((k, g) ∷ rest) =
    if text_eq k permission then truthy g else granted permission rest

-- `requirePermission(permission)`
unfoldable pub require_permission : Text → Option TroxeUser → Guarded TroxeUser
require_permission permission none = deny 403 (codes "Permission required: " ++ permission)
require_permission permission (some u) =
    if u.root_admin
    then pass u
    else if granted permission u.permissions
    then pass u
    else deny 403 (codes "Permission required: " ++ permission)

-- The guards of a route on a server, in their order, behind the authentication.
unfoldable pub server_guards : Text → Text → TroxeUser → Db → Guarded TroxeUser
server_guards permission server_id u db = do
  v ← require_server_access (some server_id) none (some u) db
  require_permission permission (some v)
