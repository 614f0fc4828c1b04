-- ===== src/Auth/Keys.antt =====
-- The API keys and daemon tokens of panel/src/api/middleware/auth.ts. `randomBytes(n).toString("hex")`
-- is an argument, and SHA-256 in hexadecimal is the field `sha256`.
pub mod Laws
use troxe_host.Common.{
  ℕ, zero, suc, Bool, true, false, ◌&&◌, Option, none, some, List, [], ◌∷◌, ◌++◌, Text, codes,
  text_eq, if◌then◌else◌, ltb,
}
use troxe_host.Js.{take, drop, starts_with}
use troxe_host.Db.{Db, ApiKeyRow, UserRow, NodeRow, Permissions}
use troxe_host.Db.Table.{find_where, update_where}

pub record Hashing : Type 0 where
  pub sha256 : Text → Text

-- the two prefixes of the type `"txc_" | "txa_"`
pub data KeyPrefix : Type 0 where
  client admin : KeyPrefix

abbrev pub prefix_text : KeyPrefix → Text
prefix_text client = codes "txc_"
prefix_text admin = codes "txa_"

pub record GeneratedKey : Type 0 where
  pub key : Text
  pub key_hash : Text
  pub key_prefix : Text

-- `generateApiKey(prefix)`, where `raw` is the hexadecimal text of 32 random bytes
unfoldable pub generate_api_key : Hashing → KeyPrefix → Text → GeneratedKey
unfolding take
generate_api_key h prefix raw =
    let key = prefix_text prefix ++ raw in
    record { key = key; key_hash = h.sha256 key; key_prefix = take 8 key }

-- what `validateApiKey` returns of a key that is valid
pub record KeyUser : Type 0 where
  pub id : Text
  pub user_id : Text
  pub username : Text
  pub email : Text
  pub root_admin : Bool
  pub permissions : Permissions
  pub is_client : Bool
  pub is_admin : Bool

-- `ak.expires_at IS NULL OR ak.expires_at > now()`
abbrev pub unexpired : ℕ → Option ℕ → Bool
unexpired now none = true
unexpired now (some t) = ltb now t

-- `key.startsWith("txc_") ? "txc_" : "txa_"`
abbrev pub prefix_of : Text → KeyPrefix
prefix_of key = if starts_with (codes "txc_") key then client else admin

-- the `WHERE` clause of `validateApiKey`
unfoldable pub key_matches : Hashing → ℕ → Text → ApiKeyRow → Bool
key_matches h now key row =
    text_eq row.key_hash (h.sha256 key)
    && text_eq row.key_prefix (prefix_text (prefix_of key))
    && unexpired now row.expires_at

abbrev is_client : KeyPrefix → Bool
is_client client = true
is_client admin = false

abbrev is_admin : KeyPrefix → Bool
is_admin client = false
is_admin admin = true

-- the row of a key with its user, by the join of `validateApiKey`
find_key : Hashing → ℕ → Text → Db → Option (ApiKeyRow × UserRow)
unfolding key_matches
find_key h now key db = elim (find_where (key_matches h now key) db.api_keys) [
  | none ↦ none
  | some row ↦ elim (find_where (λ u. text_eq u.id row.user_id) db.users) [
    | none ↦ none
    | some u ↦ some (row, u)
  ]
]

-- the answer to a key, and the note of its use
use_key : ℕ → Text → Db → Option (ApiKeyRow × UserRow) → Option KeyUser × Db
use_key now key db none = (none, db)
use_key now key db (some (row, u)) = (
  some (record {
    id = row.id;
    user_id = row.user_id;
    username = u.username;
    email = u.email;
    root_admin = u.root_admin;
    permissions = row.permissions;
    is_client = is_client (prefix_of key);
    is_admin = is_admin (prefix_of key);
  }),
  record db {
    api_keys =
        update_where (λ r. text_eq r.id row.id) (λ r. record r { last_used_at = some now })
          db.api_keys;
  },
)

-- `validateApiKey(key)` at the time `now`
unfoldable pub validate_api_key : Hashing → ℕ → Text → Db → Option KeyUser × Db
unfolding find_key use_key
validate_api_key h now key db = use_key now key db (find_key h now key db)

pub record DaemonToken : Type 0 where
  pub token_id : Text
  pub token_hash : Text
  pub token : Text

-- `generateDaemonToken()`, from the texts of 16 and of 32 random bytes
unfoldable pub generate_daemon_token : Hashing → Text → Text → DaemonToken
generate_daemon_token h id secret =
    let token = id ++ b'.' ∷ secret in
    record { token_id = id; token_hash = h.sha256 token; token = token }

-- `"Bearer "` in front of a token, as `authHeader.substring(7)` takes it off
unfoldable pub bearer : Option Text → Option Text
unfolding drop
bearer none = none
bearer (some header) = if starts_with (codes "Bearer ") header then some (drop 7 header) else none

-- `authenticateDaemon` of panel/src/api/middleware/rbac.ts: the node of a token, or a refusal
unfoldable pub authenticate_daemon : Hashing → Option Text → Db → Option NodeRow
unfolding bearer
authenticate_daemon h header db = elim (bearer header) [
  | none ↦ none
  | some token ↦ find_where (λ n. text_eq n.daemon_token_hash (h.sha256 token)) db.nodes
]
