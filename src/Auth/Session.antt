-- ===== src/Auth/Session.antt =====
-- The session cookies of panel/src/api/middleware/security.ts. The HMAC of a text under the fixed
-- secret, cut to 32 hexadecimal digits, is the field `sign`; random ids are arguments.
mod Guards
pub mod RoundTrip
pub mod Soundness
use troxe_host.Common.{
  ℕ, Bool, true, false, not, ◌&&◌, ◌||◌, Option, none, some, List, [], ◌∷◌, ◌++◌, Text, codes,
  text_eq, if◌then◌else◌, any,
}
use troxe_host.Js.{split_on}
use troxe_host.Js.Splitting.{join_all}
use troxe_host.Db.{Db, UserRow}
use troxe_host.Db.Table.{find_where}
use troxe_host.Auth.Rbac.{TroxeUser, Guarded, pass, deny, ◌>>=◌, ◌>>◌, non_empty}

pub record Signing : Type 0 where
  pub sign : Text → Text

-- the cookies of a request that the code reads
pub record Cookies : Type 0 where
  pub session : Option Text
  pub csrf : Option Text
  pub uid : Option Text
  pub ip : Option Text
  pub fp : Option Text
  pub device : Option Text
  pub ver : Option Text
  pub nonce : Option Text

pub record Request : Type 0 where
  pub method : Text
  pub cookies : Cookies
  pub csrf_header : Option Text

abbrev pub cookie_version : Text
cookie_version = codes "v2"

-- `data` of `setSecurityCookies`
pub record LoginData : Type 0 where
  pub user_id : Text
  pub username : Text
  pub email : Text
  pub ip : Text
  pub fingerprint : Option Text

-- `${value}:${sign(value)}`
abbrev pub bind : Signing → Text → Text
bind s value = value ++ b':' ∷ s.sign value

-- `x || "default"`
abbrev or_default : Option Text → Text
or_default none = codes "default"
or_default (some []) = codes "default"
or_default (some (c ∷ s)) = c ∷ s

-- `setSecurityCookies`: the cookies that a later request is checked by. The cookies of the e-mail,
-- the language and the time are set too, and read by none of the code here.
unfoldable pub set_security_cookies : Signing → LoginData → Text → Text → Text → Cookies
set_security_cookies s data_ device_id csrf_token nonce = record {
  session = some (data_.user_id ++ b'.' ∷ s.sign data_.user_id);
  csrf = some csrf_token;
  uid = some (bind s data_.username);
  ip = some (bind s data_.ip);
  fp = some (bind s (or_default data_.fingerprint));
  device = some (bind s device_id);
  ver = some cookie_version;
  nonce = some nonce;
}

-- `clearSecurityCookies`
abbrev pub no_cookies : Cookies
no_cookies = record {
  session = none;
  csrf = none;
  uid = none;
  ip = none;
  fp = none;
  device = none;
  ver = none;
  nonce = none;
}

abbrev refuse {ℓ} : {A : Type ℓ} → Text → Guarded A
refuse = deny 401

-- `x !== y`, where `y` may be undefined
abbrev differs : Text → Option Text → Bool
differs x none = true
differs x (some y) = not (text_eq x y)

-- steps 2 and 3: the pieces of the session cookie
check_session : Signing → List Text → Guarded Text
check_session s [] = refuse (codes "Invalid session format")
check_session s (user_id ∷ []) = refuse (codes "Invalid session format")
check_session s ([] ∷ sig ∷ _) = refuse (codes "Invalid session format")
check_session s ((c ∷ user_id) ∷ [] ∷ _) = refuse (codes "Invalid session format")
check_session s ((c ∷ user_id) ∷ (d ∷ sig) ∷ _) =
    if not (text_eq (s.sign (c ∷ user_id)) (d ∷ sig))
    then refuse (codes "Session tampered")
    else pass (c ∷ user_id)

abbrev if_live : Option UserRow → Guarded UserRow
if_live none = refuse (codes "User not found or suspended")
if_live (some u) = if u.suspended then refuse (codes "User not found or suspended") else pass u

-- step 4: the user is still there
unfoldable pub live_user : Text → Db → Guarded UserRow
live_user id db = if_live (find_where (λ u. text_eq u.id id) db.users)

abbrev pub changes_state : Text → Bool
changes_state method =
    text_eq method (codes "POST")
    || text_eq method (codes "PUT")
    || text_eq method (codes "PATCH")
    || text_eq method (codes "DELETE")

-- step 5: the two tokens are compared only where both were sent
tokens_agree : Option Text → Option Text → Guarded (Unit {0})
tokens_agree (some cookie) (some header) =
    if not (text_eq cookie header) then deny 403 (codes "CSRF token mismatch") else pass tt
tokens_agree _ _ = pass tt

check_csrf : Request → Guarded (Unit {0})
unfolding tokens_agree
check_csrf req =
    if changes_state req.method
    then tokens_agree (non_empty req.cookies.csrf) (non_empty req.csrf_header)
    else pass tt

abbrev first : List Text → Text
first [] = []
first (w ∷ ws) = w

abbrev second : List Text → Option Text
second [] = none
second (w ∷ []) = none
second (w ∷ v ∷ ws) = some v

-- step 6: the cookie of the user's name
check_uid : Signing → Option Text → Text → Guarded (Unit {0})
check_uid s none name = pass tt
check_uid s (some cookie) name =
    let pieces = split_on b':' cookie in
    if differs (s.sign (first pieces)) (second pieces)
    then refuse (codes "User binding tampered")
    else if not (text_eq (first pieces) name)
    then refuse (codes "Session user mismatch")
    else pass tt

-- `parts.slice(0, -1)`, and the last part
unfoldable pub init : List Text → List Text
init [] = []
init (w ∷ []) = []
init (w ∷ v ∷ ws) = w ∷ init (v ∷ ws)

unfoldable pub last : List Text → Text
last [] = []
last (w ∷ []) = w
last (w ∷ v ∷ ws) = last (v ∷ ws)

-- steps 7, 8 and 9: the cookies of the address, the fingerprint and the device, whose values may
-- hold colons
check_bound : Signing → Text → Option Text → Guarded (Unit {0})
check_bound s message none = pass tt
check_bound s message (some cookie) =
    let pieces = split_on b':' cookie in
    if not (text_eq (s.sign (join_all b':' (init pieces))) (last pieces))
    then refuse message
    else pass tt

-- step 10
check_version : Option Text → Guarded (Unit {0})
check_version none = pass tt
check_version (some ver) =
    if not (text_eq ver cookie_version)
    then refuse (codes "Session version outdated, please re-login")
    else pass tt

-- step 11: the new nonce, where the request had one
abbrev pub rotate : Option Text → Text → Option Text
rotate none fresh = none
rotate (some nonce) fresh = some fresh

abbrev pub session_user : UserRow → TroxeUser
session_user u = record {
  id = u.id;
  user_id = u.id;
  username = u.username;
  email = u.email;
  root_admin = u.root_admin;
  permissions = [];
  is_client = true;
  is_admin = u.root_admin;
}

abbrev or_deny {ℓ} : {A : Type ℓ} → Text → Option A → Guarded A
or_deny message none = refuse message
or_deny message (some a) = pass a

-- steps 5 to 11, for the user of the session
check_bindings : Signing → Request → UserRow → Text → Guarded (TroxeUser × Option Text)
check_bindings s req user fresh = do
  check_csrf req
  check_uid s (non_empty req.cookies.uid) user.username
  check_bound s (codes "IP binding tampered") (non_empty req.cookies.ip)
  check_bound s (codes "Fingerprint binding tampered") (non_empty req.cookies.fp)
  check_bound s (codes "Device binding tampered") (non_empty req.cookies.device)
  check_version (non_empty req.cookies.ver)
  pass (session_user user, rotate (non_empty req.cookies.nonce) fresh)

-- `validateSessionSecurity`: the user of the request, and the nonce that is set
pub validate_session_security : Signing → Request → Db → Text → Guarded (TroxeUser × Option Text)
validate_session_security s req db fresh = do
  cookie ← or_deny (codes "No session") (non_empty req.cookies.session)
  user_id ← check_session s (split_on b'.' cookie)
  user ← live_user user_id db
  check_bindings s req user fresh
