-- ===== src/Tests/Access.antt =====
-- Keys, sessions, guards and logins, on the small panel.
use troxe_host.Common.{
  arith, ◌≤◌, true, false, none, some, [], ◌∷◌, ◌++◌, Text, codes, refl, ◌≡◌, ◌≢◌, text_eq,
  if◌then◌else◌, Bool-cases, inl, inr, ◌&&◌,
}
use troxe_host.Js.{includes}
use troxe_host.Db.{Db, UserRow, SubuserRow, group}
use troxe_host.Db.Table.{find_where, count_where}
use troxe_host.Auth.Keys.{Hashing, authenticate_daemon}
use troxe_host.Auth.Keys.Laws.{authenticate_daemon_sound}
use troxe_host.Auth.Rbac.{TroxeUser, pass, owns, server_guards}
use troxe_host.Auth.Rbac.Laws.{is_passed, subuser_grant, server_guards_iff}
use troxe_host.Auth.Session.{
  Signing, Cookies, session_user, set_security_cookies, validate_session_security,
}
use troxe_host.Auth.Session.RoundTrip.{
  IsHexadecimal, next_request, login_data, validate-set_cookies,
}
use troxe_host.Auth.Session.Soundness.{IsGenuine, validate_session_sound, csrf_header_optional}
use troxe_host.Reply.{sent}
use troxe_host.Account.{RegisterBody, register, Credentials, LoginBody, logged_in, login}
use troxe_host.Account.Distinct.{has_email, register_distinct}
use troxe_host.Account.Laws.{IsLoggedIn, login_sound}
use troxe_host.Tests.{texts_apart, owner, site, db}

abbrev pub hashing : Hashing
hashing = record { sha256 = λ t. t }

daemon_accepted : authenticate_daemon hashing (some (codes "Bearer id.secret")) db ≡ some site
unfolding authenticate_daemon find_where text_eq
daemon_accepted = refl

authenticate_daemon_sound_example :
    (token : Text) × (some (codes "Bearer id.secret") ≡ some (codes "Bearer " ++ token))
    × (site.daemon_token_hash ≡ token)
authenticate_daemon_sound_example =
    authenticate_daemon_sound hashing (some (codes "Bearer id.secret")) db daemon_accepted

-- a subuser of the server, whose row grants a group
abbrev helper_row : SubuserRow
helper_row = record {
  id = codes "x1";
  server_id = codes "s1";
  user_id = codes "u2";
  permissions = (codes "files", group ((codes "read", true) ∷ [])) ∷ [];
}

abbrev shared : Db
shared = record db { subusers = helper_row ∷ [] }

abbrev pub alice : TroxeUser
alice = session_user owner

abbrev pub helper : TroxeUser
helper = record alice { id = codes "u2"; user_id = codes "u2"; username = codes "bob" }

server_guards_iff_example :
    is_passed (server_guards (codes "files") (codes "s1") helper shared)
    ≡ subuser_grant (codes "files") (codes "s1") helper shared
server_guards_iff_example =
    server_guards_iff (codes "files") b's' (codes "1") helper shared refl refl

alice_owns : owns (codes "u1") (codes "s1") db ≡ true
unfolding owns find_where text_eq
alice_owns = refl

abbrev signing : Signing
signing = record { sign = λ t. if text_eq t (codes "u1") then codes "0af1" else codes "93bc" }

signing-IsHexadecimal : IsHexadecimal signing
unfolding includes
signing-IsHexadecimal = record {
  non_empty_sign =
      λ t. elim (Bool-cases (text_eq t (codes "u1"))) [ inl e ↦ rw e refl | inr e ↦ rw e refl ];
  no_stop =
      λ t. elim (Bool-cases (text_eq t (codes "u1"))) [ inl e ↦ rw e refl | inr e ↦ rw e refl ];
  no_colon =
      λ t. elim (Bool-cases (text_eq t (codes "u1"))) [ inl e ↦ rw e refl | inr e ↦ rw e refl ];
}

-- the cookies of a login of the owner
abbrev cookies : Cookies
cookies =
    set_security_cookies signing (login_data owner (codes "::1") none) (codes "d") (codes "token")
      (codes "nonce")

owner_has_id : owner.id ≢ []
unfolding text_eq
owner_has_id = texts_apart owner.id [] refl

owner_plain : includes b'.' owner.id ≡ false
unfolding includes
owner_plain = refl

name_plain : includes b':' owner.username ≡ false
unfolding includes
name_plain = refl

owner_there : find_where (λ (r : UserRow). text_eq r.id owner.id) db.users ≡ some owner
unfolding find_where text_eq
owner_there = refl

validate-set_cookies_example :
    validate_session_security signing (next_request (codes "POST") cookies) db (codes "fresh")
    ≡ pass (alice, some (codes "fresh"))
validate-set_cookies_example =
    validate-set_cookies signing signing-IsHexadecimal owner (codes "::1") none (codes "d")
      (codes "token") (codes "nonce") (codes "fresh") (codes "POST") db owner_has_id owner_plain
      name_plain owner_there refl

accepted_request :
    validate_session_security signing (next_request (codes "POST") cookies) db (codes "fresh")
    ≡ pass (alice, some (codes "fresh"))
accepted_request =
    validate-set_cookies signing signing-IsHexadecimal owner (codes "::1") none (codes "d")
      (codes "token") (codes "nonce") (codes "fresh") (codes "POST") db owner_has_id owner_plain
      name_plain owner_there refl

validate_session_sound_example : IsGenuine signing (next_request (codes "POST") cookies) db alice
validate_session_sound_example =
    validate_session_sound signing (next_request (codes "POST") cookies) db (codes "fresh")
      accepted_request

csrf_header_optional_example :
    validate_session_security signing
      (record { method = codes "POST"; cookies = cookies; csrf_header = none })
      db
      (codes "fresh")
    ≡ pass (alice, some (codes "fresh"))
csrf_header_optional_example =
    csrf_header_optional signing (next_request (codes "POST") cookies) db (codes "fresh")
      accepted_request

-- one password and one code, for one hash and one secret
abbrev credentials : Credentials
credentials = record {
  hash = λ password. codes "hashed";
  verify = λ password hash. text_eq password (codes "secret") && text_eq hash (codes "hashed");
  totp = λ code secret. text_eq code (codes "123456") && text_eq secret (codes "base");
}

abbrev login_body : LoginBody
login_body = record {
  email = codes "a@x";
  password = codes "secret";
  totp_code = some (codes "123456");
}

logs_in : (login credentials 9 (codes "::1") login_body db).0 ≡ sent (logged_in owner)
unfolding login find_where text_eq
logs_in = refl

login_sound_example : IsLoggedIn credentials login_body db owner
login_sound_example = login_sound credentials 9 (codes "::1") login_body db logs_in

abbrev new_account : RegisterBody
new_account = record { username = codes "bob"; email = codes "b@x"; password = codes "secret" }

one_alice : count_where (has_email (codes "a@x")) db.users ≤ 1
unfolding count_where text_eq
one_alice = omega arith

register_distinct_example :
    count_where
      (has_email (codes "a@x"))
      (register credentials (codes "u9") (codes "::1") new_account db).1.users
    ≤ 1
register_distinct_example =
    register_distinct credentials (codes "u9") (codes "::1") new_account (codes "a@x") db one_alice
