-- ===== src/Auth/Session/RoundTrip.antt =====
-- The cookies of a login are accepted by the check of a later request.
use mathlib.Core.Path.{subst}
use troxe_host.Common.{
  ℕ, false, Option, none, some, List, [], ◌∷◌, ◌++◌, Text, text_eq, text_eq_refl, ◌≡◌, ◌≢◌, refl,
  sym, ap, Bool-cases, inl, inr,
}
use troxe_host.Js.{split_on, includes}
use troxe_host.Js.Splitting.{join_all-split_on, split_on-append, split_on-append_any, split_on_none}
use troxe_host.Db.{Db, UserRow}
use troxe_host.Db.Table.{find_where}
use troxe_host.Auth.Rbac.{pass, non_empty}
use troxe_host.Auth.Session.{
  Signing, Cookies, Request, LoginData, bind, or_default, set_security_cookies, check_session,
  live_user, check_csrf, check_bindings, tokens_agree, check_uid, check_bound, check_version,
  changes_state, rotate, session_user, init, last, validate_session_security,
}
use troxe_host.Auth.Session.Guards.{bind-pass}

init-concat : (ws : List Text) (w : Text) → init (ws ++ w ∷ []) ≡ ws
unfolding init
init-concat [] w = refl
init-concat (v ∷ []) w = refl
init-concat (v ∷ u ∷ ws) w = ap (λ r. v ∷ r) (init-concat (u ∷ ws) w)

last-concat : (ws : List Text) (w : Text) → last (ws ++ w ∷ []) ≡ w
unfolding last
last-concat [] w = refl
last-concat (v ∷ []) w = refl
last-concat (v ∷ u ∷ ws) w = last-concat (u ∷ ws) w

-- A value that was bound by its signature passes, also where it holds colons.
check_bound-bind :
    (s : Signing) (message value : Text)
    → includes b':' (s.sign value) ≡ false
    → check_bound s message (some (bind s value)) ≡ pass tt
unfolding check_bound
check_bound-bind s message value clean = rw (
  split_on-append_any b':' value (s.sign value),
  split_on_none b':' (s.sign value) clean,
  init-concat (split_on b':' value) (s.sign value),
  last-concat (split_on b':' value) (s.sign value),
  join_all-split_on b':' value,
  text_eq_refl (s.sign value),
)

check_uid-bind :
    (s : Signing) (name : Text)
    → includes b':' name ≡ false
    → includes b':' (s.sign name) ≡ false
    → check_uid s (some (bind s name)) name ≡ pass tt
unfolding check_uid
check_uid-bind s name plain clean = rw (
  split_on-append b':' name (s.sign name) plain,
  split_on_none b':' (s.sign name) clean,
  text_eq_refl (s.sign name),
  text_eq_refl name,
)

-- the name or value in front of a signature is not empty, so neither is the whole
non_empty-bind :
    (s : Signing) (value : Text) → non_empty (some (bind s value)) ≡ some (bind s value)
non_empty-bind s [] = refl
non_empty-bind s (c ∷ value) = refl

-- What the code relies on of a signature: 32 hexadecimal digits are a text that is not empty and
-- has neither a full stop nor a colon.
pub record IsHexadecimal (s : Signing) : Type 0 where
  pub non_empty_sign : (t : Text) → non_empty (some (s.sign t)) ≡ some (s.sign t)
  pub no_stop : (t : Text) → includes b'.' (s.sign t) ≡ false
  pub no_colon : (t : Text) → includes b':' (s.sign t) ≡ false

check_pair :
    (s : Signing) (c : ℕ) (id sig : Text)
    → s.sign (c ∷ id) ≡ sig
    → non_empty (some sig) ≡ some sig
    → check_session s ((c ∷ id) ∷ sig ∷ []) ≡ pass (c ∷ id)
unfolding check_session
check_pair s c id [] e h = cc
check_pair s c id (d ∷ sig) e h = rw (e, text_eq_refl (d ∷ sig))

check_session-sign :
    (s : Signing) (hex : IsHexadecimal s) (c : ℕ) (id : Text)
    → includes b'.' (c ∷ id) ≡ false
    → check_session s (split_on b'.' ((c ∷ id) ++ b'.' ∷ s.sign (c ∷ id))) ≡ pass (c ∷ id)
check_session-sign s hex c id plain =
    rw
      (
        split_on-append b'.' (c ∷ id) (s.sign (c ∷ id)) plain,
        split_on_none b'.' (s.sign (c ∷ id)) (hex.no_stop (c ∷ id)),
      )
      (check_pair s c id (s.sign (c ∷ id)) refl (hex.non_empty_sign (c ∷ id)))

tokens_agree_self : (t : Option Text) → tokens_agree t t ≡ pass tt
unfolding tokens_agree
tokens_agree_self none = refl
tokens_agree_self (some t) = rw (text_eq_refl t)

check_csrf_self :
    (method : Text) (cookies : Cookies)
    → check_csrf (record { method = method; cookies = cookies; csrf_header = cookies.csrf })
      ≡ pass tt
unfolding check_csrf
check_csrf_self method cookies = elim (Bool-cases (changes_state method)) [
  | inl changes ↦ rw (changes, tokens_agree_self (non_empty cookies.csrf))
  | inr reads ↦ rw reads
]

live_user-some :
    (id : Text) (db : Db) {u : UserRow}
    → find_where (λ (r : UserRow). text_eq r.id id) db.users ≡ some u
    → u.suspended ≡ false
    → live_user id db ≡ pass u
unfolding live_user
live_user-some id db found active = rw (found, active)

bound :
    (s : Signing) (message value : Text)
    → includes b':' (s.sign value) ≡ false
    → check_bound s message (non_empty (some (bind s value))) ≡ pass tt
bound s message value clean = rw (non_empty-bind s value) (check_bound-bind s message value clean)

bound_uid :
    (s : Signing) (name : Text)
    → includes b':' name ≡ false
    → includes b':' (s.sign name) ≡ false
    → check_uid s (non_empty (some (bind s name))) name ≡ pass tt
bound_uid s name plain clean = rw (non_empty-bind s name) (check_uid-bind s name plain clean)

-- The request that follows a login: it sends the cookies back, and the token as a header.
abbrev pub next_request : Text → Cookies → Request
next_request method cookies = record {
  method = method;
  cookies = cookies;
  csrf_header = cookies.csrf;
}

-- what `POST /auth/login` hands over for a user
abbrev pub login_data : UserRow → Text → Option Text → LoginData
login_data u ip fingerprint = record {
  user_id = u.id;
  username = u.username;
  email = u.email;
  ip = ip;
  fingerprint = fingerprint;
}

set_cookies_checked :
    (s : Signing) (hex : IsHexadecimal s) (c : ℕ) (id : Text) (login : LoginData)
    (device csrf nonce fresh method : Text) (db : Db) (u : UserRow)
    → includes b'.' (c ∷ id) ≡ false
    → includes b':' u.username ≡ false
    → find_where (λ (r : UserRow). text_eq r.id (c ∷ id)) db.users ≡ some u
    → u.suspended ≡ false
    → validate_session_security s
        (next_request method (
          set_security_cookies s
            (record login { user_id = c ∷ id; username = u.username })
            device
            csrf
            nonce))
        db
        fresh
      ≡ pass (session_user u, rotate (non_empty (some nonce)) fresh)
unfolding validate_session_security check_bindings set_security_cookies check_version text_eq
set_cookies_checked s hex c id login device csrf nonce fresh method db u plain colon_free found
      active =
    bind-pass _ _ (check_session-sign s hex c id plain) (
      bind-pass _ _ (live_user-some (c ∷ id) db found active) (
        bind-pass _ _ (check_csrf_self method _) (
          bind-pass _ _ (bound_uid s u.username colon_free (hex.no_colon u.username)) (
            bind-pass _ _ (bound s _ login.ip (hex.no_colon login.ip)) (
              bind-pass _ _
                (bound s _ (or_default login.fingerprint)
                  (hex.no_colon (or_default login.fingerprint)))
                (bind-pass _ _ (bound s _ device (hex.no_colon device)) refl))))))

-- Where signatures are hexadecimal, the cookies of a login are accepted for every method, for the user who logged in, as long as the
-- user is there, is not suspended and has kept the name. The id is not empty and has no full stop,
-- and the name no colon; the address, the fingerprint and the device may hold any characters.
pub validate-set_cookies :
    (s : Signing) (hex : IsHexadecimal s) (u : UserRow) (ip : Text) (fingerprint : Option Text)
    (device csrf nonce fresh method : Text) (db : Db)
    → u.id ≢ []
    → includes b'.' u.id ≡ false
    → includes b':' u.username ≡ false
    → find_where (λ (r : UserRow). text_eq r.id u.id) db.users ≡ some u
    → u.suspended ≡ false
    → validate_session_security s
        (next_request method
          (set_security_cookies s (login_data u ip fingerprint) device csrf nonce))
        db
        fresh
      ≡ pass (session_user u, rotate (non_empty (some nonce)) fresh)
validate-set_cookies s hex u ip fingerprint device csrf nonce fresh method db some_id plain
      colon_free found active =
    split u.id refl
  where
    split :
        (id : Text)
        → u.id ≡ id
        → validate_session_security s
            (next_request method
              (set_security_cookies s (login_data u ip fingerprint) device csrf nonce))
            db
            fresh
          ≡ pass (session_user u, rotate (non_empty (some nonce)) fresh)
    split [] e = absurd (some_id e)
    split (c ∷ id) e =
        subst
          (λ x.
            validate_session_security s
              (next_request method (
                set_security_cookies s (record (login_data u ip fingerprint) { user_id = x }) device
                  csrf nonce))
              db fresh
            ≡ pass (session_user u, rotate (non_empty (some nonce)) fresh))
          (sym e)
          (set_cookies_checked s hex c id (login_data u ip fingerprint) device csrf nonce fresh
            method db u (subst (λ x. includes b'.' x ≡ false) e plain) colon_free
            (subst (λ x. find_where (λ (r : UserRow). text_eq r.id x) db.users ≡ some u) e found)
            active)
