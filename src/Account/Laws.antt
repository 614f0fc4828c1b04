-- ===== src/Account/Laws.antt =====
-- What the account routes promise.

use mathlib.Core.Path.{subst}
use troxe_host.Common.{
  ℕ, Bool, true, false, not, Option, none, some, [], ◌∷◌, Text, text_eq, ◌≡◌, refl, arith,
  Bool-cases, Option-cases, inl, inr, ◌⊎◌, ◌∙◌, sym, if◌then◌else◌,
}
use troxe_host.Db.{Db, UserRow}
use troxe_host.Db.Table.{find_where}
use troxe_host.Auth.Rbac.{non_empty}
use troxe_host.Reply.{Reply, sent, failed}
use troxe_host.Account.{
  Credentials, LoginBody, Login, logged_in, requires_2fa, check_code, check_login, note_login,
  login,
}

-- the second factor of a user: a code that was checked by the secret of the row
abbrev pub Factor : Credentials → LoginBody → UserRow → Type 0
Factor c body r =
    (code : Text) × (secret : Text) × (body.totp_code ≡ some code)
    × (r.totp_secret ≡ some secret)
    × (c.totp code secret ≡ true)

-- What a login that passes shows: the row with the address of the request, which is not suspended,
-- whose password was verified, and whose second factor was too, or is not enabled.
pub record IsLoggedIn (c : Credentials) (body : LoginBody) (db : Db) (u : UserRow) : Type 0 where
  pub found : find_where (λ (r : UserRow). text_eq r.email body.email) db.users ≡ some u
  pub active : u.suspended ≡ false
  pub password : c.verify body.password u.password_hash ≡ true
  pub second_factor : (u.totp_enabled ≡ false) ⊎ Factor c body u

reply-note_login :
    (now : ℕ) (ip : Text) (r : Reply Login) (db : Db) → (note_login now ip r db).0 ≡ r
unfolding note_login
reply-note_login now ip (sent (logged_in u)) db = refl
reply-note_login now ip (sent requires_2fa) db = refl
reply-note_login now ip (failed status message) db = refl

abbrev checked_user : Reply Login → Option UserRow
checked_user (sent (logged_in u)) = some u
checked_user _ = none

check_code_sound :
    (c : Credentials) (r : UserRow) (o : Option Text) {u : UserRow}
    → check_code c r (non_empty o) ≡ sent (logged_in u)
    → (r ≡ u)
      × ((code : Text) × (secret : Text) × (o ≡ some code)
          × (r.totp_secret ≡ some secret)
          × (c.totp code secret ≡ true))
unfolding check_code
check_code_sound c r none e = cc
check_code_sound c r (some []) e = cc
check_code_sound c r (some (d ∷ code)) e = elim (Option-cases r.totp_secret) [
  | inl unset ↦ ground (arith, unset)
  | inr (secret, set) ↦ elim (Bool-cases (c.totp (d ∷ code) secret)) [
    | inl good ↦ (ground (arith, set, good), (d ∷ code, secret, refl, set, good))
    | inr bad ↦ ground (arith, set, bad)
  ]
]

-- a guard that was passed
guard_passed :
    {A : Type 0} (b : Bool) (status : ℕ) (message : Text) (x : Reply A) {a : A}
    → (if b then failed status message else x) ≡ sent a
    → (b ≡ false) × (x ≡ sent a)
guard_passed true status message x e = cc
guard_passed false status message x e = (refl, e)

negation_false : (b : Bool) → not b ≡ false → b ≡ true
negation_false true e = refl
negation_false false e = cc

second_sound :
    (c : Credentials) (body : LoginBody) (r : UserRow) (enabled : Bool) {u : UserRow}
    → (if enabled then check_code c r (non_empty body.totp_code) else sent (logged_in r))
      ≡ sent (logged_in u)
    → (r ≡ u) × ((enabled ≡ false) ⊎ Factor c body r)
second_sound c body r true e =
    let (same, shown) = check_code_sound c r body.totp_code e in (same, inr shown)
second_sound c body r false e = (cc, inl refl)

check_login_sound :
    (c : Credentials) (body : LoginBody) (db : Db) (o : Option UserRow) {u : UserRow}
    → find_where (λ (r : UserRow). text_eq r.email body.email) db.users ≡ o
    → check_login c body o ≡ sent (logged_in u)
    → IsLoggedIn c body db u
unfolding check_login
check_login_sound c body db none found e = cc
check_login_sound c body db (some r) found e =
    let (active, e₁) = guard_passed r.suspended _ _ _ e in
    let (verified, e₂) = guard_passed (not (c.verify body.password r.password_hash)) _ _ _ e₁ in
    let (same, second) = second_sound c body r r.totp_enabled e₂ in
    subst (λ v. IsLoggedIn c body db v) same
      (record {
        found = found;
        active = active;
        password = negation_false _ verified;
        second_factor = second;
      })

-- A login that passes is of a user whose row has the address of the request, is not suspended and
-- has the password, and, where the second factor is enabled, a secret that the code was checked by.
pub login_sound :
    (c : Credentials) (now : ℕ) (ip : Text) (body : LoginBody) (db : Db) {u : UserRow}
    → (login c now ip body db).0 ≡ sent (logged_in u)
    → IsLoggedIn c body db u
unfolding login
login_sound c now ip body db e =
    check_login_sound c body db _ refl (sym (reply-note_login now ip _ db) ∙ e)

unchanged-note_login :
    (now : ℕ) (ip : Text) (r : Reply Login) (db : Db) {status : ℕ} {message : Text}
    → r ≡ failed status message
    → (note_login now ip r db).1 ≡ db
unfolding note_login
unchanged-note_login now ip (sent (logged_in u)) db e = cc
unchanged-note_login now ip (sent requires_2fa) db e = refl
unchanged-note_login now ip (failed status message) db e = refl

-- A login that is refused leaves the database as it was.
pub login_refused :
    (c : Credentials) (now : ℕ) (ip : Text) (body : LoginBody) (db : Db) {status : ℕ}
    {message : Text}
    → (login c now ip body db).0 ≡ failed status message
    → (login c now ip body db).1 ≡ db
unfolding login
login_refused c now ip body db e =
    unchanged-note_login now ip _ db (sym (reply-note_login now ip _ db) ∙ e)
