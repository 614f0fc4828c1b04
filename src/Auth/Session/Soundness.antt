-- ===== src/Auth/Session/Soundness.antt =====
-- What a checked session establishes.
use troxe_host.Common.{
  false, Option, none, some, List, [], ◌∷◌, Text, codes, text_eq, text_eq_iff, ◌≡◌, refl, arith,
  Bool-cases, Option-cases, inl, inr,
}
use troxe_host.Js.{split_on}
use troxe_host.Db.{Db, UserRow}
use troxe_host.Db.Table.{find_where}
use troxe_host.Auth.Rbac.{TroxeUser, pass, ◌>>=◌, non_empty}
use troxe_host.Auth.Session.{
  Signing, Request, check_session, live_user, or_deny, check_csrf, check_bindings, tokens_agree,
  check_uid, check_bound, check_version, changes_state, session_user, validate_session_security,
}
use troxe_host.Auth.Session.Guards.{bind-pass, then-eq-pass, bind-eq-pass}

-- What an accepted request shows: a session cookie whose second piece is the signature of the first,
-- which is the id of a user who is there and is not suspended, and who is the user of the request.
pub record IsGenuine (s : Signing) (req : Request) (db : Db) (v : TroxeUser) : Type 0 where
  pub cookie : Text
  pub sent : req.cookies.session ≡ some cookie
  pub user_id : Text
  pub more : List Text
  pub signed : split_on b'.' cookie ≡ user_id ∷ s.sign user_id ∷ more
  pub row : UserRow
  pub found : find_where (λ (r : UserRow). text_eq r.id user_id) db.users ≡ some row
  pub active : row.suspended ≡ false
  pub same : v ≡ session_user row

check_session_sound :
    (s : Signing) (pieces : List Text) {id : Text}
    → check_session s pieces ≡ pass id
    → (more : List Text) × (pieces ≡ id ∷ s.sign id ∷ more)
unfolding check_session
check_session_sound s [] e = cc
check_session_sound s (w ∷ []) e = cc
check_session_sound s ([] ∷ sig ∷ more) e = cc
check_session_sound s ((c ∷ w) ∷ [] ∷ more) e = cc
check_session_sound s ((c ∷ w) ∷ (d ∷ sig) ∷ more) e =
    (more, ground (arith, text_eq_iff (s.sign (c ∷ w)) (d ∷ sig)))

live_user_sound :
    (id : Text) (db : Db) {u : UserRow}
    → live_user id db ≡ pass u
    → (find_where (λ (r : UserRow). text_eq r.id id) db.users ≡ some u) × (u.suspended ≡ false)
unfolding live_user
live_user_sound id db e =
    elim (Option-cases (find_where (λ (r : UserRow). text_eq r.id id) db.users)) [
      | inl gone ↦ cc (rw gone at e)
      | inr (row, found) ↦ ground (arith, found)
    ]

or_deny_sound :
    (message : Text) (o : Option Text) {cookie : Text}
    → or_deny message (non_empty o) ≡ pass cookie
    → o ≡ some cookie
or_deny_sound message none e = cc
or_deny_sound message (some []) e = cc
or_deny_sound message (some (c ∷ w)) e = cc

check_bindings_sound :
    (s : Signing) (req : Request) (u : UserRow) (fresh : Text) {v : TroxeUser} {nonce : Option Text}
    → check_bindings s req u fresh ≡ pass (v, nonce)
    → v ≡ session_user u
unfolding check_bindings
check_bindings_sound s req u fresh e =
    let e₁ = then-eq-pass (check_csrf req) _ e in
    let e₂ = then-eq-pass (check_uid s (non_empty req.cookies.uid) u.username) _ e₁ in
    let e₃ = then-eq-pass (check_bound s _ (non_empty req.cookies.ip)) _ e₂ in
    let e₄ = then-eq-pass (check_bound s _ (non_empty req.cookies.fp)) _ e₃ in
    let e₅ = then-eq-pass (check_bound s _ (non_empty req.cookies.device)) _ e₄ in
    let e₆ = then-eq-pass (check_version (non_empty req.cookies.ver)) _ e₅ in ground (arith, e₆)

-- A request that is accepted sent a session cookie whose second piece is the signature of its first,
-- which is the id of a user who is there and is not suspended, and who is the user of the request.
pub validate_session_sound :
    (s : Signing) (req : Request) (db : Db) (fresh : Text) {v : TroxeUser} {nonce : Option Text}
    → validate_session_security s req db fresh ≡ pass (v, nonce)
    → IsGenuine s req db v
unfolding validate_session_security
validate_session_sound s req db fresh e =
    let (cookie, sent, e₁) =
      bind-eq-pass (or_deny (codes "No session") (non_empty req.cookies.session))
        (λ cookie. check_session s (split_on b'.' cookie) >>= λ id.
          live_user id db >>= λ u. check_bindings s req u fresh)
        e in
    let (id, signed, e₂) =
      bind-eq-pass (check_session s (split_on b'.' cookie))
        (λ id. live_user id db >>= λ u. check_bindings s req u fresh) e₁ in
    let (row, live, e₃) = bind-eq-pass (live_user id db) (λ u. check_bindings s req u fresh) e₂ in
    let (more, pieces) = check_session_sound s (split_on b'.' cookie) signed in
    let (found, active) = live_user_sound id db live in
    record {
      cookie = cookie;
      sent = or_deny_sound _ req.cookies.session sent;
      user_id = id;
      more = more;
      signed = pieces;
      row = row;
      found = found;
      active = active;
      same = check_bindings_sound s req row fresh e₃;
    }

tokens_agree_unsent : (t : Option Text) → tokens_agree t none ≡ pass tt
unfolding tokens_agree
tokens_agree_unsent none = refl
tokens_agree_unsent (some t) = refl

check_csrf_unsent : (req : Request) → check_csrf (record req { csrf_header = none }) ≡ pass tt
unfolding check_csrf
check_csrf_unsent req = elim (Bool-cases (changes_state req.method)) [
  | inl changes ↦ rw (changes, tokens_agree_unsent (non_empty req.cookies.csrf))
  | inr reads ↦ rw reads
]

check_bindings_unsent :
    (s : Signing) (req : Request) (u : UserRow) (fresh : Text) {r : TroxeUser × Option Text}
    → check_bindings s req u fresh ≡ pass r
    → check_bindings s (record req { csrf_header = none }) u fresh ≡ pass r
unfolding check_bindings
check_bindings_unsent s req u fresh e =
    bind-pass _ _ (check_csrf_unsent req) (then-eq-pass (check_csrf req) _ e)

-- A request that is accepted is accepted without its header too: the token of a request that
-- changes state is compared only where the header was sent.
pub csrf_header_optional :
    (s : Signing) (req : Request) (db : Db) (fresh : Text) {r : TroxeUser × Option Text}
    → validate_session_security s req db fresh ≡ pass r
    → validate_session_security s (record req { csrf_header = none }) db fresh ≡ pass r
unfolding validate_session_security
csrf_header_optional s req db fresh e =
    let (cookie, sent, e₁) =
      bind-eq-pass (or_deny (codes "No session") (non_empty req.cookies.session))
        (λ cookie. check_session s (split_on b'.' cookie) >>= λ id.
          live_user id db >>= λ u. check_bindings s req u fresh)
        e in
    let (id, signed, e₂) =
      bind-eq-pass (check_session s (split_on b'.' cookie))
        (λ id. live_user id db >>= λ u. check_bindings s req u fresh) e₁ in
    let (row, live, e₃) = bind-eq-pass (live_user id db) (λ u. check_bindings s req u fresh) e₂ in
    bind-pass _ _ sent
      (bind-pass _ _ signed (bind-pass _ _ live (check_bindings_unsent s req row fresh e₃)))
