-- ===== src/Auth/Rbac/Laws.antt =====
-- Whom the guards let through.
use troxe_host.Common.{
  ℕ, Bool, true, false, none, some, [], ◌∷◌, Text, text_eq, text_eq_iff, ◌≡◌, refl, arith,
  Bool-cases, inl, inr, if◌then◌else◌, ap, ◌∙◌,
}
use troxe_host.Js.{includes}
use troxe_host.Db.{Db, SubuserRow, Permissions}
use troxe_host.Auth.Rbac.{
  TroxeUser, Guarded, pass, deny, owns, subuser_row, granted, require_server_access, member_access,
  require_permission, server_guards,
}

-- what the guards of a route see of a user who is no root admin and whose session grants nothing
abbrev pub subuser_grant : Text → Text → TroxeUser → Db → Bool
subuser_grant permission server_id u db =
    if owns u.user_id server_id db then false else elim (subuser_row u.user_id server_id db) [
      | none ↦ false
      | some row ↦ granted permission row.permissions
    ]

abbrev pub is_passed {ℓ} : {A : Type ℓ} → Guarded A → Bool
is_passed (pass a) = true
is_passed (deny status message) = false

granted_nothing :
    (permission : Text) (u : TroxeUser)
    → u.permissions ≡ []
    → granted permission u.permissions ≡ false
unfolding granted
granted_nothing permission u bare = rw bare

-- For a user who is no root admin, and whose session grants nothing, the guards of a route on a
-- server pass exactly when the server is not the user's own and a subuser row grants the permission.
pub server_guards_iff :
    (permission : Text) (c : ℕ) (server_id : Text) (u : TroxeUser) (db : Db)
    → u.root_admin ≡ false
    → u.permissions ≡ []
    → is_passed (server_guards permission (c ∷ server_id) u db)
      ≡ subuser_grant permission (c ∷ server_id) u db
unfolding server_guards require_server_access member_access require_permission
server_guards_iff permission c server_id u db plain bare =
    ground (arith, granted_nothing permission u bare)

-- A root admin passes the guards of every route on a server.
pub server_guards_admin :
    (permission : Text) (c : ℕ) (server_id : Text) (u : TroxeUser) (db : Db)
    → u.root_admin ≡ true
    → server_guards permission (c ∷ server_id) u db ≡ pass u
unfolding server_guards require_server_access require_permission
server_guards_admin permission c server_id u db root = ground arith

-- a permissions document as `POST /servers/:id/subusers` stores it: its keys are names of groups,
-- and none of these has a dot
abbrev pub IsGrouped : Permissions → Type 0
IsGrouped [] = Unit
IsGrouped ((k, g) ∷ rest) = (includes b'.' k ≡ false) × IsGrouped rest

pub granted-IsGrouped :
    (permission : Text) (permissions : Permissions)
    → includes b'.' permission ≡ true
    → IsGrouped permissions
    → granted permission permissions ≡ false
unfolding granted
granted-IsGrouped permission [] dotted h = refl
granted-IsGrouped permission ((k, g) ∷ rest) dotted (h, hs) =
    elim (Bool-cases (text_eq k permission)) [
      | inl same ↦ cc (h, dotted, ap (includes b'.') ((text_eq_iff k permission).0 same))
      | inr other ↦ rw other (granted-IsGrouped permission rest dotted hs)
    ]

-- A subuser whose permissions are stored in groups is refused every permission with a dot in its
-- name, whatever the groups grant.
pub subuser_refused :
    (permission : Text) (c : ℕ) (server_id : Text) (u : TroxeUser) (db : Db) (row : SubuserRow)
    → u.root_admin ≡ false
    → u.permissions ≡ []
    → subuser_row u.user_id (c ∷ server_id) db ≡ some row
    → IsGrouped row.permissions
    → includes b'.' permission ≡ true
    → is_passed (server_guards permission (c ∷ server_id) u db) ≡ false
subuser_refused permission c server_id u db row plain bare member grouped dotted =
    server_guards_iff permission c server_id u db plain bare
    ∙ ground (arith, granted-IsGrouped permission row.permissions dotted grouped)
