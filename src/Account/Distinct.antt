-- ===== src/Account/Distinct.antt =====
-- No two users have one address.
use troxe_host.Common.{
  ◌≤◌, Bool, none, List, [], ◌∷◌, ◌++◌, Text, text_eq, text_eq_iff, ◌≡◌, refl, arith, Bool-cases,
  Option-cases, inl, inr,
}
use troxe_host.Db.{Db, UserRow}
use troxe_host.Db.Counting.{count_where-append, count_where-none}
use troxe_host.Db.Table.{find_where, count_where}
use troxe_host.Account.{Credentials, RegisterBody, taken, new_user, register}

abbrev pub has_email : Text → UserRow → Bool
has_email email u = text_eq u.email email

added_once :
    (c : Credentials) (id : Text) (body : RegisterBody) (is_first : Bool) (email : Text)
    (users : List UserRow)
    → find_where (taken body) users ≡ none
    → count_where (has_email email) users ≤ 1
    → count_where (has_email email) (users ++ new_user c id body is_first ∷ []) ≤ 1
added_once c id body is_first email users untaken h = elim (Bool-cases (text_eq body.email email)) [
  | inl same ↦
      rw
        (
          count_where-append (has_email email) users (new_user c id body is_first),
          same,
          count_where-none (has_email email) (taken body) users
              (λ r holds. rw ((text_eq_iff body.email email).0 same) (rw holds refl)) untaken,
        )
        (omega arith)
  | inr other ↦
      rw (count_where-append (has_email email) users (new_user c id body is_first), other)
        (omega (arith, h))
]

-- A registration, whether it is refused or not, leaves at most one user with an address that at most
-- one user had.
pub register_distinct :
    (c : Credentials) (id ip : Text) (body : RegisterBody) (email : Text) (db : Db)
    → count_where (has_email email) db.users ≤ 1
    → count_where (has_email email) (register c id ip body db).1.users ≤ 1
unfolding register
register_distinct c id ip body email db h = elim (Option-cases (find_where (taken body) db.users)) [
  | inl untaken ↦ rw untaken (added_once c id body _ email db.users untaken h)
  | inr (u, found) ↦ rw found h
]
