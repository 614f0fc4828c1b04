-- ===== src/Auth/Keys/Laws.antt =====
-- Which keys and tokens are accepted.
use troxe_host.Common.{
  ℕ, false, Option, none, some, List, [], ◌∷◌, ◌++◌, Text, codes, text_eq, text_eq_iff, ◌≡◌, refl,
  arith, All, Option-cases, Bool-cases, inl, inr,
}
use troxe_host.Db.{Db, ApiKeyRow, NodeRow}
use troxe_host.Db.Table.{find_where, find_where_sound}
use troxe_host.Js.{starts_with}
use troxe_host.Js.Splitting.{starts_with-drop}
use troxe_host.Auth.Keys.{
  Hashing, KeyPrefix, client, admin, generate_api_key, key_matches, validate_api_key,
  authenticate_daemon, bearer, find_key, use_key,
}

-- the row that `POST /auth/api-keys` stores for a key
abbrev pub IsStored : Hashing → KeyPrefix → Text → ApiKeyRow → Type 0
IsStored h prefix raw row =
    (row.key_hash ≡ (generate_api_key h prefix raw).key_hash)
    × (row.key_prefix ≡ (generate_api_key h prefix raw).key_prefix)

-- A key that was generated from random text of at least one character is not accepted by the row
-- that was stored for it, at any time: the stored prefix is longer than the one that is looked for.
pub generated_key_refused :
    (h : Hashing) (prefix : KeyPrefix) (c : ℕ) (raw : Text) (now : ℕ) (row : ApiKeyRow)
    → IsStored h prefix (c ∷ raw) row
    → key_matches h now (generate_api_key h prefix (c ∷ raw)).key row ≡ false
unfolding key_matches generate_api_key text_eq
generated_key_refused h client c raw now row (_, p) = rw p (ground arith)
generated_key_refused h admin c raw now row (_, p) = rw p (ground arith)

-- a row that `POST /auth/api-keys` could have stored
abbrev pub IsGenerated : Hashing → ApiKeyRow → Type 0
IsGenerated h row = (prefix : KeyPrefix) × (c : ℕ) × (raw : Text) × IsStored h prefix (c ∷ raw) row

IsGenerated-no_match :
    (h : Hashing) (now : ℕ) (key : Text) (row : ApiKeyRow)
    → IsGenerated h row
    → key_matches h now key row ≡ false
unfolding key_matches generate_api_key text_eq
IsGenerated-no_match h now key row (client, c, raw, (_, p)) = rw p (ground arith)
IsGenerated-no_match h now key row (admin, c, raw, (_, p)) = rw p (ground arith)

find_where-no_match :
    (h : Hashing) (now : ℕ) (key : Text) (rows : List ApiKeyRow)
    → All (IsGenerated h) rows
    → find_where (key_matches h now key) rows ≡ none
unfolding find_where
find_where-no_match h now key [] g = refl
find_where-no_match h now key (row ∷ rows) (g, gs) =
    rw (IsGenerated-no_match h now key row g) (find_where-no_match h now key rows gs)

-- Where every stored key is one that the panel generated, no text whatever is accepted as a key, at
-- no time, and the database stays as it is.
pub validate_api_key_refuses :
    (h : Hashing) (now : ℕ) (key : Text) (db : Db)
    → All (IsGenerated h) db.api_keys
    → validate_api_key h now key db ≡ (none, db)
unfolding validate_api_key find_key use_key
validate_api_key_refuses h now key db g = rw (find_where-no_match h now key db.api_keys g, find_key)

bearer_sound :
    (header : Option Text) (token : Text)
    → bearer header ≡ some token
    → header ≡ some (codes "Bearer " ++ token)
unfolding bearer
bearer_sound none token e = cc
bearer_sound (some header) token e = elim (Bool-cases (starts_with (codes "Bearer ") header)) [
  | inl starts ↦ ground (arith, starts, starts_with-drop (codes "Bearer ") header starts)
  | inr other ↦ ground (arith, other)
]

-- An accepted daemon token was sent behind "Bearer ", and its hash is that of the node.
pub authenticate_daemon_sound :
    (h : Hashing) (header : Option Text) (db : Db) {n : NodeRow}
    → authenticate_daemon h header db ≡ some n
    → (token : Text) × (header ≡ some (codes "Bearer " ++ token))
      × (n.daemon_token_hash ≡ h.sha256 token)
unfolding authenticate_daemon
authenticate_daemon_sound h header db {n} e = elim (Option-cases (bearer header)) [
  | inl missing ↦ cc (rw (missing, authenticate_daemon) at e)
  | inr (token, sent) ↦ (
    token,
    bearer_sound header token sent,
    (text_eq_iff n.daemon_token_hash (h.sha256 token)).0 (
        find_where_sound (λ (r : NodeRow). text_eq r.daemon_token_hash (h.sha256 token)) db.nodes
          (rw (sent, authenticate_daemon) at e)),
  )
]
