-- ===== src/Account/ApiKeys/Laws.antt =====
-- What the keys that the routes store are worth.
use troxe_host.Common.{ℕ, Option, none, Text, ◌∷◌, ◌≡◌, refl, All, All-append, Bool-cases, inl, inr}
use troxe_host.Db.Counting.{All-delete_where}
use troxe_host.Effects.{World, Env, gets, pure, modify, fresh_id, send_mail, ◌>>=◌}
use troxe_host.Effects.Keeps.{Keeps, Keeps-bind, Keeps-try_catch, Keeps-pure}
use troxe_host.Workers.Steps.{should_notify}
use troxe_host.Auth.Keys.{Hashing, validate_api_key}
use troxe_host.Auth.Keys.Laws.{IsGenerated, validate_api_key_refuses}
use troxe_host.Auth.Rbac.{TroxeUser}
use troxe_host.Account.ApiKeys.{
  prefix_for, new_key, notify_created, is_blank, store_key, create_key, is_own, delete_key,
}

-- every key of the table is one that the panel generated
abbrev pub AreGenerated : Hashing → World → Type 0
AreGenerated h w = All (IsGenerated h) w.db.api_keys

notify_created-Keeps :
    (h : Hashing) (env : Env) (u : TroxeUser) (name : Text)
    → Keeps (AreGenerated h) (notify_created env u name)
unfolding notify_created gets send_mail modify pure ◌>>=◌
notify_created-Keeps h env u name = record {
  at = λ w k. elim (Bool-cases (should_notify env (λ p. p.email_on_api_key) u.user_id w.db)) [
    | inl wanted ↦ rw wanted k
    | inr unwanted ↦ rw unwanted k
  ];
}

new_key-IsGenerated :
    (h : Hashing) (now : ℕ) (u : TroxeUser) (id name : Text) (c : ℕ) (raw : Text) (days : Option ℕ)
    → IsGenerated h (new_key h now u id name (c ∷ raw) days)
unfolding new_key
new_key-IsGenerated h now u id name c raw days = (prefix_for u, c, raw, (refl, refl))

create_key-Keeps :
    (env : Env) (h : Hashing) (u : TroxeUser) (name : Text) (c : ℕ) (raw : Text) (days : Option ℕ)
    (w : World)
    → AreGenerated h w
    → AreGenerated h (create_key env h u name (c ∷ raw) days w).1
unfolding create_key store_key gets fresh_id modify pure ◌>>=◌
create_key-Keeps env h u name c raw days w k = elim (Bool-cases (is_blank name)) [
  | inl blank ↦ rw blank k
  | inr named ↦ rw named (
      (Keeps-bind _ _
          (Keeps-try_catch _ _ (notify_created-Keeps h env u name) (λ err. Keeps-pure tt))
          (λ _. Keeps-pure _)).at
        _
        (All-append _ w.db.api_keys _ k
          (new_key-IsGenerated h w.clock u (env.new_id w.next_id) name c raw days, tt)))
]

-- What users do with their keys, in any order: one is made from random text, one is deleted, and one
-- is sent with a request.
pub data Use (env : Env) (h : Hashing) (start : World) : World → Type 0 where
  here : Use env h start start
  made :
      {w : World} (u : TroxeUser) (name : Text) (c : ℕ) (raw : Text) (days : Option ℕ)
      → Use env h start w
      → Use env h start (create_key env h u name (c ∷ raw) days w).1
  deleted :
      {w : World} (id user_id : Text)
      → Use env h start w
      → Use env h start (record w { db = delete_key id user_id w.db })
  sent_by :
      {w : World} (key : Text)
      → Use env h start w
      → Use env h start (record w { db = (validate_api_key h w.clock key w.db).1 })

Use-AreGenerated :
    {env : Env} {h : Hashing} {start w : World}
    → AreGenerated h start
    → Use env h start w
    → AreGenerated h w
unfolding delete_key
Use-AreGenerated k here = k
Use-AreGenerated k (made {w} u name c raw days more) =
    create_key-Keeps _ _ u name c raw days w (Use-AreGenerated k more)
Use-AreGenerated k (deleted {w} id user_id more) =
    All-delete_where _ (is_own id user_id) w.db.api_keys (Use-AreGenerated k more)
Use-AreGenerated {h = h} k (sent_by {w} key more) =
    rw (validate_api_key_refuses h w.clock key w.db (Use-AreGenerated k more))
      (Use-AreGenerated k more)

-- From a table of keys that the panel generated, after any run of requests that make, delete and send
-- keys, no text whatever is accepted as a key, at no time.
pub Use-refused :
    {env : Env} {h : Hashing} {start w : World} (now : ℕ) (key : Text)
    → AreGenerated h start
    → Use env h start w
    → validate_api_key h now key w.db ≡ (none, w.db)
Use-refused {h = h} {w = w} now key k more =
    validate_api_key_refuses h now key w.db (Use-AreGenerated k more)
